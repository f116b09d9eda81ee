-- ===== src/Storage/Rows.antt =====
-- A table as a list of rows of values, and what `insertIntoTable` does to it.
use hivedb.Base.{
  ℕ, ◌+◌, ◌*◌, ◌≡◌, refl, ap, ◌∙◌, sym, subst, List, [], ◌∷◌, ◌++◌, length, length-append, arith,
  ok, ◌>>=◌,
}
use mathlib.Core.List.{append_assoc, append-nil}
use hivedb.DataTypes.{DataTypes, find_offset}
use hivedb.Syntax.{Value, float, int, text}
use hivedb.Storage.{Heap, value_for, insert_data, insert_row, read_field}
use hivedb.Storage.Growth.{width, size_of_row, insert_data-length}
use hivedb.Storage.Fields.{
  Fits, IsNew, Keeps, read_field-insert_data, read_field-append, insert_data-appends,
}

-- The values of a row, whose first byte has this index.
abbrev pub RowAt : List ℕ → Heap → ℕ → List (List ℕ × DataTypes) → List Value → Type 0
RowAt bytes heap ptr [] [] = Unit {0}
RowAt bytes heap ptr [] (v ∷ vs) = ⊥
RowAt bytes heap ptr ((name, dt) ∷ more) [] = ⊥
RowAt bytes heap ptr ((name, dt) ∷ more) (v ∷ vs) =
    (read_field bytes heap ptr dt ≡ ok v) × RowAt bytes heap (ptr + find_offset dt) more vs

abbrev pub RowsAt : List ℕ → Heap → ℕ → List (List ℕ × DataTypes) → List (List Value) → Type 0
RowsAt bytes heap ptr columns [] = Unit {0}
RowsAt bytes heap ptr columns (row ∷ rows) =
    RowAt bytes heap ptr columns row × RowsAt bytes heap (ptr + size_of_row columns) columns rows

-- The bytes of a table hold these rows, and no more.
abbrev pub Represents : List (List ℕ × DataTypes) → List ℕ × Heap → List (List Value) → Type 0
Represents columns (bytes, heap) rows =
    RowsAt bytes heap 0 columns rows × (length bytes ≡ length rows * size_of_row columns)

-- Bytes behind others, and a heap that keeps its strings.
pub record Grows (before after : List ℕ × Heap) : Type 0 where
  pub more : List ℕ
  pub split : after.0 ≡ before.0 ++ more
  pub keeps : Keeps before.1 after.1

pub Grows-trans : (a b c : List ℕ × Heap) → Grows a b → Grows b c → Grows a c
Grows-trans a b c g h = record {
  more = g.more ++ h.more;
  split = h.split ∙ ap (λ bs. bs ++ h.more) g.split ∙ append_assoc a.0 g.more h.more;
  keeps = λ k v e. h.keeps k v (g.keeps k v e);
}

read_field-Grows :
    (dt : DataTypes) (w : Value) (ptr : ℕ) (before after : List ℕ × Heap)
    → Grows before after
    → read_field before.0 before.1 ptr dt ≡ ok w
    → read_field after.0 after.1 ptr dt ≡ ok w
read_field-Grows dt w ptr before after g e =
    subst (λ bs. read_field bs after.1 ptr dt ≡ ok w) (sym g.split)
      (read_field-append dt w ptr before.0 g.more before.1 after.1 g.keeps e)

RowAt-Grows :
    (columns : List (List ℕ × DataTypes)) (vs : List Value) (ptr : ℕ) (before after : List ℕ × Heap)
    → Grows before after
    → RowAt before.0 before.1 ptr columns vs
    → RowAt after.0 after.1 ptr columns vs
RowAt-Grows [] [] ptr before after g h = tt
RowAt-Grows [] (v ∷ vs) ptr before after g h = absurd h
RowAt-Grows ((name, dt) ∷ more) [] ptr before after g h = absurd h
RowAt-Grows ((name, dt) ∷ more) (v ∷ vs) ptr before after g (h, hs) = (
  read_field-Grows dt v ptr before after g h,
  RowAt-Grows more vs (ptr + find_offset dt) before after g hs,
)

pub RowsAt-Grows :
    (columns : List (List ℕ × DataTypes)) (rows : List (List Value)) (ptr : ℕ)
    (before after : List ℕ × Heap)
    → Grows before after
    → RowsAt before.0 before.1 ptr columns rows
    → RowsAt after.0 after.1 ptr columns rows
RowsAt-Grows columns [] ptr before after g h = tt
RowsAt-Grows columns (row ∷ rows) ptr before after g (h, hs) = (
  RowAt-Grows columns row ptr before after g h,
  RowsAt-Grows columns rows (ptr + size_of_row columns) before after g hs,
)

-- One row more, behind the others.
RowsAt-append :
    (columns : List (List ℕ × DataTypes)) (rows : List (List Value)) (row : List Value) (ptr : ℕ)
    (bytes : List ℕ) (heap : Heap)
    → RowsAt bytes heap ptr columns rows
    → RowAt bytes heap (ptr + length rows * size_of_row columns) columns row
    → RowsAt bytes heap ptr columns (rows ++ row ∷ [])
RowsAt-append columns [] row ptr bytes heap h r =
    (subst (λ p. RowAt bytes heap p columns row) (omega arith) r, tt)
RowsAt-append columns (x ∷ rows) row ptr bytes heap (h, hs) r = (
  h,
  RowsAt-append columns rows row (ptr + size_of_row columns) bytes heap hs
      (subst (λ p. RowAt bytes heap p columns row) (omega arith) r),
)

module _ (allocate : Heap → ℕ) (names : List (List ℕ)) (values : List Value) where
  -- The values that a statement gives to the columns, each fit for its column, where the heap has room.
  abbrev pub Accepts : List (List ℕ × DataTypes) → List ℕ × Heap → List Value → Type 0
  Accepts [] row [] = Unit {0}
  Accepts [] row (v ∷ vs) = ⊥
  Accepts ((name, dt) ∷ more) row [] = ⊥
  Accepts ((name, dt) ∷ more) row (v ∷ vs) =
      (value_for name names values ≡ ok v)
      × Fits dt v
      × IsNew (allocate row.1) row.1
      × Accepts more (insert_data allocate v row.0 row.1) vs

  width-Fits : (dt : DataTypes) (v : Value) → Fits dt v → width v ≡ find_offset dt
  unfolding find_offset
  width-Fits DataTypes.integer (int z) f = refl
  width-Fits DataTypes.real (float x) f = refl
  width-Fits DataTypes.varchar (text cs) f = refl
  width-Fits DataTypes.integer (float x) f = absurd f
  width-Fits DataTypes.integer (text cs) f = absurd f
  width-Fits DataTypes.real (int z) f = absurd f
  width-Fits DataTypes.real (text cs) f = absurd f
  width-Fits DataTypes.varchar (int z) f = absurd f
  width-Fits DataTypes.varchar (float x) f = absurd f

  -- The row that is written, behind what was there.
  pub record Inserted (columns : List (List ℕ × DataTypes)) (vs : List Value)
      (before after : List ℕ × Heap) : Type 0 where
    pub grows : Grows before after
    pub row : RowAt after.0 after.1 (length before.0) columns vs
    pub size : length after.0 ≡ length before.0 + size_of_row columns

  pub insert_row-Inserted :
      (columns : List (List ℕ × DataTypes)) (vs : List Value) (before : List ℕ × Heap)
      → Accepts columns before vs
      → (after : List ℕ × Heap) × (insert_row allocate columns names values before ≡ ok after)
        × Inserted columns vs before after
  unfolding insert_row
  insert_row-Inserted [] [] before h = (
    before,
    refl,
    record {
      grows = record { more = []; split = sym (append-nil before.0); keeps = λ k v e. e };
      row = tt;
      size = omega arith;
    },
  )
  insert_row-Inserted [] (v ∷ vs) before h = absurd h
  insert_row-Inserted ((name, dt) ∷ more) [] before h = absurd h
  insert_row-Inserted ((name, dt) ∷ more) (v ∷ vs) before (e, f, new, h) =
      let next = insert_data allocate v before.0 before.1 in
      let (after, run, i) = insert_row-Inserted more vs next h in
      let (apart, kept) = insert_data-appends allocate v before.0 before.1 new in
      let grown : Grows before next = record { more = apart.0; split = apart.1; keeps = kept } in
      let wide : length next.0 ≡ length before.0 + find_offset dt =
        insert_data-length allocate v before.0 before.1
        ∙ ap (λ n. length before.0 + n) (width-Fits dt v f) in
      (
        after,
        ap
              (λ o. o >>= λ w.
                insert_row allocate more names values (insert_data allocate w before.0 before.1))
              e
            ∙ run,
        record {
          grows = Grows-trans before next after grown i.grows;
          row = (
            read_field-Grows dt v (length before.0) next after i.grows
                (read_field-insert_data allocate dt v before.0 before.1 f new),
            subst (λ p. RowAt after.0 after.1 p more vs) wide i.row,
          );
          size = i.size ∙ omega (arith, wide);
        },
      )

  -- A table that holds some rows holds one more behind them after an insertion that it accepts.
  pub insert_row-Represents :
      (columns : List (List ℕ × DataTypes)) (rows : List (List Value)) (vs : List Value)
      (before : List ℕ × Heap)
      → Represents columns before rows
      → Accepts columns before vs
      → (after : List ℕ × Heap) × (insert_row allocate columns names values before ≡ ok after)
        × Represents columns after (rows ++ vs ∷ [])
  insert_row-Represents columns rows vs before (h, size) a =
      let (after, run, i) = insert_row-Inserted columns vs before a in
      let one_more : length before.0 + size_of_row columns
          ≡ length (rows ++ vs ∷ []) * size_of_row columns =
        ap (λ n. n + size_of_row columns) size
        ∙ omega arith
        ∙ ap (λ n. n * size_of_row columns) (sym (length_rows rows vs)) in
      (
        after,
        run,
        (
          RowsAt-append columns rows vs 0 after.0 after.1
              (RowsAt-Grows columns rows 0 before after i.grows h)
              (subst (λ p. RowAt after.0 after.1 p columns vs) (size ∙ omega arith) i.row),
          i.size ∙ one_more,
        ),
      )
    where
      length_rows :
          (rows : List (List Value)) (row : List Value)
          → length (rows ++ row ∷ []) ≡ length rows + 1
      length_rows rows row = length-append rows (row ∷ [])
