-- ===== src/Storage/Lookup.antt =====
-- The columns that a query asks for, and where they stand in a row.
use hivedb.Base.{
  ℕ, ◌+◌, ◌<◌, ◌≡◌, refl, ap, ◌∙◌, sym, subst, true, false, same_text, one_if, if◌then◌else◌,
  Bool-cases, List, [], ◌∷◌, arith, Outcome, ok, fails, out_of_bounds, inl, inr,
}
use hivedb.DataTypes.{DataTypes, find_offset}
use hivedb.Syntax.{Value}
use hivedb.Storage.{Heap, ColumnToFetch, column_to_fetch, data_to_fetch, read_field}
use hivedb.Storage.Growth.{size_of_row}
use hivedb.Storage.Fields.{bind-ok}
use hivedb.Storage.Rows.{RowAt}
use hivedb.Storage.Fetch.{ok_injective}
use hivedb.Storage.Entries.{same_text-eq, Columns}

-- The value of a row in the first column of that name.
abbrev pub row_value : List (List ℕ × DataTypes) → List Value → List ℕ → Outcome Value
row_value ((name, dt) ∷ more) (v ∷ vs) column =
    if same_text name column then ok v else row_value more vs column
row_value _ _ column = fails out_of_bounds

-- How often a name stands in a list, and among the columns to fetch.
abbrev pub occurrences : List ℕ → List (List ℕ) → ℕ
occurrences name [] = 0
occurrences name (c ∷ cs) = one_if (same_text c name) + occurrences name cs

abbrev pub count : List ℕ → List ColumnToFetch → ℕ
count name [] = 0
count name (clm ∷ more) = one_if (same_text clm.name name) + count name more

abbrev pub EachOnceIn : List (List ℕ) → List (List ℕ) → Type 0
EachOnceIn all [] = Unit {0}
EachOnceIn all (c ∷ cs) = (occurrences c all ≡ 1) × EachOnceIn all cs

-- No name stands twice.
abbrev pub EachOnce : List (List ℕ) → Type 0
EachOnce cs = EachOnceIn cs cs

pub occurs_once :
    (all cs : List (List ℕ)) (name : List ℕ)
    → EachOnceIn all cs
    → 0 < occurrences name cs
    → occurrences name all ≡ 1
occurs_once all [] name h l = absurd (omega arith)
occurs_once all (c ∷ cs) name (h, hs) l = elim (Bool-cases (same_text c name)) [
  | inl e ↦ subst (λ k. occurrences k all ≡ 1) (same_text-eq c name e) h
  | inr n ↦
      let later : 0 < one_if false + occurrences name cs =
        subst (λ b. 0 < one_if b + occurrences name cs) n l in
      occurs_once all cs name hs (omega arith)
]

-- A column that `queryDataFromTable` looks up: for each row, the field that it points to is the row's.
pub record Points (columns : List (List ℕ × DataTypes)) (clm : ColumnToFetch) : Type 0 where
  pub offset_in_row : clm.offset < size_of_row columns
  pub value :
      (bytes : List ℕ) (heap : Heap) (ptr : ℕ) (vs : List Value)
      → RowAt bytes heap ptr columns vs
      → read_field bytes heap (ptr + clm.offset) clm.dt ≡ row_value columns vs clm.name

abbrev pub AllPoint : List (List ℕ × DataTypes) → List ColumnToFetch → Type 0
AllPoint columns [] = Unit {0}
AllPoint columns (clm ∷ more) = Points columns clm × AllPoint columns more

find_offset-positive : (dt : DataTypes) → 0 < find_offset dt
unfolding find_offset
find_offset-positive DataTypes.varchar = omega arith
find_offset-positive DataTypes.integer = omega arith
find_offset-positive DataTypes.real = omega arith

-- The search from a column on, behind `o` bytes of the row.
record Located (column : List ℕ) (columns : List (List ℕ × DataTypes)) (o : ℕ) (clm : ColumnToFetch)
    : Type 0 where
  pub name : clm.name ≡ column
  inside : clm.offset < o + size_of_row columns
  value :
      (bytes : List ℕ) (heap : Heap) (ptr : ℕ) (vs : List Value)
      → RowAt bytes heap (ptr + o) columns vs
      → read_field bytes heap (ptr + clm.offset) clm.dt ≡ row_value columns vs column

here-Located :
    (column name : List ℕ) (dt : DataTypes) (more : List (List ℕ × DataTypes)) (o : ℕ)
    → same_text name column ≡ true
    → Located column ((name, dt) ∷ more) o (record { name = name; offset = o; dt = dt })
here-Located column name dt more o t = record {
  name = same_text-eq name column t;
  inside = omega (arith, find_offset-positive dt);
  value = found;
}
  where
    found :
        (bytes : List ℕ) (heap : Heap) (ptr : ℕ) (vs : List Value)
        → RowAt bytes heap (ptr + o) ((name, dt) ∷ more) vs
        → read_field bytes heap (ptr + o) dt ≡ row_value ((name, dt) ∷ more) vs column
    found bytes heap ptr [] r = absurd r
    found bytes heap ptr (v ∷ vs) (r, rs) =
        r ∙ ap (λ b. if b then ok v else row_value more vs column) (sym t)

later-Located :
    (column name : List ℕ) (dt : DataTypes) (more : List (List ℕ × DataTypes)) (o : ℕ)
    (clm : ColumnToFetch)
    → same_text name column ≡ false
    → Located column more (o + find_offset dt) clm
    → Located column ((name, dt) ∷ more) o clm
later-Located column name dt more o clm f l = record {
  name = l.name;
  inside = omega (arith, l.inside);
  value = found;
}
  where
    found :
        (bytes : List ℕ) (heap : Heap) (ptr : ℕ) (vs : List Value)
        → RowAt bytes heap (ptr + o) ((name, dt) ∷ more) vs
        → read_field bytes heap (ptr + clm.offset) clm.dt ≡ row_value ((name, dt) ∷ more) vs column
    found bytes heap ptr [] r = absurd r
    found bytes heap ptr (v ∷ vs) (r, rs) =
        l.value bytes heap ptr vs (subst (λ p. RowAt bytes heap p more vs) (omega arith) rs)
        ∙ ap (λ b. if b then ok v else row_value more vs column) (sym f)

column_to_fetch-Located :
    (column : List ℕ) (columns : List (List ℕ × DataTypes)) (o : ℕ) (clm : ColumnToFetch)
    → column_to_fetch column columns o ≡ ok clm
    → Located column columns o clm
unfolding column_to_fetch
column_to_fetch-Located column [] o clm e = cc
column_to_fetch-Located column ((name, dt) ∷ more) o clm e =
    elim (Bool-cases (same_text name column)) [
      | inl t ↦
          let here : ◌≡◌ {A = Outcome ColumnToFetch}
              (ok (record { name = name; offset = o; dt = dt })) (ok clm) =
            ap
              (λ b.
                if b
                then ok (record { name = name; offset = o; dt = dt })
                else column_to_fetch column more (o + find_offset dt))
              (sym t)
            ∙ e in
          subst (λ c. Located column ((name, dt) ∷ more) o c) (ok_injective _ clm here)
            (here-Located column name dt more o t)
      | inr f ↦
          let later : column_to_fetch column more (o + find_offset dt) ≡ ok clm =
            ap
              (λ b.
                if b
                then ok (record { name = name; offset = o; dt = dt })
                else column_to_fetch column more (o + find_offset dt))
              (sym f)
            ∙ e in
          later-Located column name dt more o clm f
            (column_to_fetch-Located column more (o + find_offset dt) clm later)
    ]

-- The columns that were looked up are those that were asked for, in order.
abbrev pub LooksUp : List (List ℕ) → List (List ℕ × DataTypes) → List ColumnToFetch → Type 0
LooksUp cs columns clms =
    AllPoint columns clms
    × ((name : List ℕ) → count name clms ≡ occurrences name cs)
    × Columns (size_of_row columns) clms

Located-Points :
    (column : List ℕ) (columns : List (List ℕ × DataTypes)) (clm : ColumnToFetch)
    → Located column columns 0 clm
    → Points columns clm
Located-Points column columns clm l = record {
  offset_in_row = omega (arith, l.inside);
  value = λ bytes heap ptr vs r.
      l.value bytes heap ptr vs (subst (λ p. RowAt bytes heap p columns vs) (omega arith) r)
      ∙ ap (row_value columns vs) (sym l.name);
}

pub data_to_fetch-LooksUp :
    (cs : List (List ℕ)) (columns : List (List ℕ × DataTypes)) (clms : List ColumnToFetch)
    → data_to_fetch cs columns ≡ ok clms
    → LooksUp cs columns clms
unfolding data_to_fetch
data_to_fetch-LooksUp [] columns clms e =
    subst (LooksUp [] columns) (ok_injective [] clms e) (tt, (λ name. refl), tt)
data_to_fetch-LooksUp (c ∷ cs) columns clms e =
    let (clm, found, e') = bind-ok (column_to_fetch c columns 0) _ clms e in
    let (rest, found', e'') = bind-ok (data_to_fetch cs columns) _ clms e' in
    let l = column_to_fetch-Located c columns 0 clm found in
    let (points, same, inside) = data_to_fetch-LooksUp cs columns rest found' in
    subst (LooksUp (c ∷ cs) columns) (ok_injective (clm ∷ rest) clms e'') (
      (Located-Points c columns clm l, points),
      (λ name.
          ap (λ k. one_if (same_text k name) + count name rest) l.name
          ∙ ap (λ n. one_if (same_text c name) + n) (same name)),
      (omega (arith, l.inside), inside),
    )
