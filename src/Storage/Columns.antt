-- ===== src/Storage/Columns.antt =====
-- What `fetch` finds for a column that is asked for once.
use hivedb.Base.{
  ℕ, zero, suc, ◌+◌, ◌*◌, ◌<◌, ◌≡◌, refl, ap, ◌∙◌, sym, Bool, true, false, same_text, one_if,
  if◌then◌else◌, Bool-cases, some, List, [], ◌∷◌, ◌++◌, length, length-append, get_elem?, arith,
  inl, inr,
}
use hivedb.DataTypes.{DataTypes}
use hivedb.Storage.{ColumnToFetch, FetchedColumns}
use hivedb.Storage.Entries.{fields_of, fields_of_rows, same_text-eq}
use hivedb.Storage.Lookup.{count, Points, AllPoint}

-- Under a name that is asked for once: one field for each row.
pub fields_of-none :
    (name : List ℕ) (clms : List ColumnToFetch) (idx : ℕ)
    → count name clms ≡ 0
    → fields_of name clms idx ≡ []
fields_of-none name [] idx h = refl
fields_of-none name (clm ∷ more) idx h =
    on (fields_of-none name more idx) (same_text clm.name name) h
  where
    on :
        (count name more ≡ 0 → fields_of name more idx ≡ [])
        → (b : Bool) → one_if b + count name more ≡ 0
        → (if b then record { ptr = idx + clm.offset; dt = clm.dt } ∷ [] else [])
            ++ fields_of name more idx
          ≡ []
    on no_tail true h = absurd (omega arith)
    on no_tail false h = no_tail (omega arith)

-- The column that is asked for under a name.
pub fields_of-once :
    (columns : List (List ℕ × DataTypes)) (name : List ℕ) (clms : List ColumnToFetch)
    → AllPoint columns clms
    → count name clms ≡ 1
    → (clm : ColumnToFetch) × (clm.name ≡ name)
      × Points columns clm
      × ((idx : ℕ) → fields_of name clms idx ≡ record { ptr = idx + clm.offset; dt = clm.dt } ∷ [])
fields_of-once columns name [] h e = absurd (omega arith)
fields_of-once columns name (clm ∷ more) (p, ps) e = elim (Bool-cases (same_text clm.name name)) [
  | inl t ↦
      let rest_none : count name more ≡ 0 =
        omega (arith, ap (λ b. one_if b + count name more) (sym t) ∙ e) in
      (
        clm,
        same_text-eq clm.name name t,
        p,
        λ idx.
            ap
              (λ b.
                (if b then record { ptr = idx + clm.offset; dt = clm.dt } ∷ [] else [])
                ++ fields_of name more idx)
              t
            ∙ ap (λ ys. record { ptr = idx + clm.offset; dt = clm.dt } ∷ ys)
                (fields_of-none name more idx rest_none),
      )
  | inr f ↦
      let rest_one : count name more ≡ 1 =
        omega (arith, ap (λ b. one_if b + count name more) (sym f) ∙ e) in
      let (found, named, points, fields) = fields_of-once columns name more ps rest_one in
      (
        found,
        named,
        points,
        λ idx.
            ap
              (λ b.
                (if b then record { ptr = idx + clm.offset; dt = clm.dt } ∷ [] else [])
                ++ fields_of name more idx)
              f
            ∙ fields idx,
      )
]

-- The field of each row.
pub fields_of_rows-once :
    (name : List ℕ) (clms : List ColumnToFetch) (clm : ColumnToFetch)
    → ((idx : ℕ) → fields_of name clms idx ≡ record { ptr = idx + clm.offset; dt = clm.dt } ∷ [])
    → (size rows i idx : ℕ) → i < rows
    → get_elem? (fields_of_rows name clms size rows idx) i
      ≡ some (record { ptr = (idx + i * size) + clm.offset; dt = clm.dt })
fields_of_rows-once name clms clm one size zero i idx l = absurd (omega arith)
fields_of_rows-once name clms clm one size (suc rows) zero idx l =
    ap (λ ys. get_elem? (ys ++ fields_of_rows name clms size rows (idx + size)) 0) (one idx)
    ∙ ap (λ p. some (record { ptr = p + clm.offset; dt = clm.dt })) (omega arith)
fields_of_rows-once name clms clm one size (suc rows) (suc i) idx l =
    ap (λ ys. get_elem? (ys ++ fields_of_rows name clms size rows (idx + size)) (suc i)) (one idx)
    ∙ fields_of_rows-once name clms clm one size rows i (idx + size) (omega arith)
    ∙ ap (λ p. some (record { ptr = p + clm.offset; dt = clm.dt })) (omega arith)

pub length-fields_of_rows :
    (name : List ℕ) (clms : List ColumnToFetch) (n : ℕ)
    → ((idx : ℕ) → length (fields_of name clms idx) ≡ n)
    → (size rows idx : ℕ) → length (fields_of_rows name clms size rows idx) ≡ rows * n
length-fields_of_rows name clms n h size zero idx = omega arith
length-fields_of_rows name clms n h size (suc rows) idx = omega (
  arith,
  h idx,
  length_fields (fields_of name clms idx) (fields_of_rows name clms size rows (idx + size)),
  length-fields_of_rows name clms n h size rows (idx + size),
)
  where
    length_fields : (xs ys : List FetchedColumns) → length (xs ++ ys) ≡ length xs + length ys
    length_fields = length-append
