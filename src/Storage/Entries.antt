-- ===== src/Storage/Entries.antt =====
-- The map that `fetch` fills.
use hivedb.Base.{
  ℕ, zero, suc, ◌+◌, ◌<◌, ◌≤◌, ◌≡◌, refl, ap, ◌∙◌, sym, Bool, true, false, ◌&&◌, ◌==◌, same_text,
  if◌then◌else◌, if-cases, Bool-cases, none, some, List, [], ◌∷◌, ◌++◌, length, arith, inl, inr,
}
use mathlib.Core.List.{append-nil}
use hivedb.Storage.{ColumnToFetch, FetchedColumns, FetchedDataMap, find, append_fetched}

-- What is found under a name: nothing where the name is missing.
abbrev pub entries : List ℕ → FetchedDataMap → List FetchedColumns
entries name fetched = elim (find name fetched) [ none ↦ [] | some xs ↦ xs ]

-- The fields of this name, of the row that begins at an index.
abbrev pub fields_of : List ℕ → List ColumnToFetch → ℕ → List FetchedColumns
fields_of name [] idx = []
fields_of name (clm ∷ more) idx =
    (if same_text clm.name name then record { ptr = idx + clm.offset; dt = clm.dt } ∷ [] else [])
    ++ fields_of name more idx

-- Those of `rows` rows.
abbrev pub fields_of_rows : List ℕ → List ColumnToFetch → ℕ → ℕ → ℕ → List FetchedColumns
fields_of_rows name clms size zero idx = []
fields_of_rows name clms size (suc rows) idx =
    fields_of name clms idx ++ fields_of_rows name clms size rows (idx + size)

and_true : (b c : Bool) → (b && c) ≡ true → (b ≡ true) × (c ≡ true)
and_true true c h = (refl, h)
and_true false c h = cc

pub same_text-eq : (xs ys : List ℕ) → same_text xs ys ≡ true → xs ≡ ys
same_text-eq [] [] h = refl
same_text-eq [] (y ∷ ys) h = cc
same_text-eq (x ∷ xs) [] h = cc
same_text-eq (x ∷ xs) (y ∷ ys) h =
    let (first, rest) = and_true (x == y) (same_text xs ys) h in
    let same : x ≡ y = ground arith in
    ap (λ z. z ∷ xs) same ∙ ap (λ zs. y ∷ zs) (same_text-eq xs ys rest)

pub same_text_refl : (xs : List ℕ) → same_text xs xs ≡ true
same_text_refl [] = refl
same_text_refl (x ∷ xs) = ground (arith, same_text_refl xs)

pub bools_differ : true ≡ false → ⊥
bools_differ e = cc

other_name :
    (k key name : List ℕ)
    → same_text k key ≡ false
    → same_text k name ≡ true
    → same_text key name ≡ false
other_name k key name n e = elim (Bool-cases (same_text key name)) [
  | inl t ↦
      let same : k ≡ key = same_text-eq k name e ∙ sym (same_text-eq key name t) in
      absurd (bools_differ (sym (same_text_refl k) ∙ ap (same_text k) same ∙ n))
  | inr f ↦ f
]

-- The columns' first bytes are in the table's, and in a row.
abbrev pub Inside : List ℕ → ℕ → List ColumnToFetch → Type 0
Inside bytes idx [] = Unit {0}
Inside bytes idx (clm ∷ more) = (idx + clm.offset < length bytes) × Inside bytes idx more

abbrev pub Columns : ℕ → List ColumnToFetch → Type 0
Columns size [] = Unit {0}
Columns size (clm ∷ more) = (clm.offset < size) × Columns size more

pub Columns-Inside :
    (size : ℕ) (clms : List ColumnToFetch) (bytes : List ℕ) (idx : ℕ)
    → Columns size clms
    → idx + size ≤ length bytes
    → Inside bytes idx clms
Columns-Inside size [] bytes idx h l = tt
Columns-Inside size (clm ∷ more) bytes idx (h, hs) l =
    (omega arith, Columns-Inside size more bytes idx hs l)

-- A name that is found first, and one that is found behind.
entries-cons :
    (name k : List ℕ) (xs : List FetchedColumns) (more : FetchedDataMap)
    → entries name ((k, xs) ∷ more) ≡ (if same_text k name then xs else entries name more)
entries-cons name k xs more = on (same_text k name)
  where
    on :
        (b : Bool)
        → elim (if b then some xs else find name more) as (λ o. List FetchedColumns) [
          | none ↦ []
          | some ys ↦ ys
        ]
          ≡ (if b then xs else entries name more)
    on true = refl
    on false = refl

append_if :
    (b : Bool) (xs ys : List FetchedColumns) (x : FetchedColumns)
    → (if b then xs ++ x ∷ [] else ys) ≡ (if b then xs else ys) ++ (if b then x ∷ [] else [])
append_if true xs ys x = refl
append_if false xs ys x = sym (append-nil ys)

-- `emplace` and `push_back` add behind what is found under the name, and to nothing else.
pub entries-append_fetched :
    (name key : List ℕ) (x : FetchedColumns) (fetched : FetchedDataMap)
    → entries name (append_fetched key x fetched)
      ≡ entries name fetched ++ (if same_text key name then x ∷ [] else [])
unfolding append_fetched
entries-append_fetched name key x [] = entries-cons name key (x ∷ []) []
entries-append_fetched name key x ((k, xs) ∷ more) =
    if-cases
      (λ m.
        entries name m
        ≡ entries name ((k, xs) ∷ more) ++ (if same_text key name then x ∷ [] else []))
      (same_text k key)
      (λ e.
        entries-cons name k (xs ++ x ∷ []) more
        ∙ append_if (same_text k name) xs (entries name more) x
        ∙ ap (λ ys. ys ++ (if same_text k name then x ∷ [] else []))
            (sym (entries-cons name k xs more))
        ∙ ap (λ j. entries name ((k, xs) ∷ more) ++ (if same_text j name then x ∷ [] else []))
            (same_text-eq k key e))
      (λ n.
        entries-cons name k xs (append_fetched key x more)
        ∙ elsewhere n (entries-append_fetched name key x more) (same_text k name) refl
        ∙ ap (λ ys. ys ++ (if same_text key name then x ∷ [] else []))
            (sym (entries-cons name k xs more)))
  where
    elsewhere :
        same_text k key ≡ false
        → entries name (append_fetched key x more)
          ≡ entries name more ++ (if same_text key name then x ∷ [] else [])
        → (b : Bool) → same_text k name ≡ b
        → (if b then xs else entries name (append_fetched key x more))
          ≡ (if b then xs else entries name more) ++ (if same_text key name then x ∷ [] else [])
    elsewhere n ih true e =
        sym (append-nil xs)
        ∙ ap (λ b. xs ++ (if b then x ∷ [] else [])) (sym (other_name k key name n e))
    elsewhere n ih false e = ih
