-- ===== src/Storage/Query.antt =====
-- `queryDataFromTable` against the rows that a table holds.
use hivedb.Base.{
  ℕ, zero, suc, ◌+◌, ◌*◌, ◌<◌, ◌≡◌, refl, ap, ◌∙◌, sym, subst, Option, none, some, some_injective,
  List, [], ◌∷◌, length, get_elem?, arith, ok, ◌>>=◌, or_fail, out_of_bounds,
}
use hivedb.DataTypes.{DataTypes}
use hivedb.Syntax.{Value, Exprs, select}
use hivedb.Expressions.{Result, Captured, Run, continue, execute, retrive_columns, retrive_all}
use hivedb.Expressions.Arithmetic.{Floats}
use hivedb.Expressions.Reads.{Agree, AgreeOn, execute-columns, continue_same}
use hivedb.Storage.{
  Heap, Table, ColumnToFetch, FetchedColumns, FetchedDataMap, find, read_field, fetched_value,
  print_rows,
}
use hivedb.Storage.Growth.{size_of_row}
use hivedb.Storage.Rows.{RowAt, RowsAt}
use hivedb.Storage.Entries.{entries, fields_of_rows}
use hivedb.Storage.Columns.{fields_of-once, fields_of_rows-once}
use hivedb.Storage.Lookup.{row_value, occurrences, EachOnceIn, LooksUp}

-- What a query of a table with these rows prints: the results of the expressions, row by row.
unfoldable pub each_row :
    Floats → Exprs → List (List ℕ × DataTypes) → List (List Value) → Run (List Result)
unfolding execute
each_row machine es columns [] s = (ok [], s)
each_row machine es columns (vs ∷ more) s =
    continue (execute machine (row_value columns vs) (select es []) s)
      λ x s'. continue (each_row machine es columns more s') λ xs s''. (ok (x ∷ xs), s'')

row_at :
    (bytes : List ℕ) (heap : Heap) (ptr : ℕ) (columns : List (List ℕ × DataTypes))
    (rows : List (List Value)) (i : ℕ) (vs : List Value)
    → RowsAt bytes heap ptr columns rows
    → get_elem? rows i ≡ some vs
    → (RowAt bytes heap (ptr + i * size_of_row columns) columns vs) × (i < length rows)
row_at bytes heap ptr columns [] i vs h e = cc
row_at bytes heap ptr columns (row ∷ rows) zero vs (h, hs) e = (
  subst (λ p. RowAt bytes heap p columns vs) (omega arith)
      (subst (λ r. RowAt bytes heap ptr columns r) (some_injective row vs e) h),
  omega arith,
)
row_at bytes heap ptr columns (row ∷ rows) (suc i) vs (h, hs) e =
    let later = row_at bytes heap (ptr + size_of_row columns) columns rows i vs hs e in
    (subst (λ p. RowAt bytes heap p columns vs) (omega arith) later.0, omega (arith, later.1))

-- A fetched field, by what is found under its name.
fetched_value-entries :
    (bytes : List ℕ) (heap : Heap) (fetched : FetchedDataMap) (i : ℕ) (name : List ℕ)
    (x : FetchedColumns)
    → get_elem? (entries name fetched) i ≡ some x
    → fetched_value bytes heap fetched i name ≡ read_field bytes heap x.ptr x.dt
unfolding fetched_value
fetched_value-entries bytes heap fetched i name x e = on (find name fetched) e
  where
    on :
        (o : Option (List FetchedColumns))
        → get_elem? (elim o as (λ m. List FetchedColumns) [ none ↦ [] | some xs ↦ xs ]) i ≡ some x
        → (or_fail o out_of_bounds >>= λ xs.
            or_fail (get_elem? xs i) out_of_bounds >>= λ y. read_field bytes heap y.ptr y.dt)
          ≡ read_field bytes heap x.ptr x.dt
    on none e = cc
    on (some xs) e = ap (λ o. or_fail o out_of_bounds >>= λ y. read_field bytes heap y.ptr y.dt) e

module _ (columns : List (List ℕ × DataTypes)) (rows : List (List Value)) (bytes : List ℕ)
    (heap : Heap) (fetched : FetchedDataMap) (clms : List ColumnToFetch) (all : List (List ℕ))
    (looks_up : LooksUp all columns clms) (stored : RowsAt bytes heap 0 columns rows)
    (found : (name : List ℕ)
      → entries name fetched ≡ fields_of_rows name clms (size_of_row columns) (length rows) 0) where
  fetched_value-row :
      (name : List ℕ) (i : ℕ) (vs : List Value)
      → occurrences name all ≡ 1
      → get_elem? rows i ≡ some vs
      → fetched_value bytes heap fetched i name ≡ row_value columns vs name
  fetched_value-row name i vs once e =
      let (points, same, inside) = looks_up in
      let (clm, named, at, fields) = fields_of-once columns name clms points (same name ∙ once) in
      let (row, l) = row_at bytes heap 0 columns rows i vs stored e in
      fetched_value-entries bytes heap fetched i name _ (
        ap (λ ys. get_elem? ys i) (found name)
        ∙ fields_of_rows-once name clms clm fields (size_of_row columns) (length rows) i 0 l)
      ∙ at.value bytes heap (0 + i * size_of_row columns) vs row
      ∙ ap (row_value columns vs) named

  pub rows_agree :
      (cs : List (List ℕ)) (i : ℕ) (vs : List Value)
      → EachOnceIn all cs
      → get_elem? rows i ≡ some vs
      → AgreeOn cs (fetched_value bytes heap fetched i) (row_value columns vs)
  rows_agree [] i vs once e = tt
  rows_agree (c ∷ cs) i vs (once, more) e =
      (fetched_value-row c i vs once e, rows_agree cs i vs more e)

pub print_rows-each_row :
    (machine : Floats) (begin : FetchedDataMap → Option (List ℕ × List FetchedColumns))
    (table : Table) (heap : Heap) (fetched : FetchedDataMap) (es : Exprs) (cs : List (List ℕ))
    (rows : List (List Value)) (i : ℕ) (s : Captured)
    → retrive_all es ≡ ok cs
    → ((j : ℕ) (vs : List Value)
        → get_elem? rows j ≡ some vs
        → AgreeOn cs (fetched_value table.bytes heap fetched (i + j)) (row_value table.columns vs))
    → print_rows machine begin (length rows) i table heap fetched es s
      ≡ each_row machine es table.columns rows s
unfolding print_rows each_row retrive_columns
print_rows-each_row machine begin table heap fetched es cs [] i s e h = refl
print_rows-each_row machine begin table heap fetched es cs (vs ∷ rows) i s e h =
    continue_same _ _ _ _
      (execute-columns machine (fetched_value table.bytes heap fetched i)
        (row_value table.columns vs) (select es []) s
        (subst
          (λ o. Agree o (fetched_value table.bytes heap fetched i) (row_value table.columns vs))
          (sym e)
          (subst
            (λ k.
              AgreeOn cs (fetched_value table.bytes heap fetched k) (row_value table.columns vs))
            (omega arith) (h 0 vs refl))))
      λ x s'.
        continue_same _ _ _ _
          (print_rows-each_row machine begin table heap fetched es cs rows (suc i) s' e λ j ws g.
            subst
              (λ k.
                AgreeOn cs (fetched_value table.bytes heap fetched k) (row_value table.columns ws))
              (omega arith) (h (suc j) ws g))
          (λ xs s''. refl)
