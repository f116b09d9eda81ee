-- ===== src/Storage/Select.antt =====
-- `queryDataFromTable` as a whole.
use hivedb.Base.{
  ℕ, zero, suc, ◌+◌, ◌*◌, ◌<◌, ◌≡◌, refl, ap, ◌∙◌, sym, subst, if◌then◌else◌, Option, none, some,
  List, [], ◌∷◌, length, arith, Outcome, ok, fails, ◌>>=◌, or_fail, Failure, out_of_bounds,
  invalid_argument, Ensures,
}
use hivedb.DataTypes.{DataTypes}
use hivedb.Syntax.{Value, Exprs}
use hivedb.Expressions.{Captured, Run, continue, retrive_all}
use hivedb.Expressions.Arithmetic.{Floats}
use hivedb.Expressions.Reads.{AgreeOn}
use hivedb.Storage.{
  Table, StorageEngine, ColumnToFetch, FetchedColumns, FetchedDataMap, find, fetch_row, fetch_loop,
  fetch, data_to_fetch, fetched_value, print_rows, print_fetched, query_data_from_table,
}
use hivedb.Storage.Growth.{size_of_row}
use hivedb.Storage.Rows.{Represents}
use hivedb.Storage.Fetch.{not_below, fetch-entries}
use hivedb.Storage.Entries.{entries, fields_of_rows, Columns}
use hivedb.Storage.Columns.{fields_of-none, fields_of-once, length-fields_of_rows}
use hivedb.Storage.Lookup.{
  row_value, occurrences, EachOnce, LooksUp, data_to_fetch-LooksUp, occurs_once,
}
use hivedb.Storage.Query.{each_row, rows_agree, print_rows-each_row}
use hivedb.Storage.Nonempty.{AllNonempty, fetch_loop-AllNonempty, found_nonempty, Begins}

continue_ok :
    {A B : Type 0} (o : Outcome A) (a : A) (s : Captured) (f : A → Run B)
    → o ≡ ok a
    → continue (o, s) f ≡ f a s
continue_ok o a s f e = ap (λ p. continue (p, s) f) e

continue_fails :
    {A B : Type 0} (o : Outcome A) (x : Failure) (s : Captured) (f : A → Run B)
    → o ≡ fails x
    → continue (o, s) f ≡ (fails x, s)
continue_fails o x s f e = ap (λ p. continue (p, s) f) e

module _ (all : List (List ℕ)) (columns : List (List ℕ × DataTypes)) (clms : List ColumnToFetch)
    (rows : List (List Value)) (once : EachOnce all) (looks_up : LooksUp all columns clms) where
  abbrev fields : List ℕ → List FetchedColumns
  fields name = fields_of_rows name clms (size_of_row columns) (length rows) 0

  once-length : (name : List ℕ) → occurrences name all ≡ 1 → length (fields name) ≡ length rows
  once-length name e =
      let (points, same, inside) = looks_up in
      let (clm, named, at, one) = fields_of-once columns name clms points (same name ∙ e) in
      length-fields_of_rows name clms 1 (λ idx. ap length (one idx)) (size_of_row columns)
        (length rows) 0
      ∙ omega arith

  never-length : (name : List ℕ) → occurrences name all ≡ 0 → length (fields name) ≡ 0
  never-length name e =
      length-fields_of_rows name clms 0
        (λ idx. ap length (fields_of-none name clms idx (looks_up.1 name ∙ e)))
        (size_of_row columns) (length rows) 0
      ∙ omega arith

  -- What is found is as long as the table has rows.
  some-length : (name : List ℕ) → 0 < length (fields name) → length (fields name) ≡ length rows
  some-length name l = on (occurrences name all) refl
    where
      on : (n : ℕ) → occurrences name all ≡ n → length (fields name) ≡ length rows
      on zero e = absurd (omega (arith, never-length name e))
      on (suc n) e = once-length name (occurs_once all all name once (omega arith))

  first-length :
      (begin : FetchedDataMap → Option (List ℕ × List FetchedColumns)) (fetched : FetchedDataMap)
      (c : List ℕ)
      → Begins begin
      → AllNonempty fetched
      → 0 < length rows
      → occurrences c all ≡ 1
      → ((name : List ℕ) → entries name fetched ≡ fields name)
      → (first : List ℕ × List FetchedColumns) × (begin fetched ≡ some first)
        × (length first.1 ≡ length rows)
  first-length begin [] c begins h l o found =
      absurd (omega (arith, ap length (found c), once-length c o))
  first-length begin ((k, xs) ∷ more) c begins h l o found =
      let (first, b, f) = begins k xs more in
      let under : first.1 ≡ fields first.0 =
        ap (λ m. elim m [ none ↦ [] | some ys ↦ ys ]) (sym f) ∙ found first.0 in
      let positive = found_nonempty first.0 first.1 ((k, xs) ∷ more) h f in
      (first, b, ap length under ∙ some-length first.0 (subst (λ ys. 0 < length ys) under positive))

row_size_positive :
    (all : List (List ℕ)) (c : List ℕ) (columns : List (List ℕ × DataTypes))
    (clms : List ColumnToFetch) (n : ℕ)
    → occurrences c all ≡ 1
    → n ≡ size_of_row columns
    → LooksUp all columns clms
    → 0 < n
row_size_positive all c columns clms n o wide (points, same, inside) =
    let (clm, named, at, one) = fields_of-once columns c clms points (same c ∙ o) in
    omega (arith, at.offset_in_row)

fetched_full :
    (table : Table) (clms : List ColumnToFetch) (fetched : FetchedDataMap)
    → fetch table clms ≡ ok fetched
    → AllNonempty fetched
unfolding fetch
fetched_full table clms fetched run =
    subst (λ o. Ensures o AllNonempty) run
      (fetch_loop-AllNonempty (suc (length table.bytes)) table clms 0 [] tt)

fetch-no_rows :
    (table : Table) (clms : List ColumnToFetch) → table.bytes ≡ [] → fetch table clms ≡ ok []
unfolding fetch fetch_loop
fetch-no_rows table clms e =
    ap
      (λ b.
        if b
        then (fetch_row table.bytes 0 clms []
            >>= fetch_loop (length table.bytes) table clms (0 + table.row_size))
        else ok [])
      (not_below 0 (length table.bytes) (sym (ap length e)))

-- `select` of at least one column of a table, each one of the table and asked for once, prints for each
-- row in turn the result of the expressions on the row's values. The table has at least one row, its
-- bytes and the heap represent the rows, its row size is that of its columns, and `begin` gives an
-- entry of a map that has one.
pub query-each_row :
    (machine : Floats) (begin : FetchedDataMap → Option (List ℕ × List FetchedColumns)) (es : Exprs)
    (name c : List ℕ) (cs : List (List ℕ)) (engine : StorageEngine) (table : Table)
    (clms : List ColumnToFetch) (rows : List (List Value)) (s : Captured)
    → Begins begin
    → retrive_all es ≡ ok (c ∷ cs)
    → EachOnce (c ∷ cs)
    → find name engine.tables ≡ some table
    → data_to_fetch (c ∷ cs) table.columns ≡ ok clms
    → table.row_size ≡ size_of_row table.columns
    → Represents table.columns (table.bytes, engine.heap) rows
    → 0 < length rows
    → query_data_from_table machine begin es name engine s
      ≡ each_row machine es table.columns rows s
unfolding query_data_from_table print_fetched
query-each_row machine begin es name c cs engine table clms rows s begins listed once there looked
      wide (stored, size) l =
    let looks_up = data_to_fetch-LooksUp (c ∷ cs) table.columns clms looked in
    let positive : 0 < table.row_size =
      row_size_positive (c ∷ cs) c table.columns clms table.row_size once.0 wide looks_up in
    let bytes_of_rows : length rows * table.row_size ≡ length table.bytes =
      ap (λ n. length rows * n) wide ∙ sym size in
    let (fetched, run, found) =
      fetch-entries table clms (length rows) bytes_of_rows positive
        (subst (λ n. Columns n clms) (sym wide) looks_up.2) in
    let found_row : (k : List ℕ)
        → entries k fetched ≡ fields_of_rows k clms (size_of_row table.columns) (length rows) 0 =
      λ k. found k ∙ ap (λ n. fields_of_rows k clms n (length rows) 0) wide in
    let full : AllNonempty fetched = fetched_full table clms fetched run in
    let (first, b, as_long) =
      first-length (c ∷ cs) table.columns clms rows once looks_up begin fetched c begins full l
        once.0 found_row in
    continue_ok (retrive_all es) (c ∷ cs) s _ listed
    ∙ continue_ok (or_fail (find name engine.tables) invalid_argument) table s _
        (ap (λ o. or_fail o invalid_argument) there)
    ∙ continue_ok (data_to_fetch (c ∷ cs) table.columns) clms s _ looked
    ∙ continue_ok (fetch table clms) fetched s _ run
    ∙ continue_ok (or_fail (begin fetched) out_of_bounds) first s _
        (ap (λ o. or_fail o out_of_bounds) b)
    ∙ ap (λ n. print_rows machine begin n 0 table engine.heap fetched es s) as_long
    ∙ print_rows-each_row machine begin table engine.heap fetched es (c ∷ cs) rows 0 s listed
        λ j vs e.
          subst
            (λ k.
              AgreeOn (c ∷ cs) (fetched_value table.bytes engine.heap fetched k)
                (row_value table.columns vs))
            (omega arith)
            (rows_agree table.columns rows table.bytes engine.heap fetched clms (c ∷ cs) looks_up
              stored found_row (c ∷ cs) j vs once e)

-- A query that names a column of a table without rows looks at the first of no entries.
pub query-no_rows :
    (machine : Floats) (begin : FetchedDataMap → Option (List ℕ × List FetchedColumns)) (es : Exprs)
    (name c : List ℕ) (cs : List (List ℕ)) (engine : StorageEngine) (table : Table)
    (clms : List ColumnToFetch) (s : Captured)
    → begin [] ≡ none
    → retrive_all es ≡ ok (c ∷ cs)
    → find name engine.tables ≡ some table
    → data_to_fetch (c ∷ cs) table.columns ≡ ok clms
    → table.bytes ≡ []
    → query_data_from_table machine begin es name engine s ≡ (fails out_of_bounds, s)
unfolding query_data_from_table print_fetched
query-no_rows machine begin es name c cs engine table clms s empty listed there looked no_rows =
    continue_ok (retrive_all es) (c ∷ cs) s _ listed
    ∙ continue_ok (or_fail (find name engine.tables) invalid_argument) table s _
        (ap (λ o. or_fail o invalid_argument) there)
    ∙ continue_ok (data_to_fetch (c ∷ cs) table.columns) clms s _ looked
    ∙ continue_ok (fetch table clms) [] s _ (fetch-no_rows table clms no_rows)
    ∙ continue_fails (or_fail (begin []) out_of_bounds) out_of_bounds s _
        (ap (λ o. or_fail o out_of_bounds) empty)
