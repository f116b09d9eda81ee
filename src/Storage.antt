-- ===== src/Storage.antt =====
-- include/storage_engine and src/storage_engine/storage_engine.cpp: the tables and the three statements.
-- The heap of the tables' strings is one map from addresses; `allocate` is where `make_unique` puts a
-- string. `std::unordered_map` keeps its entries in an order that is not specified: `begin` is a parameter.
pub mod Growth
pub mod Fields
pub mod Rows
pub mod Entries
pub mod Fetch
pub mod Lookup
pub mod Columns
pub mod Query
pub mod Nonempty
pub mod Select
pub mod Statements
mod Examples
use hivedb.Base.{
  ℕ, zero, suc, ◌+◌, ◌-◌, ◌*◌, ◌^◌, ◌%◌, Bool, true, false, not, same_text, Option, none, some,
  List, [], ◌∷◌, ◌++◌, ltb, ◌==◌, if◌then◌else◌, ℤ, pos, negsuc, length, get_elem?, drop, Outcome,
  ok, fails, ◌>>=◌, ◌>>◌, require, or_fail, invalid_argument, out_of_bounds, out_of_fuel,
}
use hivedb.DataTypes.{
  DataTypes, is_type_valid, from_string, find_offset, serialize_integer, deserialize_integer,
  serialize_real, deserialize_real, serialize_varchar, deserialize_varchar,
}
use hivedb.Syntax.{Value, float, int, text, TableColumn, Exprs, select}
use hivedb.Expressions.{Result, Captured, Run, continue, execute, name_of_column, retrive_all}
use hivedb.Expressions.Arithmetic.{Floats}

abbrev pub Heap : Type 0
Heap = List (ℕ × List ℕ)

-- `bytes` is the source's `data`.
pub record Table : Type 0 where
  pub columns : List (List ℕ × DataTypes)
  pub bytes : List ℕ
  pub row_size : ℕ

-- `storage_engine`, and the heap. A map of tables in any order.
pub record StorageEngine : Type 0 where
  pub tables : List (List ℕ × Table)
  pub heap : Heap

-- `find` in a map with texts for keys, and a write through what it gives.
abbrev pub find : {A : Type 0} → List ℕ → List (List ℕ × A) → Option A
find name [] = none
find name ((key, a) ∷ more) = if same_text key name then some a else find name more

abbrev pub write : {A : Type 0} → List ℕ → A → List (List ℕ × A) → List (List ℕ × A)
write name a [] = []
write name a ((key, b) ∷ more) =
    if same_text key name then (key, a) ∷ more else (key, b) ∷ write name a more

-- An int and its 32-bit pattern.
unfoldable pub pattern_of : ℤ → ℕ
pattern_of (pos n) = n % 2 ^ 32
pattern_of (negsuc n) = 2 ^ 32 - suc (n % 2 ^ 32)

unfoldable pub int_of : ℕ → ℤ
int_of n = if ltb n (2 ^ 31) then pos n else negsuc (2 ^ 32 - suc n)

-- The loop of `createTable` over the columns.
unfoldable pub new_columns : List TableColumn → Outcome (List (List ℕ × DataTypes) × ℕ)
new_columns [] = ok ([], 0)
new_columns (column ∷ more) = do
  require (is_type_valid column.type) invalid_argument
  dt ← from_string column.type
  rest ← new_columns more
  ok ((column.name, dt) ∷ rest.0, find_offset dt + rest.1)

-- `std::map::insert` leaves a table of that name as it is.
abbrev pub add_table : List ℕ → Table → List (List ℕ × Table) → List (List ℕ × Table)
add_table name table tables = elim (find name tables) [
  | some old ↦ tables
  | none ↦ tables ++ (name, table) ∷ []
]

unfoldable pub create_table : List ℕ → List TableColumn → StorageEngine → Outcome StorageEngine
unfolding new_columns
create_table name columns engine = do
  (new, row_size) ← new_columns columns
  ok (record {
    tables =
        add_table name (record { columns = new; bytes = []; row_size = row_size }) engine.tables;
    heap = engine.heap;
  })

-- Where a name stands among the columns of the statement.
abbrev pub index_of : List ℕ → List (List ℕ) → Option ℕ
index_of name [] = none
index_of name (column ∷ more) =
    if same_text column name
    then some 0
    else elim (index_of name more) [ some i ↦ some (suc i) | none ↦ none ]

-- The value that goes into a column: 0 where the statement does not name it.
abbrev pub value_at : Option ℕ → List Value → Outcome Value
value_at none values = ok (int (pos 0))
value_at (some i) values = or_fail (get_elem? values i) out_of_bounds

abbrev pub value_for : List ℕ → List (List ℕ) → List Value → Outcome Value
value_for name names values = value_at (index_of name names) values

-- The first loop: each column of the statement is one of the table's.
unfoldable pub all_known : List (List ℕ) → List (List ℕ × DataTypes) → Outcome (Unit {0})
all_known [] columns = ok tt
all_known (name ∷ more) columns = do
  dt ← or_fail (find name columns) invalid_argument
  all_known more columns

module _ (allocate : Heap → ℕ) where
  -- The row, and the heap, with a value behind.
  unfoldable pub insert_data : Value → List ℕ → Heap → List ℕ × Heap
  unfolding pattern_of
  insert_data (float x) bytes heap = (serialize_real x bytes, heap)
  insert_data (int z) bytes heap = (serialize_integer (pattern_of z) bytes, heap)
  insert_data (text cs) bytes heap = serialize_varchar cs bytes (allocate heap) heap

  -- The second loop of `insertIntoTable`, over the table's columns.
  unfoldable pub insert_row :
      List (List ℕ × DataTypes)
      → List (List ℕ)
      → List Value
      → List ℕ × Heap
      → Outcome (List ℕ × Heap)
  unfolding insert_data
  insert_row [] names values row = ok row
  insert_row ((name, dt) ∷ more) names values row =
      value_for name names values >>= λ v. insert_row more names values (insert_data v row.0 row.1)

  unfoldable pub insert_into_table :
      List ℕ → List (List ℕ) → List Value → StorageEngine → Outcome StorageEngine
  unfolding insert_row all_known
  insert_into_table name names values engine = do
    table ← or_fail (find name engine.tables) invalid_argument
    all_known names table.columns
    row ← insert_row table.columns names values (table.bytes, engine.heap)
    ok (record {
      tables =
          write name (record { columns = table.columns; bytes = row.0; row_size = table.row_size })
            engine.tables;
      heap = row.1;
    })

-- `column_to_fetch`, and `fetched_columns`, whose pointer is the index of a byte of the table.
pub record ColumnToFetch : Type 0 where
  pub name : List ℕ
  pub offset : ℕ
  pub dt : DataTypes

pub record FetchedColumns : Type 0 where
  pub ptr : ℕ
  pub dt : DataTypes

abbrev pub FetchedDataMap : Type 0
FetchedDataMap = List (List ℕ × List FetchedColumns)

-- `emplace`, or `push_back` where the name is there.
unfoldable pub append_fetched : List ℕ → FetchedColumns → FetchedDataMap → FetchedDataMap
append_fetched name x [] = (name, x ∷ []) ∷ []
append_fetched name x ((key, xs) ∷ more) =
    if same_text key name
    then (key, xs ++ x ∷ []) ∷ more
    else (key, xs) ∷ append_fetched name x more

-- A round of `table::fetch`: `data[idx + clm.offset]` of each column.
unfoldable pub fetch_row : List ℕ → ℕ → List ColumnToFetch → FetchedDataMap → Outcome FetchedDataMap
unfolding append_fetched
fetch_row bytes idx [] fetched = ok fetched
fetch_row bytes idx (clm ∷ more) fetched = do
  require (ltb (idx + clm.offset) (length bytes)) out_of_bounds
  fetch_row bytes idx more
      (append_fetched clm.name (record { ptr = idx + clm.offset; dt = clm.dt }) fetched)

unfoldable pub fetch_loop :
    ℕ → Table → List ColumnToFetch → ℕ → FetchedDataMap → Outcome FetchedDataMap
unfolding fetch_row
fetch_loop zero table clms idx fetched = fails out_of_fuel
fetch_loop (suc f) table clms idx fetched =
    let round =
      fetch_row table.bytes idx clms fetched >>= fetch_loop f table clms (idx + table.row_size) in
    if ltb idx (length table.bytes) then round else ok fetched

-- Each round goes on by the size of a row.
unfoldable pub fetch : Table → List ColumnToFetch → Outcome FetchedDataMap
unfolding fetch_loop
fetch table clms = fetch_loop (suc (length table.bytes)) table clms 0 []

-- The inner loop of `queryDataFromTable` over the table's columns.
unfoldable pub column_to_fetch : List ℕ → List (List ℕ × DataTypes) → ℕ → Outcome ColumnToFetch
column_to_fetch column [] offset = fails invalid_argument
column_to_fetch column ((name, dt) ∷ more) offset =
    if same_text name column
    then ok (record { name = name; offset = offset; dt = dt })
    else column_to_fetch column more (offset + find_offset dt)

unfoldable pub data_to_fetch :
    List (List ℕ) → List (List ℕ × DataTypes) → Outcome (List ColumnToFetch)
unfolding column_to_fetch
data_to_fetch [] columns = ok []
data_to_fetch (column ∷ more) columns = do
  clm ← column_to_fetch column columns 0
  rest ← data_to_fetch more columns
  ok (clm ∷ rest)

-- What `literal_expr::execute(map, idx)` reads for a column. `deserialize` starts at the pointer.
unfoldable pub read_field : List ℕ → Heap → ℕ → DataTypes → Outcome Value
unfolding int_of
read_field bytes heap ptr DataTypes.integer =
    deserialize_integer (drop ptr bytes) >>= λ n. ok (int (int_of n))
read_field bytes heap ptr DataTypes.real = deserialize_real (drop ptr bytes) >>= λ x. ok (float x)
read_field bytes heap ptr DataTypes.varchar =
    deserialize_varchar (drop ptr bytes) heap >>= λ cs. ok (text cs)

unfoldable pub fetched_value : List ℕ → Heap → FetchedDataMap → ℕ → List ℕ → Outcome Value
unfolding read_field
fetched_value bytes heap fetched idx name = do
  xs ← or_fail (find name fetched) out_of_bounds
  x ← or_fail (get_elem? xs idx) out_of_bounds
  read_field bytes heap x.ptr x.dt

module _ (machine : Floats) (begin : FetchedDataMap → Option (List ℕ × List FetchedColumns)) where
  -- The loop that executes and prints, for the next `n` rows from `idx` on.
  unfoldable pub print_rows : ℕ → ℕ → Table → Heap → FetchedDataMap → Exprs → Run (List Result)
  unfolding fetched_value execute
  print_rows zero idx table heap fetched es s = (ok [], s)
  print_rows (suc n) idx table heap fetched es s =
      continue (execute machine (fetched_value table.bytes heap fetched idx) (select es []) s)
        λ x s'.
          continue (print_rows n (suc idx) table heap fetched es s') λ xs s''. (ok (x ∷ xs), s'')

  unfoldable pub print_fetched : Table → Heap → Exprs → List (List ℕ) → Run (List Result)
  unfolding print_rows fetch data_to_fetch
  print_fetched table heap es columns s =
      continue (data_to_fetch columns table.columns, s)
        λ clms s₁.
          continue (fetch table clms, s₁)
            λ fetched s₂.
              continue (or_fail (begin fetched) out_of_bounds, s₂)
                λ first s₃. print_rows (length first.1) 0 table heap fetched es s₃

  abbrev pub table_named : List ℕ → StorageEngine → Outcome Table
  table_named name engine = or_fail (find name engine.tables) invalid_argument

  -- What is printed, a result a line.
  unfoldable pub query_data_from_table : Exprs → List ℕ → StorageEngine → Run (List Result)
  unfolding print_fetched execute
  query_data_from_table es name engine s =
      continue (retrive_all es, s)
        λ columns s₁. elim columns [
          | [] ↦
              continue
                (if same_text name [] then ok tt else (table_named name engine >>= λ t. ok tt), s₁)
                λ u s₂.
                  continue (execute machine name_of_column (select es name) s₂)
                    λ x s₃. (ok (x ∷ []), s₃)
          | c ∷ cs ↦
              continue (table_named name engine, s₁)
                λ table s₂. print_fetched table engine.heap es (c ∷ cs) s₂
        ]
