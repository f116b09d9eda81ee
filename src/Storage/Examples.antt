-- ===== src/Storage/Examples.antt =====
-- The theorems on the storage engine at concrete tables.
use hivedb.Base.{
  ℕ, true, false, List, [], ◌∷◌, ◌++◌, ◌*◌, ◌+◌, ◌≡◌, refl, sym, ap, some_injective, arith, pos,
  Option, none, some, ok, fails, out_of_bounds, Ensures, length, lookup, same_text, if◌then◌else◌,
}
use hivedb.DataTypes.{
  DataTypes, is_type_valid, from_string, find_offset, integer_name, varchar_name,
  deserialize_integer,
}
use hivedb.Syntax.{Value, int, text, TableColumn, Exprs, literal, no_exprs, exprs}
use hivedb.Expressions.{unset, retrive_columns}
use hivedb.Expressions.Arithmetic.{Floats}
use hivedb.Storage.{
  Heap, Table, StorageEngine, ColumnToFetch, FetchedColumns, FetchedDataMap, find, all_known,
  new_columns, create_table, insert_data, insert_row, insert_into_table, int_of, read_field,
  column_to_fetch, data_to_fetch, fetch, query_data_from_table,
}
use hivedb.Storage.Growth.{width, size_of_row, varchars_left_out, insert_row-length}
use hivedb.Storage.Fetch.{fetch-entries}
use hivedb.Storage.Entries.{entries, fields_of_rows, same_text_refl}
use hivedb.Storage.Query.{each_row}
use hivedb.Storage.Select.{query-each_row, query-no_rows}
use hivedb.Storage.Nonempty.{Begins}
use hivedb.Storage.Statements.{Holds, Declares, insert_into_table-Holds, create_table-Holds}

-- Some operations on floats, an allocator, and the order of a map's entries in which they are kept.
abbrev machine : Floats
machine = record {
  add = λ a b. a;
  substract = λ a b. a;
  divide = λ a b. a;
  multiply = λ a b. a;
  negate = λ a. a;
  of_int = λ z. 0;
  to_int = λ a. ok (pos 0);
}

abbrev allocate : Heap → ℕ
allocate heap = length heap + 4096

abbrev begin : FetchedDataMap → Option (List ℕ × List FetchedColumns)
begin [] = none
begin (x ∷ more) = some x

begins : Begins begin
begins k xs more = ((k, xs), refl, ap (λ b. if b then some xs else find k more) (same_text_refl k))

abbrev name_a : List ℕ
name_a = b'a' ∷ []

abbrev name_b : List ℕ
name_b = b'b' ∷ []

abbrev name_t : List ℕ
name_t = b't' ∷ []

-- `a integer, b varchar`, as declared and as the table has it.
abbrev declared : List TableColumn
declared =
    (record { name = name_a; type = integer_name; can_be_null = false })
    ∷ (record { name = name_b; type = varchar_name; can_be_null = false })
    ∷ []

abbrev both : List (List ℕ × DataTypes)
both = (name_a, DataTypes.integer) ∷ (name_b, DataTypes.varchar) ∷ []

abbrev new_table : Table
new_table = record { columns = both; bytes = []; row_size = 14 }

abbrev nothing : StorageEngine
nothing = record { tables = []; heap = [] }

abbrev empty_engine : StorageEngine
empty_engine = record { tables = (name_t, new_table) ∷ []; heap = [] }

-- A table with the rows 7 and 8 of one int column.
abbrev only_a : List (List ℕ × DataTypes)
only_a = (name_a, DataTypes.integer) ∷ []

abbrev numbers : Table
numbers = record { columns = only_a; bytes = 7 ∷ 0 ∷ 0 ∷ 0 ∷ 8 ∷ 0 ∷ 0 ∷ 0 ∷ []; row_size = 4 }

abbrev full_engine : StorageEngine
full_engine = record { tables = (name_t, numbers) ∷ []; heap = [] }

-- `a`.
abbrev column_a : Exprs
column_a = exprs (literal (text name_a) true) no_exprs

abbrev fetch_a : ColumnToFetch
fetch_a = record { name = name_a; offset = 0; dt = DataTypes.integer }

abbrev rows : List (List Value)
rows = (int (pos 7) ∷ []) ∷ (int (pos 8) ∷ []) ∷ []

abbrev values : List Value
values = int (pos 7) ∷ text name_b ∷ []

empty_engine-Holds : Holds empty_engine name_t both []
unfolding find_offset
empty_engine-Holds = record {
  table = new_table;
  there = refl;
  same_columns = refl;
  same_size = refl;
  represents = (tt, refl);
}

insert_row-length_example :
    Ensures
      (insert_row allocate both (name_a ∷ []) values ([], []))
      λ after. length after.0 + 6 * varchars_left_out both (name_a ∷ []) ≡ 0 + size_of_row both
unfolding find_offset
insert_row-length_example =
    insert_row-length allocate both (name_a ∷ []) values ([], [])
      ((λ v e. ap width (sym (some_injective (int (pos 7)) v e))), (tt, tt))

create_table-Holds_example :
    (cols : List (List ℕ × DataTypes)) × Declares declared cols × Holds empty_engine name_t cols []
unfolding create_table new_columns is_type_valid from_string find_offset
create_table-Holds_example = create_table-Holds name_t declared nothing empty_engine refl refl

insert_into_table-Holds_example :
    (after : StorageEngine) × (insert_into_table allocate name_t
        (name_a ∷ name_b ∷ [])
        values
        empty_engine
      ≡ ok after)
    × Holds after name_t both ([] ++ values ∷ [])
    × ((other : List ℕ) (columns' : List (List ℕ × DataTypes)) (rows' : List (List Value))
        → same_text name_t other ≡ false
        → Holds empty_engine other columns' rows'
        → Holds after other columns' rows')
unfolding all_known lookup insert_data
insert_into_table-Holds_example =
    insert_into_table-Holds allocate name_t (name_a ∷ name_b ∷ []) values values empty_engine both
      [] empty_engine-Holds refl
      (refl, refl, (refl, omega arith), (refl, omega arith, (refl, omega arith), tt))

fetch-entries_example :
    (fetched : FetchedDataMap) × (fetch numbers (fetch_a ∷ []) ≡ ok fetched)
    × ((name : List ℕ) → entries name fetched ≡ fields_of_rows name (fetch_a ∷ []) 4 2 0)
fetch-entries_example = fetch-entries numbers (fetch_a ∷ []) 2 refl (omega arith) (omega arith, tt)

query-each_row_example :
    query_data_from_table machine begin column_a name_t full_engine unset
    ≡ each_row machine column_a only_a rows unset
unfolding retrive_columns data_to_fetch column_to_fetch find_offset read_field deserialize_integer
    int_of
query-each_row_example =
    query-each_row machine begin column_a name_t name_a [] full_engine numbers (fetch_a ∷ []) rows
      unset begins refl (refl, tt) refl refl refl (((refl, tt), ((refl, tt), tt)), refl)
      (omega arith)

query-no_rows_example :
    query_data_from_table machine begin column_a name_t empty_engine unset
    ≡ (fails out_of_bounds, unset)
unfolding retrive_columns data_to_fetch column_to_fetch
query-no_rows_example =
    query-no_rows machine begin column_a name_t name_a [] empty_engine new_table (fetch_a ∷ [])
      unset refl refl refl refl refl
