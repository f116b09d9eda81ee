-- ===== src/Storage/Growth.antt =====
-- How many bytes `insertIntoTable` adds to a table.
use hivedb.Base.{
  ℕ, ◌+◌, ◌*◌, ◌%◌, ◌^◌, ◌≡◌, refl, Option, none, some, List, [], ◌∷◌, ◌++◌, length, length-append,
  get_elem?, arith, Ensures, Ensures-bind, Ensures-mono, or_fail, out_of_bounds,
}
use hivedb.DataTypes.{DataTypes, find_offset, serialize_integer, serialize_real, serialize_varchar}
use hivedb.DataTypes.Bytes.{bytes_of}
use hivedb.Syntax.{Value, float, int, text}
use hivedb.Storage.{Heap, pattern_of, index_of, value_at, value_for, insert_data, insert_row}

-- The bytes that are written for a value.
abbrev pub width : Value → ℕ
width (float x) = 4
width (int z) = 4
width (text cs) = 10

-- `rowSize`.
abbrev pub size_of_row : List (List ℕ × DataTypes) → ℕ
size_of_row [] = 0
size_of_row ((name, dt) ∷ more) = find_offset dt + size_of_row more

-- A value that a statement gives for a column is as wide as the column.
abbrev pub AsWide : DataTypes → List Value → Option ℕ → Type 0
AsWide dt values none = Unit {0}
AsWide dt values (some i) = (v : Value) → get_elem? values i ≡ some v → width v ≡ find_offset dt

abbrev pub AllAsWide : List (List ℕ × DataTypes) → List (List ℕ) → List Value → Type 0
AllAsWide [] names values = Unit {0}
AllAsWide ((name, dt) ∷ more) names values =
    AsWide dt values (index_of name names) × AllAsWide more names values

-- The varchar columns that a statement leaves out.
abbrev pub left_out : DataTypes → Option ℕ → ℕ
left_out DataTypes.varchar none = 1
left_out _ _ = 0

abbrev pub varchars_left_out : List (List ℕ × DataTypes) → List (List ℕ) → ℕ
varchars_left_out [] names = 0
varchars_left_out ((name, dt) ∷ more) names =
    left_out dt (index_of name names) + varchars_left_out more names

module _ (allocate : Heap → ℕ) where
  pub insert_data-length :
      (v : Value) (bytes : List ℕ) (heap : Heap)
      → length (insert_data allocate v bytes heap).0 ≡ length bytes + width v
  unfolding insert_data serialize_integer serialize_real serialize_varchar
  insert_data-length (float x) bytes heap = length-append bytes (bytes_of 4 x)
  insert_data-length (int z) bytes heap = length-append bytes (bytes_of 4 (pattern_of z))
  insert_data-length (text cs) bytes heap =
      length-append bytes (bytes_of 2 (length cs % 2 ^ 16) ++ bytes_of 8 (allocate heap))

  -- A column's bytes are its width's, but for a varchar that is left out, where 4 of 10 are written.
  unnamed-width : (dt : DataTypes) → 4 + 6 * left_out dt none ≡ find_offset dt
  unfolding find_offset
  unnamed-width DataTypes.varchar = refl
  unnamed-width DataTypes.integer = refl
  unnamed-width DataTypes.real = refl

  named-width :
      (dt : DataTypes) (i : ℕ) (o : Option Value)
      → ((v : Value) → o ≡ some v → width v ≡ find_offset dt)
      → Ensures (or_fail o out_of_bounds) (λ v. width v + 6 * left_out dt (some i) ≡ find_offset dt)
  named-width dt i none k = tt
  named-width DataTypes.varchar i (some v) k = omega (arith, k v refl)
  named-width DataTypes.integer i (some v) k = omega (arith, k v refl)
  named-width DataTypes.real i (some v) k = omega (arith, k v refl)

  value_at-width :
      (dt : DataTypes) (i : Option ℕ) (values : List Value)
      → AsWide dt values i
      → Ensures (value_at i values) (λ v. width v + 6 * left_out dt i ≡ find_offset dt)
  value_at-width dt none values h = unnamed-width dt
  value_at-width dt (some i) values h = named-width dt i (get_elem? values i) h

  -- The bytes that an insertion adds, where what the statement names has values of its columns' types:
  -- those of a row, less 6 for each varchar column that the statement leaves out.
  pub insert_row-length :
      (columns : List (List ℕ × DataTypes)) (names : List (List ℕ)) (values : List Value)
      (row : List ℕ × Heap)
      → AllAsWide columns names values
      → Ensures (insert_row allocate columns names values row) λ after.
        length after.0 + 6 * varchars_left_out columns names ≡ length row.0 + size_of_row columns
  unfolding insert_row
  insert_row-length [] names values row h = refl
  insert_row-length ((name, dt) ∷ more) names values row (h, hs) =
      Ensures-bind _ _ (value_for name names values) _
        (value_at-width dt (index_of name names) values h)
        λ v w.
          Ensures-mono _ _
            (insert_row allocate more names values (insert_data allocate v row.0 row.1))
            (λ after e. omega (arith, insert_data-length v row.0 row.1))
            (insert_row-length more names values (insert_data allocate v row.0 row.1) hs)
