-- ===== src/DataTypes/Examples.antt =====
-- The theorems on the data types at concrete values.
use hivedb.Base.{ℕ, ◌≡◌, arith, refl, none, List, [], ◌∷◌, length, drop, lookup, ok}
use hivedb.DataTypes.{
  serialize_integer, deserialize_integer, serialize_real, deserialize_real, serialize_varchar,
  deserialize_varchar,
}
use hivedb.DataTypes.RoundTrip.{deserialize-serialize, deserialize_varchar-serialize_varchar}

abbrev old_row : List ℕ
old_row = 1 ∷ 2 ∷ 3 ∷ 4 ∷ []

abbrev name : List ℕ
name = b'h' ∷ b'i' ∷ b'v' ∷ b'e' ∷ []

abbrev heap : List (ℕ × List ℕ)
heap = (4096, b'x' ∷ []) ∷ []

heap_new : lookup 8192 heap ≡ none
unfolding lookup
heap_new = refl

deserialize-serialize_example :
    (deserialize_integer (drop (length old_row) (serialize_integer 70000 old_row)) ≡ ok 70000)
    × (deserialize_real (drop (length old_row) (serialize_real 70000 old_row)) ≡ ok 70000)
deserialize-serialize_example = deserialize-serialize 70000 old_row (omega arith)

deserialize_varchar-serialize_varchar_example :
    deserialize_varchar
      (drop (length old_row) (serialize_varchar name old_row 8192 heap).0)
      (serialize_varchar name old_row 8192 heap).1
    ≡ ok name
deserialize_varchar-serialize_varchar_example =
    deserialize_varchar-serialize_varchar name old_row 8192 heap (omega arith) (omega arith)
      heap_new
