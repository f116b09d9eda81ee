-- ===== src/DataTypes.antt =====
-- include/data_types and src/data_types: the types of columns and the bytes of their values.
-- An int or float is its 32-bit pattern, and its bytes are those of a little-endian machine. A string's
-- characters are on the heap, a map from addresses to allocations, and the row holds their address;
-- the address that `make_unique` gives is an argument.
pub mod Bytes
pub mod RoundTrip
mod Examples
use hivedb.Base.{
  ℕ, zero, suc, ◌+◌, ◌*◌, ◌/◌, ◌%◌, ◌^◌, Bool, true, false, not, same_text, ◌||◌, Option, none,
  some, List, [], ◌∷◌, ◌++◌, ltb, ◌==◌, if◌then◌else◌, length, take, drop, Outcome, ok, fails,
  ◌>>=◌, ◌>>◌, require, or_fail, lookup, insert, invalid_argument, assertion, out_of_bounds,
}
use Bytes.{bytes_of, value_of}

pub data DataTypes : Type 0 where
  varchar integer real : DataTypes

abbrev pub integer_name : List ℕ
integer_name = b'i' ∷ b'n' ∷ b't' ∷ b'e' ∷ b'g' ∷ b'e' ∷ b'r' ∷ []

abbrev pub varchar_name : List ℕ
varchar_name = b'v' ∷ b'a' ∷ b'r' ∷ b'c' ∷ b'h' ∷ b'a' ∷ b'r' ∷ []

abbrev pub real_name : List ℕ
real_name = b'r' ∷ b'e' ∷ b'a' ∷ b'l' ∷ []

unfoldable pub to_string : DataTypes → List ℕ
to_string DataTypes.integer = integer_name
to_string DataTypes.varchar = varchar_name
to_string DataTypes.real = real_name

unfoldable pub is_type_valid : List ℕ → Bool
is_type_valid dt = same_text dt integer_name || same_text dt varchar_name || same_text dt real_name

abbrev pub type_named : List ℕ → Outcome DataTypes
type_named dt =
    if same_text dt integer_name
    then ok DataTypes.integer
    else if same_text dt varchar_name
    then ok DataTypes.varchar
    else if same_text dt real_name
    then ok DataTypes.real
    else fails invalid_argument

unfoldable pub from_string : List ℕ → Outcome DataTypes
from_string dt = require (is_type_valid dt) assertion >> type_named dt

unfoldable pub find_offset : DataTypes → ℕ
find_offset DataTypes.integer = 4
find_offset DataTypes.varchar = 10
find_offset DataTypes.real = 4

-- `n` bytes from `buf` on, which `memcpy` reads; beyond the buffer that is undefined.
abbrev pub read_bytes : ℕ → List ℕ → Outcome (List ℕ)
read_bytes n buf = do require (not (ltb (length buf) n)) out_of_bounds; ok (take n buf)

-- The loops over the four bytes of an int and of a float.
unfoldable pub serialize_integer : ℕ → List ℕ → List ℕ
serialize_integer n buf = buf ++ bytes_of 4 n

unfoldable pub deserialize_integer : List ℕ → Outcome ℕ
deserialize_integer buf = do bytes ← read_bytes 4 buf; ok (value_of bytes)

unfoldable pub serialize_real : ℕ → List ℕ → List ℕ
serialize_real n buf = buf ++ bytes_of 4 n

unfoldable pub deserialize_real : List ℕ → Outcome ℕ
deserialize_real buf = do bytes ← read_bytes 4 buf; ok (value_of bytes)

-- The new row, and the heap with the allocation at `address`.
unfoldable pub serialize_varchar :
    List ℕ → List ℕ → ℕ → List (ℕ × List ℕ) → List ℕ × List (ℕ × List ℕ)
serialize_varchar str buf address varchars =
    let str_size = length str % 2 ^ 16 in
    (
      buf ++ (bytes_of 2 str_size ++ bytes_of 8 address),
      insert address (take str_size str) varchars,
    )

unfoldable pub deserialize_varchar : List ℕ → List (ℕ × List ℕ) → Outcome (List ℕ)
deserialize_varchar buf varchars = do
  size ← read_bytes 2 buf
  address ← read_bytes 8 (drop 2 buf)
  characters ← or_fail (lookup (value_of address) varchars) out_of_bounds
  read_bytes (value_of size) characters
