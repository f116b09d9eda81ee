-- ===== src/DataTypes/RoundTrip.antt =====
-- What is written for a value is read back, and it takes the place that `findOffset` says.
use hivedb.Base.{
  ℕ, ◌+◌, ◌%◌, ◌^◌, ◌<◌, ◌≡◌, refl, ap, sym, ◌∙◌, false, none, some, List, [], ◌++◌, ltb, arith,
  length, length-append, take, drop, ok, lookup, insert, lookup-insert,
}
use hivedb.DataTypes.{
  DataTypes, to_string, is_type_valid, from_string, find_offset, read_bytes, serialize_integer,
  deserialize_integer, serialize_real, deserialize_real, serialize_varchar, deserialize_varchar,
}
use hivedb.DataTypes.Bytes.{
  bytes_of, value_of, value_of-bytes_of, length-bytes_of, take-append, drop-append, take-length,
}
use mathlib.Core.List.{append-nil}

-- The name of each type is read back as that type.
pub from_string-to_string : (t : DataTypes) → from_string (to_string t) ≡ ok t
unfolding from_string to_string is_type_valid
from_string-to_string DataTypes.integer = refl
from_string-to_string DataTypes.varchar = refl
from_string-to_string DataTypes.real = refl

read_bytes-append : (xs ys : List ℕ) → read_bytes (length xs) (xs ++ ys) ≡ ok xs
read_bytes-append xs ys =
    let enough : ltb (length (xs ++ ys)) (length xs) ≡ false =
      ground (arith, length-append xs ys) in
    simp (enough, take-append xs ys) refl

read_value : (n v : ℕ) (ys : List ℕ) → read_bytes n (bytes_of n v ++ ys) ≡ ok (bytes_of n v)
read_value n v ys =
    ap (λ i. read_bytes i (bytes_of n v ++ ys)) (sym (length-bytes_of n v))
    ∙ read_bytes-append (bytes_of n v) ys

value_back :
    (v : ℕ) (n : ℕ) (buf : List ℕ)
    → read_bytes n (drop (length buf) (buf ++ bytes_of n v)) ≡ ok (bytes_of n v)
value_back v n buf =
    ap (read_bytes n) (drop-append buf (bytes_of n v) ∙ sym (append-nil (bytes_of n v)))
    ∙ read_value n v []

-- A 32-bit pattern that was written behind a row is read back there, as an integer and as a real.
pub deserialize-serialize :
    (n : ℕ) (buf : List ℕ)
    → n < 2 ^ 32
    → (deserialize_integer (drop (length buf) (serialize_integer n buf)) ≡ ok n)
      × (deserialize_real (drop (length buf) (serialize_real n buf)) ≡ ok n)
unfolding serialize_integer deserialize_integer serialize_real deserialize_real
deserialize-serialize n buf h =
    let back : value_of (bytes_of 4 n) ≡ n = value_of-bytes_of 4 n (omega arith) in
    (simp (value_back n 4 buf) (ap ok back), simp (value_back n 4 buf) (ap ok back))

deserialize_varchar_run :
    (buf : List ℕ) (varchars : List (ℕ × List ℕ)) (size address characters str : List ℕ)
    → read_bytes 2 buf ≡ ok size
    → read_bytes 8 (drop 2 buf) ≡ ok address
    → lookup (value_of address) varchars ≡ some characters
    → read_bytes (value_of size) characters ≡ ok str
    → deserialize_varchar buf varchars ≡ ok str
unfolding deserialize_varchar
deserialize_varchar_run buf varchars size address characters str a b c d = ground arith

read_all : (n : ℕ) (str : List ℕ) → n ≡ length str → read_bytes n str ≡ ok str
read_all n str e =
    ap (λ i. read_bytes i str) e
    ∙ ap (read_bytes (length str)) (sym (append-nil str))
    ∙ read_bytes-append str []

found :
    (address a : ℕ) (str : List ℕ) (varchars : List (ℕ × List ℕ))
    → lookup address varchars ≡ none
    → a ≡ address
    → lookup a (insert address str varchars) ≡ some str
found address a str varchars new e = lookup-insert address a str varchars new ∙ ground arith

-- A string shorter than 2 ^ 16 that was written behind a row, at a new 64-bit address, is read back
-- there from the row and the heap.
pub deserialize_varchar-serialize_varchar :
    (str buf : List ℕ) (address : ℕ) (varchars : List (ℕ × List ℕ))
    → length str < 2 ^ 16
    → address < 2 ^ 64
    → lookup address varchars ≡ none
    → deserialize_varchar
        (drop (length buf) (serialize_varchar str buf address varchars).0)
        (serialize_varchar str buf address varchars).1
      ≡ ok str
unfolding serialize_varchar deserialize_varchar
deserialize_varchar-serialize_varchar str buf address varchars short in_range new =
    let size : length str % 2 ^ 16 ≡ length str = omega arith in
    let low = length str % 2 ^ 16 in
    let row : List ℕ = bytes_of 2 low ++ bytes_of 8 address in
    let heap : List (ℕ × List ℕ) = insert address (take low str) varchars in
    let whole : take low str ≡ str = ap (λ n. take n str) size ∙ take-length str in
    let size_back : value_of (bytes_of 2 low) ≡ low = value_of-bytes_of 2 low (omega arith) in
    let address_back = value_of-bytes_of 8 address (omega arith) in
    ap (λ r. deserialize_varchar r heap) (drop-append buf row)
    ∙ deserialize_varchar_run row heap (bytes_of 2 low) (bytes_of 8 address) (take low str) str
        (read_value 2 low (bytes_of 8 address)) (read_value 8 address [])
        (found address (value_of (bytes_of 8 address)) (take low str) varchars new address_back)
        (ap (read_bytes (value_of (bytes_of 2 low))) whole ∙ read_all _ str (size_back ∙ size))

-- The bytes that a value adds to a row are as many as `find_offset` says of its type.
pub serialize-find_offset :
    (n : ℕ) (str buf : List ℕ) (address : ℕ) (varchars : List (ℕ × List ℕ))
    → (length (serialize_integer n buf) ≡ length buf + find_offset DataTypes.integer)
      × (length (serialize_real n buf) ≡ length buf + find_offset DataTypes.real)
      × (length (serialize_varchar str buf address varchars).0
          ≡ length buf + find_offset DataTypes.varchar)
unfolding serialize_integer serialize_real serialize_varchar find_offset
serialize-find_offset n str buf address varchars = (
  length-append buf (bytes_of 4 n),
  length-append buf (bytes_of 4 n),
  length-append buf (bytes_of 2 (length str % 2 ^ 16) ++ bytes_of 8 address),
)
