-- ===== src/Storage/Fields.antt =====
-- Fields of rows: they are read back as they were written, and stay as they are when rows follow.
use hivedb.Base.{
  ℕ, zero, suc, ◌%◌, ◌^◌, ◌<◌, ◌≤◌, ◌≡◌, refl, ap, ◌∙◌, sym, true, Option, none, some, List, [],
  ◌∷◌, ◌++◌, length, length-append, take, drop, arith, ℤ, pos, negsuc, Outcome, ok, fails, ◌>>=◌,
  lookup, insert, lookup-insert, if-cases, ◌==◌, or_fail, Failure, out_of_bounds,
}
use hivedb.DataTypes.{
  DataTypes, read_bytes, serialize_integer, deserialize_integer, serialize_real, deserialize_real,
  serialize_varchar, deserialize_varchar,
}
use hivedb.DataTypes.Bytes.{bytes_of, value_of}
use hivedb.Syntax.{Value, float, int, text}
use hivedb.Parser.Numbers.{fits_int}
use hivedb.Storage.{Heap, pattern_of, int_of, insert_data, read_field}
use hivedb.DataTypes.RoundTrip.{deserialize-serialize, deserialize_varchar-serialize_varchar}

-- The parts of a chain that returns.
pub bind-ok :
    {A B : Type 0} (o : Outcome A) (f : A → Outcome B) (b : B)
    → (o >>= f) ≡ ok b
    → (a : A) × (o ≡ ok a) × (f a ≡ ok b)
bind-ok (ok a) f b e = (a, refl, e)
bind-ok (fails x) f b e = cc

pub then_ok :
    {A B : Type 0} (o : Outcome A) (f : A → Outcome B) (a : A) (b : B)
    → o ≡ ok a
    → f a ≡ ok b
    → (o >>= f) ≡ ok b
then_ok o f a b e h = ap (λ x. x >>= f) e ∙ h

drop-append_any :
    (n : ℕ) (xs ys : List ℕ) → (rest : List ℕ) × (drop n (xs ++ ys) ≡ drop n xs ++ rest)
drop-append_any zero xs ys = (ys, refl)
drop-append_any (suc n) [] ys = (drop (suc n) ys, refl)
drop-append_any (suc n) (x ∷ xs) ys = drop-append_any n xs ys

take-append_short : (n : ℕ) (xs ys : List ℕ) → n ≤ length xs → take n (xs ++ ys) ≡ take n xs
take-append_short zero xs ys h = refl
take-append_short (suc n) [] ys h = absurd (omega arith)
take-append_short (suc n) (x ∷ xs) ys h =
    ap (λ zs. x ∷ zs) (take-append_short n xs ys (omega arith))

read_bytes-take : (n : ℕ) (buf : List ℕ) → n ≤ length buf → read_bytes n buf ≡ ok (take n buf)
read_bytes-take n buf h = ground arith

-- What is read stays when bytes follow.
read_bytes-append :
    (n : ℕ) (buf more bs : List ℕ) → read_bytes n buf ≡ ok bs → read_bytes n (buf ++ more) ≡ ok bs
read_bytes-append n buf more bs e =
    let enough : n ≤ length buf = ground arith in
    let more_enough : n ≤ length (buf ++ more) = omega (arith, length-append buf more) in
    read_bytes-take n (buf ++ more) more_enough
    ∙ ap ok (take-append_short n buf more enough)
    ∙ sym (read_bytes-take n buf enough)
    ∙ e

int_of-pattern_of : (z : ℤ) → fits_int z ≡ true → int_of (pattern_of z) ≡ z
unfolding int_of pattern_of
int_of-pattern_of (pos n) h = ground arith
int_of-pattern_of (negsuc n) h = ground arith

-- A value that a column of the type holds.
abbrev pub Fits : DataTypes → Value → Type 0
Fits DataTypes.integer (int z) = fits_int z ≡ true
Fits DataTypes.real (float x) = x < 2 ^ 32
Fits DataTypes.varchar (text cs) = length cs < 2 ^ 16
Fits dt v = ⊥

-- An address that is given is new.
abbrev pub IsNew : ℕ → Heap → Type 0
IsNew address heap = (lookup address heap ≡ none) × (address < 2 ^ 64)

pattern_of-lt : (z : ℤ) → pattern_of z < 2 ^ 32
unfolding pattern_of
pattern_of-lt (pos n) = omega arith
pattern_of-lt (negsuc n) = omega arith

deserialize_integer-append :
    (buf more : List ℕ) (n : ℕ)
    → deserialize_integer buf ≡ ok n
    → deserialize_integer (buf ++ more) ≡ ok n
unfolding deserialize_integer
deserialize_integer-append buf more n e =
    let (bs, r, k) = bind-ok (read_bytes 4 buf) _ n e in
    then_ok (read_bytes 4 (buf ++ more)) _ bs n (read_bytes-append 4 buf more bs r) k

deserialize_real-append :
    (buf more : List ℕ) (n : ℕ)
    → deserialize_real buf ≡ ok n
    → deserialize_real (buf ++ more) ≡ ok n
unfolding deserialize_real
deserialize_real-append buf more n e =
    let (bs, r, k) = bind-ok (read_bytes 4 buf) _ n e in
    then_ok (read_bytes 4 (buf ++ more)) _ bs n (read_bytes-append 4 buf more bs r) k

pub or_fail-ok : {A : Type 0} (o : Option A) (x : Failure) (a : A) → or_fail o x ≡ ok a → o ≡ some a
or_fail-ok none x a e = cc
or_fail-ok (some b) x a e = cc

options_differ : {A : Type 0} {a : A} → ◌≡◌ {A = Option A} none (some a) → ⊥
options_differ e = cc

lookup-later :
    (k a : ℕ) (str v : List ℕ) (heap : Heap)
    → lookup a heap ≡ none
    → lookup k heap ≡ some v
    → lookup k (insert a str heap) ≡ some v
lookup-later k a str v heap new e =
    lookup-insert a k str heap new
    ∙ if-cases (λ (o : Option (List ℕ)). o ≡ some v) (a == k)
        (λ t.
          let same : a ≡ k = ground arith in
          let there : lookup a heap ≡ some v = ap (λ i. lookup i heap) same ∙ e in
          absurd (options_differ (sym new ∙ there)))
        (λ f. e)

-- The same string, with more bytes behind its row and one more string on the heap.
deserialize_varchar-append :
    (buf more : List ℕ) (heap heap' : Heap) (cs : List ℕ)
    → ((k : ℕ) (v : List ℕ) → lookup k heap ≡ some v → lookup k heap' ≡ some v)
    → deserialize_varchar buf heap ≡ ok cs
    → deserialize_varchar (buf ++ more) heap' ≡ ok cs
unfolding deserialize_varchar
deserialize_varchar-append buf more heap heap' cs later e =
    let (size, r₁, k₁) = bind-ok (read_bytes 2 buf) _ cs e in
    let (address, r₂, k₂) = bind-ok (read_bytes 8 (drop 2 buf)) _ cs k₁ in
    let (characters, r₃, k₃) =
      bind-ok (or_fail (lookup (value_of address) heap) out_of_bounds) _ cs k₂ in
    let (rest, d) = drop-append_any 2 buf more in
    then_ok (read_bytes 2 (buf ++ more)) _ size cs (read_bytes-append 2 buf more size r₁) (
      then_ok (read_bytes 8 (drop 2 (buf ++ more))) _ address cs
        (ap (read_bytes 8) d ∙ read_bytes-append 8 (drop 2 buf) rest address r₂)
        (then_ok (or_fail (lookup (value_of address) heap') out_of_bounds) _ characters cs
          (ap (λ o. or_fail o out_of_bounds)
            (later (value_of address) characters
              (or_fail-ok (lookup (value_of address) heap) out_of_bounds characters r₃)))
          k₃))

-- Every string of a heap is in another one.
abbrev pub Keeps : Heap → Heap → Type 0
Keeps heap heap' = (k : ℕ) (v : List ℕ) → lookup k heap ≡ some v → lookup k heap' ≡ some v

pub read_field-append :
    (dt : DataTypes) (w : Value) (ptr : ℕ) (bytes more : List ℕ) (heap heap' : Heap)
    → Keeps heap heap'
    → read_field bytes heap ptr dt ≡ ok w
    → read_field (bytes ++ more) heap' ptr dt ≡ ok w
unfolding read_field
read_field-append DataTypes.integer w ptr bytes more heap heap' keeps e =
    let (n, r, k) = bind-ok (deserialize_integer (drop ptr bytes)) _ w e in
    let (rest, d) = drop-append_any ptr bytes more in
    then_ok (deserialize_integer (drop ptr (bytes ++ more))) _ n w
      (ap deserialize_integer d ∙ deserialize_integer-append (drop ptr bytes) rest n r) k
read_field-append DataTypes.real w ptr bytes more heap heap' keeps e =
    let (n, r, k) = bind-ok (deserialize_real (drop ptr bytes)) _ w e in
    let (rest, d) = drop-append_any ptr bytes more in
    then_ok (deserialize_real (drop ptr (bytes ++ more))) _ n w
      (ap deserialize_real d ∙ deserialize_real-append (drop ptr bytes) rest n r) k
read_field-append DataTypes.varchar w ptr bytes more heap heap' keeps e =
    let (cs, r, k) = bind-ok (deserialize_varchar (drop ptr bytes) heap) _ w e in
    let (rest, d) = drop-append_any ptr bytes more in
    then_ok (deserialize_varchar (drop ptr (bytes ++ more)) heap') _ cs w
      (ap (λ b. deserialize_varchar b heap') d
        ∙ deserialize_varchar-append (drop ptr bytes) rest heap heap' cs keeps r)
      k

module _ (allocate : Heap → ℕ) where
  -- What is written behind a table's bytes is read there.
  pub read_field-insert_data :
      (dt : DataTypes) (v : Value) (bytes : List ℕ) (heap : Heap)
      → Fits dt v
      → IsNew (allocate heap) heap
      → read_field
          (insert_data allocate v bytes heap).0
          (insert_data allocate v bytes heap).1
          (length bytes)
          dt
        ≡ ok v
  unfolding read_field insert_data
  read_field-insert_data DataTypes.integer (int z) bytes heap f new =
      then_ok (deserialize_integer (drop (length bytes) (serialize_integer (pattern_of z) bytes))) _
        (pattern_of z) (int z) (deserialize-serialize (pattern_of z) bytes (pattern_of-lt z)).0
        (ap (λ y. ok (int y)) (int_of-pattern_of z f))
  read_field-insert_data DataTypes.real (float x) bytes heap f new =
      then_ok (deserialize_real (drop (length bytes) (serialize_real x bytes))) _ x (float x)
        (deserialize-serialize x bytes f).1 refl
  read_field-insert_data DataTypes.varchar (text cs) bytes heap f new =
      then_ok _ _ cs (text cs)
        (deserialize_varchar-serialize_varchar cs bytes (allocate heap) heap f new.1 new.0) refl
  read_field-insert_data DataTypes.integer (float x) bytes heap f new = absurd f
  read_field-insert_data DataTypes.integer (text cs) bytes heap f new = absurd f
  read_field-insert_data DataTypes.real (int z) bytes heap f new = absurd f
  read_field-insert_data DataTypes.real (text cs) bytes heap f new = absurd f
  read_field-insert_data DataTypes.varchar (int z) bytes heap f new = absurd f
  read_field-insert_data DataTypes.varchar (float x) bytes heap f new = absurd f

  -- A value is written behind the bytes that are there, and the heap keeps its strings.
  pub insert_data-appends :
      (v : Value) (bytes : List ℕ) (heap : Heap)
      → IsNew (allocate heap) heap
      → ((more : List ℕ) × ((insert_data allocate v bytes heap).0 ≡ bytes ++ more))
        × Keeps heap (insert_data allocate v bytes heap).1
  unfolding insert_data serialize_integer serialize_real serialize_varchar
  insert_data-appends (float x) bytes heap new = ((bytes_of 4 x, refl), λ k v e. e)
  insert_data-appends (int z) bytes heap new = ((bytes_of 4 (pattern_of z), refl), λ k v e. e)
  insert_data-appends (text cs) bytes heap new = (
    (bytes_of 2 (length cs % 2 ^ 16) ++ bytes_of 8 (allocate heap), refl),
    λ k v e. lookup-later k (allocate heap) _ v heap new.0 e,
  )
