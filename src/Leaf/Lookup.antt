-- ===== src/Leaf/Lookup.antt =====
-- Lookups after an insertion: the leaf as a map from keys to values.
use hivedb.Base.{
  ℕ, ◌+◌, ◌-◌, ◌≤◌, ◌<◌, ◌≡◌, ◌≢◌, refl, sym, ◌∙◌, true, Option, none, some, arith, ltb, ◌==◌,
  if◌then◌else◌, Outcome, ok, Returns, Returns-ok, Returns-bind, Returns-mono, Bool-cases, inl, inr,
  ap, ◌>>=◌,
}
use hivedb.Leaf.{IndexKey, Leaf, records, trivial_insert, find_index, find_value, eq}
use hivedb.Leaf.Search.{IsSorted, IsStrict, Locates, find_index-Locates}
use hivedb.Leaf.Insert.{InsertedInOrder, key_after, trivial_insert-InsertedInOrder}

module _ {K V : Type 0} (key : IndexKey K) where
  -- The value of the key in the leaf, or none if the key is not there.
  abbrev pub Maps : Leaf K V → K → Option V → Type 0
  Maps n k none = (i : ℕ) → i < n.current_size → key.rank (n.keys i) ≢ key.rank k
  Maps n k (some v) =
      (i : ℕ) × (i < n.current_size) × (key.rank (n.keys i) ≡ key.rank k) × (n.values i ≡ v)

  -- No key in use is equal to `k`.
  abbrev pub IsAbsent : Leaf K V → K → Type 0
  IsAbsent n k = (i : ℕ) → i < n.current_size → key.rank (n.keys i) ≢ key.rank k

  pub IsStrict→IsSorted : (n : Leaf K V) → IsStrict key n → IsSorted key n
  IsStrict→IsSorted n strict i j le h = elim (Bool-cases (i == j)) [
    | inl same ↦ let e : i ≡ j = ground arith in rw e (omega arith)
    | inr other ↦ ground (arith, strict i j)
  ]

  strict_index :
      (n : Leaf K V) (i j : ℕ)
      → IsStrict key n
      → i < n.current_size
      → j < n.current_size
      → key.rank (n.keys i) ≡ key.rank (n.keys j)
      → i ≡ j
  strict_index n i j strict a b e = ground (arith, strict i j, strict j i)

  -- A strictly sorted leaf maps a key to one value at most.
  pub Maps-unique :
      (n : Leaf K V) (k : K) (a b : Option V) → IsStrict key n → Maps n k a → Maps n k b → a ≡ b
  Maps-unique n k none none strict p q = refl
  Maps-unique n k none (some v) strict p q = absurd (p q.0 q.1 q.2)
  Maps-unique n k (some v) none strict p q = absurd (q p.0 p.1 p.2)
  Maps-unique n k (some v) (some w) strict p q =
      let e = strict_index n p.0 q.0 strict p.1 q.1 (p.2 ∙ sym q.2) in
      ground (arith, p.3, q.3, ap n.values e)

  Maps-rank :
      (n : Leaf K V) (x k : K) (o : Option V) → key.rank x ≡ key.rank k → Maps n x o → Maps n k o
  Maps-rank n x k none e p = λ i h q. p i h (q ∙ sym e)
  Maps-rank n x k (some v) e p = (p.0, p.1, p.2 ∙ e, p.3)

  -- On a sorted leaf that is not empty the lookup returns what the leaf maps the key to.
  pub find_value-Maps :
      (n : Leaf K V) (k : K)
      → IsSorted key n
      → n.current_size ≤ n.max_size
      → 0 < n.current_size
      → Returns (find_value key n k) (Maps n k)
  unfolding find_value
  find_value-Maps n k sorted fits some_key =
      Returns-bind (Locates key n k) (Maps n k) (find_index key n k) _
        (find_index-Locates key n k sorted fits some_key) found
    where
      found :
          (o : Option ℕ)
          → Locates key n k o
          → Returns
              (elim o as (λ _. Outcome (Option V)) [
                | none ↦ ok none
                | some i ↦ (records n i >>= λ v. ok (some v))
              ])
              (Maps n k)
      found none p = p
      found (some i) p =
          let inside : ltb i n.max_size ≡ true = ground (arith, p.0) in
          simp inside (i, p.0, p.1, refl)

  module _ (n m : Leaf K V) (k : K) (v : V) (r : InsertedInOrder key n k v m) where
    InsertedInOrder-IsStrict : IsStrict key n → IsAbsent n k → IsStrict key m
    InsertedInOrder-IsStrict strict absent i j lt h = ground (
      arith,
      key_after key n m k v r i,
      key_after key n m k v r j,
      r.cells.header.new_size,
      r.point.1 i,
      r.point.2 i,
      r.point.2 (j - 1),
      r.point.1 (i - 1),
      absent i,
      absent (j - 1),
      absent (i - 1),
      strict i j,
      strict i (j - 1),
      strict (i - 1) (j - 1),
    )

    Maps-inserted : IsAbsent n k → (o : Option V) → Maps m k o → o ≡ some v
    Maps-inserted absent none p =
        absurd
          (p r.at (omega (arith, r.point.0, r.cells.header.new_size)) (ap key.rank r.cells.here.0))
    Maps-inserted absent (some w) p = ground (
      arith,
      p.1,
      p.2,
      p.3,
      r.cells.header.new_size,
      r.cells.below p.0,
      r.cells.here,
      r.cells.above p.0,
      absent p.0,
      absent (p.0 - 1),
      r.point.0,
    )

    Maps-others : (x : K) → key.rank x ≢ key.rank k → (o : Option V) → Maps m x o → Maps n x o
    Maps-others x ne none p = λ i h. elim (Bool-cases (ltb i r.at)) [
      | inl before ↦ ground (arith, p i, r.cells.header.new_size, r.cells.below i)
      | inr behind ↦ λ e. p (i + 1) (omega (arith, r.cells.header.new_size)) (
          let moved = r.cells.above (i + 1) (ground arith) (omega arith) in
          let back : i + 1 - 1 ≡ i = omega arith in ap key.rank (moved.0 ∙ ap n.keys back) ∙ e)
    ]
    Maps-others x ne (some w) p = elim (Bool-cases (ltb p.0 r.at)) [
      | inl before ↦
          let same = r.cells.below p.0 (ground arith) in
          (p.0, ground (arith, r.point.0), ap key.rank (sym same.0) ∙ p.2, sym same.1 ∙ p.3)
      | inr behind ↦
          let past : r.at < p.0 = ground (arith, r.cells.here.0, p.2) in
          let moved = r.cells.above p.0 past (omega (arith, p.1, r.cells.header.new_size)) in
          (
            p.0 - 1,
            omega (arith, p.1, r.cells.header.new_size),
            ap key.rank (sym moved.0) ∙ p.2,
            sym moved.1 ∙ p.3,
          )
    ]

  -- After `trivial_insert` of a key that is not in a strictly sorted leaf with room and at least one
  -- key, the leaf is strictly sorted, a lookup of that key finds its value, and a lookup of any other
  -- key ends as before.
  pub find_value-trivial_insert :
      (n : Leaf K V) (k : K) (v : V) (x : K)
      → IsStrict key n
      → IsAbsent n k
      → 0 < n.current_size
      → n.current_size < n.max_size
      → Returns (trivial_insert key n k v none) (λ m.
        IsStrict key m
        × (find_value key m x ≡ (if eq key x k then ok (some v) else find_value key n x)))
  find_value-trivial_insert n k v x strict absent some_key room =
      Returns-mono (InsertedInOrder key n k v) _ (trivial_insert key n k v none)
        (λ m r.
          let strict' = InsertedInOrder-IsStrict n m k v r strict absent in
          let after = Returns-ok (Maps m x) (find_value key m x) (
            find_value-Maps m x (IsStrict→IsSorted m strict')
              (omega (arith, r.cells.header.new_size, r.cells.header.same_max))
              (omega (arith, r.cells.header.new_size))) in
          let before =
            Returns-ok (Maps n x) (find_value key n x)
              (find_value-Maps n x (IsStrict→IsSorted n strict) (omega arith) some_key) in
          (
            strict',
            elim (Bool-cases (eq key x k)) [
              | inl same ↦
                  let e : key.rank x ≡ key.rank k = ground arith in
                  rw same (
                    after.1
                    ∙ ap ok (
                        Maps-inserted n m k v r absent after.0 (Maps-rank m x k after.0 e after.2)))
              | inr other ↦
                  let ne : key.rank x ≢ key.rank k = ground arith in
                  rw (other, after.1, before.1)
                    (ap ok (
                      Maps-unique n x after.0 before.0 strict
                        (Maps-others n m k v r x ne after.0 after.2) before.2))
            ],
          ))
        (trivial_insert-InsertedInOrder key n k v (IsStrict→IsSorted n strict) room)
