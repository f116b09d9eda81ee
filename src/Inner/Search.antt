-- ===== src/Inner/Search.antt =====
-- The searches of the inner node: the child that holds a key, and the place for a new key.
use hivedb.Base.{
  ℕ, zero, suc, ◌+◌, ◌-◌, ◌/◌, ◌^◌, ◌≤◌, ◌<◌, ◌≡◌, true, arith, ltb, ◌==◌, Returns, Bool-cases, inl,
  inr,
}
use hivedb.Leaf.{IndexKey, gt, ge}
use hivedb.Inner.{
  Inner, minus, linear_loop, insert_loop, binary_insert, find_index_for_insert, find_loop,
  find_index,
}

pub minus_lem : (a b : ℕ) → b ≤ a → a < 2 ^ 64 → minus a b ≡ a - b
minus_lem a b h l = omega arith

-- What the searches need: two children at least, and sizes of 64 bits.
pub record HasChildren {K V : Type 0} (n : Inner K V) : Type 0 where
  pub two : 2 ≤ n.current_size
  pub fits : n.current_size ≤ n.max_size
  pub wide : n.max_size < 2 ^ 64

module _ {K V : Type 0} (key : IndexKey K) where
  -- The keys between the children rise.
  abbrev pub PartsSorted : Inner K V → Type 0
  PartsSorted n =
      (i j : ℕ) → i ≤ j → j + 1 < n.current_size → key.rank (n.keys i) ≤ key.rank (n.keys j)

  -- The keys before the child `r` are at most `k`, and those from it on are above `k`.
  abbrev pub IsChild : Inner K V → K → ℕ → Type 0
  IsChild n k r =
      (r < n.current_size)
      × ((i : ℕ) → i < r → key.rank (n.keys i) ≤ key.rank k)
      × ((i : ℕ) → r ≤ i → i + 1 < n.current_size → key.rank k < key.rank (n.keys i))

  -- Before `r` no key is above `k`, and from `r` on none is below it.
  abbrev pub IsGap : Inner K V → K → ℕ → Type 0
  IsGap n k r =
      (r < n.current_size)
      × ((i : ℕ) → i < r → key.rank (n.keys i) ≤ key.rank k)
      × ((i : ℕ) → r ≤ i → i + 1 < n.current_size → key.rank k ≤ key.rank (n.keys i))

  module _ (n : Inner K V) (k : K) (sorted : PartsSorted n) (has : HasChildren n) where
    find_loop-IsChild :
        (fuel low high : ℕ)
        → low ≤ high
        → high + 1 < n.current_size
        → high - low < fuel
        → ((i : ℕ) → i < low → key.rank (n.keys i) ≤ key.rank k)
        → key.rank k < key.rank (n.keys high)
        → Returns (find_loop key fuel n k low high) (IsChild n k)
    unfolding find_loop
    find_loop-IsChild zero low high le inside more before at = absurd (omega arith)
    find_loop-IsChild (suc fuel) low high le inside more before at =
        let middle = (high + low) / 2 in
        elim (Bool-cases (ltb low high)) [
          | inr done ↦
              let e : high ≡ low = ground arith in
              simp done
                (omega arith, before, λ i a b. ground (arith, sorted high i (omega arith) b))
          | inl go ↦
              let lt : low < high = ground arith in
              let in_node : ltb middle n.max_size ≡ true = ground (arith, has.fits) in
              elim (Bool-cases (gt key (n.keys middle) k)) [
                | inl up ↦
                    simp (go, in_node, up)
                      (find_loop-IsChild fuel low middle (omega arith) (omega arith) (omega arith)
                        before (ground arith))
                | inr down ↦
                    simp (go, in_node, down)
                      (find_loop-IsChild fuel (middle + 1) high (omega arith) inside (omega arith)
                        (λ i h. ground (arith, sorted i middle (omega arith) (omega arith))) at)
              ]
        ]

    -- On an inner node with two children or more and sorted keys `find_index` returns the child to
    -- which the key belongs: the keys before it are at most the key, those from it on are above it.
    pub find_index-IsChild : Returns (find_index key n k) (IsChild n k)
    unfolding find_index
    find_index-IsChild =
        let high = n.current_size - 2 in
        let start : ltb 0 n.current_size ≡ true = ground (arith, has.two) in
        let e : minus n.current_size 2 ≡ high =
          minus_lem n.current_size 2 has.two (omega (arith, has.fits, has.wide)) in
        let inside : ltb high n.max_size ≡ true = ground (arith, has.two, has.fits) in
        elim (Bool-cases (ge key k (n.keys high))) [
          | inl past ↦
              simp (start, e, inside, past)
                (
                  omega (arith, has.two),
                  λ i h. ground (arith, sorted i high (omega arith) (omega (arith, has.two))),
                  λ i a b. absurd (omega arith),
                )
          | inr within ↦
              simp (start, e, inside, within)
                (find_loop-IsChild n.current_size 0 high (omega arith) (omega (arith, has.two))
                  (omega (arith, has.two)) (λ i h. absurd (omega arith)) (ground arith))
        ]

    linear_loop-IsGap :
        (fuel idx : ℕ)
        → idx < n.current_size
        → n.current_size < fuel + idx
        → ((i : ℕ) → i < idx → key.rank (n.keys i) ≤ key.rank k)
        → Returns (linear_loop key fuel n k idx) (IsGap n k)
    unfolding linear_loop
    linear_loop-IsGap zero idx b f low = absurd (omega arith)
    linear_loop-IsGap (suc fuel) idx b f low =
        let e : minus n.current_size 1 ≡ n.current_size - 1 =
          minus_lem n.current_size 1 (omega arith) (omega (arith, has.fits, has.wide)) in
        let inside : ltb idx n.max_size ≡ true = ground (arith, has.fits) in
        elim (Bool-cases (idx == n.current_size - 1)) [
          | inl last ↦ simp (e, last) (b, low, λ i a c. absurd (ground arith))
          | inr early ↦ elim (Bool-cases (gt key (n.keys idx) k)) [
            | inl above ↦
                simp (e, early, inside, above) (b, low, λ i a c. ground (arith, sorted idx i a c))
            | inr below ↦
                simp (e, early, inside, below)
                  (linear_loop-IsGap fuel (idx + 1) (ground arith) (omega arith) (λ i h.
                    elim (Bool-cases (i == idx)) [
                      | inl same ↦ let at : i ≡ idx = ground arith in rw at (ground arith)
                      | inr other ↦ low i (ground arith)
                    ]))
          ]
        ]

    insert_loop-IsGap :
        (fuel low high : ℕ)
        → low ≤ high
        → high + 1 < n.current_size
        → high - low < fuel
        → ((i : ℕ) → i < low → key.rank (n.keys i) ≤ key.rank k)
        → key.rank k ≤ key.rank (n.keys high)
        → Returns (insert_loop key fuel n k low high) (IsGap n k)
    unfolding insert_loop
    insert_loop-IsGap zero low high le inside more before at = absurd (omega arith)
    insert_loop-IsGap (suc fuel) low high le inside more before at =
        let middle = (high + low) / 2 in
        elim (Bool-cases (ltb low high)) [
          | inr done ↦
              let e : high ≡ low = ground arith in
              simp done
                (omega arith, before, λ i a b. ground (arith, sorted high i (omega arith) b))
          | inl go ↦
              let lt : low < high = ground arith in
              let in_node : ltb middle n.max_size ≡ true = ground (arith, has.fits) in
              elim (Bool-cases (ge key (n.keys middle) k)) [
                | inl up ↦
                    simp (go, in_node, up)
                      (insert_loop-IsGap fuel low middle (omega arith) (omega arith) (omega arith)
                        before (ground arith))
                | inr down ↦
                    simp (go, in_node, down)
                      (insert_loop-IsGap fuel (middle + 1) high (omega arith) inside (omega arith)
                        (λ i h. ground (arith, sorted i middle (omega arith) (omega arith))) at)
              ]
        ]

    binary_insert-IsGap : 5 ≤ n.current_size → Returns (binary_insert key n k) (IsGap n k)
    unfolding binary_insert
    binary_insert-IsGap big =
        let high = n.current_size - 2 in
        let inside : ltb high n.max_size ≡ true = ground (arith, has.fits) in
        let apart : ltb 0 high ≡ true = ground arith in
        elim (Bool-cases (gt key k (n.keys high))) [
          | inl past ↦
              simp (inside, past)
                (
                  omega arith,
                  λ i h. ground (arith, sorted i high (omega arith) (omega arith)),
                  λ i a b. absurd (omega arith),
                )
          | inr within ↦
              simp (inside, within, apart)
                (insert_loop-IsGap n.current_size 0 high (omega arith) (omega arith) (omega arith)
                  (λ i h. absurd (omega arith)) (ground arith))
        ]

    -- On an inner node with room, two children or more and sorted keys `find_index_for_insert`
    -- returns a place before the last cell, with no greater key before it and no lesser one behind.
    pub find_index_for_insert-IsGap :
        n.current_size < n.max_size → Returns (find_index_for_insert key n k) (IsGap n k)
    unfolding find_index_for_insert
    find_index_for_insert-IsGap room =
        let open_node : ltb n.current_size n.max_size ≡ true = ground arith in
        elim (Bool-cases (ltb n.current_size 5)) [
          | inl small ↦
              simp (open_node, small)
                (linear_loop-IsGap (n.max_size + 1) 0 (omega (arith, has.two)) (omega arith)
                  (λ i h. absurd (omega arith)))
          | inr big ↦ simp (open_node, big) (binary_insert-IsGap (ground arith))
        ]
