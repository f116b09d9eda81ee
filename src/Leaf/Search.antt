-- ===== src/Leaf/Search.antt =====
-- The two searches of a leaf: `find_index_for_insert` gives an insertion point, `find_index` the key.
use hivedb.Base.{
  ℕ, zero, suc, ◌+◌, ◌-◌, ◌/◌, ◌≤◌, ◌<◌, ◌≡◌, ◌≢◌, true, Option, none, some, arith, ltb, ◌==◌,
  Returns, Returns-bind, Bool-cases, inl, inr,
}
use hivedb.Leaf.{
  IndexKey, Leaf, gt, ge, eq, linear_search, insert_loop, binary_insert, find_index_for_insert,
  find_loop, find_index,
}

module _ {K V : Type 0} (key : IndexKey K) where
  -- The keys in use rise, or rise strictly.
  abbrev pub IsSorted : Leaf K V → Type 0
  IsSorted n = (i j : ℕ) → i ≤ j → j < n.current_size → key.rank (n.keys i) ≤ key.rank (n.keys j)

  abbrev pub IsStrict : Leaf K V → Type 0
  IsStrict n = (i j : ℕ) → i < j → j < n.current_size → key.rank (n.keys i) < key.rank (n.keys j)

  -- Before `r` no key is above `k`, and from `r` on none is below it.
  abbrev pub IsInsertionPoint : Leaf K V → K → ℕ → Type 0
  IsInsertionPoint n k r =
      (r ≤ n.current_size)
      × ((i : ℕ) → i < r → key.rank (n.keys i) ≤ key.rank k)
      × ((i : ℕ) → r ≤ i → i < n.current_size → key.rank k ≤ key.rank (n.keys i))

  module _ (n : Leaf K V) (k : K) (sorted : IsSorted n) (fits : n.current_size ≤ n.max_size) where
    linear_search-IsInsertionPoint :
        (left idx : ℕ)
        → idx + left ≡ n.current_size
        → ((i : ℕ) → i < idx → key.rank (n.keys i) ≤ key.rank k)
        → Returns (linear_search key n k idx left) (IsInsertionPoint n k)
    unfolding linear_search
    linear_search-IsInsertionPoint zero idx e low =
        (omega arith, low, λ i a b. absurd (omega arith))
    linear_search-IsInsertionPoint (suc left) idx e low =
        let inside : ltb idx n.max_size ≡ true = ground arith in
        elim (Bool-cases (gt key (n.keys idx) k)) [
          | inl above ↦
              simp (inside, above) (omega arith, low, λ i a b. ground (arith, sorted idx i a b))
          | inr below ↦
              simp (inside, below)
                (linear_search-IsInsertionPoint left (idx + 1) (omega arith) (λ i h.
                  elim (Bool-cases (i == idx)) [
                    | inl same ↦ let e' : i ≡ idx = ground arith in rw e' (ground arith)
                    | inr other ↦ low i (ground arith)
                  ]))
        ]

    -- The loop keeps `low` behind every smaller key and `high` at or behind the first that is not.
    insert_loop-IsInsertionPoint :
        (fuel low high : ℕ)
        → low ≤ high
        → high < n.current_size
        → high - low < fuel
        → ((i : ℕ) → i < low → key.rank (n.keys i) ≤ key.rank k)
        → key.rank k ≤ key.rank (n.keys high)
        → Returns (insert_loop key fuel n k low high) (IsInsertionPoint n k)
    unfolding insert_loop
    insert_loop-IsInsertionPoint zero low high le inside more before at = absurd (omega arith)
    insert_loop-IsInsertionPoint (suc fuel) low high le inside more before at =
        let middle = (high + low) / 2 in
        elim (Bool-cases (ltb low high)) [
          | inr done ↦
              let e : high ≡ low = ground arith in
              simp done
                (omega arith, before, λ i a b. ground (arith, sorted high i (omega arith) b))
          | inl go ↦
              let lt : low < high = ground arith in
              let in_node : ltb middle n.max_size ≡ true = ground arith in
              elim (Bool-cases (ge key (n.keys middle) k)) [
                | inl up ↦
                    simp (go, in_node, up)
                      (insert_loop-IsInsertionPoint fuel low middle (omega arith) (omega arith)
                        (omega arith) before (ground arith))
                | inr down ↦
                    simp (go, in_node, down)
                      (insert_loop-IsInsertionPoint fuel (middle + 1) high (omega arith) inside
                        (omega arith)
                        (λ i h. ground (arith, sorted i middle (omega arith) (omega arith))) at)
              ]
        ]

    binary_insert-IsInsertionPoint :
        5 ≤ n.current_size → Returns (binary_insert key n k) (IsInsertionPoint n k)
    unfolding binary_insert
    binary_insert-IsInsertionPoint big =
        let high = n.current_size - 1 in
        let inside : ltb high n.max_size ≡ true = ground arith in
        let apart : ltb 0 high ≡ true = ground arith in
        elim (Bool-cases (gt key k (n.keys high))) [
          | inl past ↦
              simp (inside, past)
                (
                  omega arith,
                  λ i h. ground (arith, sorted i high (omega arith) (omega arith)),
                  λ i a b. absurd (omega arith),
                )
          | inr within ↦
              simp (inside, within, apart)
                (insert_loop-IsInsertionPoint n.current_size 0 high (omega arith) (omega arith)
                  (omega arith) (λ i h. absurd (omega arith)) (ground arith))
        ]

    -- On a sorted leaf with room `find_index_for_insert` returns an insertion point, by the linear
    -- search below five keys and by the binary search from five keys on.
    pub find_index_for_insert-IsInsertionPoint :
        n.current_size < n.max_size → Returns (find_index_for_insert key n k) (IsInsertionPoint n k)
    unfolding find_index_for_insert
    find_index_for_insert-IsInsertionPoint room =
        let open_node : ltb n.current_size n.max_size ≡ true = ground arith in
        elim (Bool-cases (ltb n.current_size 5)) [
          | inl small ↦
              simp (open_node, small)
                (linear_search-IsInsertionPoint n.current_size 0 (omega arith)
                  (λ i h. absurd (omega arith)))
          | inr big ↦ simp (open_node, big) (binary_insert-IsInsertionPoint (ground arith))
        ]

  -- The index of the key, or none if no key in use is equal to it.
  abbrev pub Locates : Leaf K V → K → Option ℕ → Type 0
  Locates n k none = (i : ℕ) → i < n.current_size → key.rank (n.keys i) ≢ key.rank k
  Locates n k (some i) = (i < n.current_size) × (key.rank (n.keys i) ≡ key.rank k)

  module _ (n : Leaf K V) (k : K) (sorted : IsSorted n) (fits : n.current_size ≤ n.max_size) where
    -- If the key is there at all, the loop ends at one of its places.
    abbrev EndsAt : ℕ → Type 0
    EndsAt m =
        (m < n.current_size)
        × ((j : ℕ)
            → j < n.current_size
            → key.rank (n.keys j) ≡ key.rank k
            → key.rank (n.keys m) ≡ key.rank k)

    find_loop-EndsAt :
        (fuel low high : ℕ)
        → low ≤ high + 1
        → high < n.current_size
        → high - low < fuel
        → ((j : ℕ) → j < n.current_size → key.rank (n.keys j) ≡ key.rank k → (low ≤ j) × (j ≤ high))
        → Returns (find_loop key fuel n k low high) EndsAt
    unfolding find_loop
    find_loop-EndsAt zero low high le inside more between = absurd (omega arith)
    find_loop-EndsAt (suc fuel) low high le inside more between =
        let middle = (high + low) / 2 in
        elim (Bool-cases (ltb low high)) [
          | inr done ↦ simp done (
            ground arith,
            λ j b e. let at : j ≡ middle = ground (arith, between j b e) in rw (← at) e,
          )
          | inl go ↦
              let in_node : ltb middle n.max_size ≡ true = ground arith in
              elim (Bool-cases (eq key (n.keys middle) k)) [
                | inl hit ↦ simp (go, in_node, hit) (ground arith, λ j b e. ground arith)
                | inr miss ↦ elim (Bool-cases (gt key (n.keys middle) k)) [
                  | inl up ↦
                      simp (go, in_node, miss, up)
                        (find_loop-EndsAt fuel low (middle - 1) (ground arith) (ground arith)
                          (ground arith) (λ j b e. ground (arith, between j b e, sorted middle j)))
                  | inr down ↦
                      simp (go, in_node, miss, down)
                        (find_loop-EndsAt fuel (middle + 1) high (ground arith) inside
                          (ground arith) (λ j b e. ground (arith, between j b e, sorted j middle)))
                ]
              ]
        ]

    -- On a sorted leaf that is not empty `find_index` returns: an index that holds the key, or none,
    -- and then no key in use is equal to it.
    pub find_index-Locates : 0 < n.current_size → Returns (find_index key n k) (Locates n k)
    unfolding find_index
    find_index-Locates some_key =
        let start : ltb 0 n.current_size ≡ true = ground arith in
        simp start (
          Returns-bind EndsAt (Locates n k)
            (find_loop key n.current_size n k 0 (n.current_size - 1)) _
            (find_loop-EndsAt n.current_size 0 (n.current_size - 1) (omega arith) (omega arith)
              (omega arith) (λ j b e. omega arith))
            (λ m end.
              let in_node : ltb m n.max_size ≡ true = ground (arith, end.0) in
              elim (Bool-cases (eq key (n.keys m) k)) [
                | inl hit ↦ simp (in_node, hit) (end.0, ground arith)
                | inr miss ↦ simp (in_node, miss) (λ j b e. ground (arith, end.1 j b e))
              ]))
