-- ===== src/Leaf/Insert.antt =====
-- `trivial_insert` of the leaf: where each cell goes, and that the leaf stays sorted.
use hivedb.Base.{
  ℕ, zero, suc, ◌+◌, ◌-◌, ◌≤◌, ◌<◌, ◌≡◌, refl, true, none, arith, ltb, leb, ◌==◌, if◌then◌else◌,
  Returns, Returns-bind, Returns-mono, Bool-cases, inl, inr,
}
use hivedb.Leaf.{IndexKey, Leaf, update, shift, insert_at, trivial_insert, find_index_for_insert}
use hivedb.Leaf.Search.{IsSorted, IsInsertionPoint, find_index_for_insert-IsInsertionPoint}

module _ {K V : Type 0} where
  -- The header but for the size, which is `size`.
  pub record SameHeader (n m : Leaf K V) (size : ℕ) : Type 0 where
    pub same_type : m.node_type ≡ n.node_type
    pub same_max : m.max_size ≡ n.max_size
    pub same_next : m.next_page_id ≡ n.next_page_id
    pub new_size : m.current_size ≡ size

  -- The cells from `at` to `at + left` have moved up by one, over the cell `at` itself.
  pub record Shifted (left at : ℕ) (n m : Leaf K V) : Type 0 where
    pub header : SameHeader n m n.current_size
    pub moved :
        (j : ℕ)
        → at < j
        → j ≤ at + left
        → (m.keys j ≡ n.keys (j - 1)) × (m.values j ≡ n.values (j - 1))
    pub below : (j : ℕ) → j ≤ at → (m.keys j ≡ n.keys j) × (m.values j ≡ n.values j)
    pub above : (j : ℕ) → at + left < j → (m.keys j ≡ n.keys j) × (m.values j ≡ n.values j)

  pub shift-Shifted :
      (left at : ℕ) (n : Leaf K V)
      → at + left < n.max_size
      → Returns (shift left at n) (Shifted left at n)
  unfolding shift
  shift-Shifted zero at n h = record {
    header = record { same_type = refl; same_max = refl; same_next = refl; new_size = refl };
    moved = λ j a b. absurd (omega arith);
    below = λ j a. (refl, refl);
    above = λ j a. (refl, refl);
  }
  shift-Shifted (suc left) at n h =
      let from : ltb (at + left) n.max_size ≡ true = ground arith in
      let to : ltb (at + left + 1) n.max_size ≡ true = ground arith in
      let m : Leaf K V = record n {
        keys = update n.keys (at + left + 1) (n.keys (at + left));
        values = update n.values (at + left + 1) (n.values (at + left));
      } in
      simp (from, to)
        (Returns-mono (Shifted left at m) (Shifted (suc left) at n) (shift left at m)
          (λ r s. record {
            header = record {
              same_type = s.header.same_type;
              same_max = s.header.same_max;
              same_next = s.header.same_next;
              new_size = s.header.new_size;
            };
            moved = λ j a b. ground (arith, s.moved j, s.above j);
            below = λ j a. ground (arith, s.below j);
            above = λ j a. ground (arith, s.above j);
          })
          (shift-Shifted left at m (omega arith)))

  -- What an insertion of `k` and `v` at `at` makes of the cells in use.
  pub record Inserted (n : Leaf K V) (k : K) (v : V) (at : ℕ) (m : Leaf K V) : Type 0 where
    pub header : SameHeader n m (n.current_size + 1)
    pub below : (j : ℕ) → j < at → (m.keys j ≡ n.keys j) × (m.values j ≡ n.values j)
    pub here : (m.keys at ≡ k) × (m.values at ≡ v)
    pub above :
        (j : ℕ)
        → at < j
        → j ≤ n.current_size
        → (m.keys j ≡ n.keys (j - 1)) × (m.values j ≡ n.values (j - 1))

module _ {K V : Type 0} (key : IndexKey K) where
  insert_at-Inserted :
      (n : Leaf K V) (k : K) (v : V) (at : ℕ)
      → n.current_size < n.max_size
      → at ≤ n.current_size
      → Returns (insert_at key n k v at) (Inserted n k v at)
  unfolding insert_at
  insert_at-Inserted n k v at room le =
      let cell : ltb at n.max_size ≡ true = ground arith in
      elim (Bool-cases (at == n.current_size)) [
        | inl last ↦
            simp (last, cell)
              (record {
                header = record {
                  same_type = refl;
                  same_max = refl;
                  same_next = refl;
                  new_size = refl;
                };
                below = λ j h. ground arith;
                here = ground arith;
                above = λ j a b. absurd (ground arith);
              })
        | inr inner ↦ simp inner (
            Returns-bind (Shifted (n.current_size - at) at n) (Inserted n k v at)
              (shift (n.current_size - at) at n) _
              (shift-Shifted (n.current_size - at) at n (omega arith))
              (λ m s.
                let cell' : ltb at m.max_size ≡ true = ground (arith, s.header.same_max) in
                simp cell' (record {
                  header = record {
                    same_type = s.header.same_type;
                    same_max = s.header.same_max;
                    same_next = s.header.same_next;
                    new_size = refl;
                  };
                  below = λ j h. ground (arith, s.below j);
                  here = ground arith;
                  above = λ j a b. ground (arith, s.moved j);
                })))
      ]

  -- An insertion at an insertion point.
  pub record InsertedInOrder (n : Leaf K V) (k : K) (v : V) (m : Leaf K V) : Type 0 where
    pub at : ℕ
    pub point : IsInsertionPoint key n k at
    pub cells : Inserted n k v at m

  -- On a sorted leaf with room `trivial_insert` returns, with no failed assertion: the key and value
  -- stand at an insertion point, the cells before it are as they were, and those behind it have moved
  -- up by one.
  pub trivial_insert-InsertedInOrder :
      (n : Leaf K V) (k : K) (v : V)
      → IsSorted key n
      → n.current_size < n.max_size
      → Returns (trivial_insert key n k v none) (InsertedInOrder n k v)
  unfolding trivial_insert
  trivial_insert-InsertedInOrder n k v sorted room =
      let open_node : ltb n.current_size n.max_size ≡ true = ground arith in
      simp open_node (
        Returns-bind (IsInsertionPoint key n k) (InsertedInOrder n k v)
          (find_index_for_insert key n k) _
          (find_index_for_insert-IsInsertionPoint key n k sorted (omega arith) room)
          (λ at p.
            let le : leb at n.current_size ≡ true = ground (arith, p.0) in
            simp le (
              Returns-mono (Inserted n k v at) (InsertedInOrder n k v) (insert_at key n k v at)
                (λ m c. record { at = at; point = p; cells = c })
                (insert_at-Inserted n k v at room p.0))))

  module _ (n m : Leaf K V) (k : K) (v : V) (r : InsertedInOrder n k v m) where
    -- The rank at `j` after the insertion.
    pub key_after :
        (j : ℕ)
        → j ≤ n.current_size
        → key.rank (m.keys j) ≡ (
            if ltb j r.at
            then key.rank (n.keys j)
            else if j == r.at
            then key.rank k
            else key.rank (n.keys (j - 1)))
    key_after j h = ground (arith, r.cells.below j, r.cells.here, r.cells.above j)

    pub InsertedInOrder-IsSorted : IsSorted key n → IsSorted key m
    InsertedInOrder-IsSorted sorted i j le h = ground (
      arith,
      key_after i,
      key_after j,
      r.cells.header.new_size,
      r.point.1 i,
      r.point.1 j,
      r.point.2 i,
      r.point.2 (j - 1),
      r.point.1 (i - 1),
      sorted i j,
      sorted i (j - 1),
      sorted (i - 1) (j - 1),
    )
