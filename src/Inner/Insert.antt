-- ===== src/Inner/Insert.antt =====
-- `trivial_insert_leaf_node`: the new page becomes the child behind the one that was split.
use hivedb.Base.{
  ℕ, ◌+◌, ◌-◌, ◌≤◌, ◌<◌, ◌≡◌, refl, true, arith, ltb, ◌==◌, Returns, Returns-bind, Returns-mono,
  Bool-cases, inl, inr,
}
use hivedb.Leaf.{IndexKey, Leaf, shift}
use hivedb.Leaf.Insert.{SameHeader, Shifted, shift-Shifted}
use hivedb.Inner.{
  Inner, minus, swap_pages, insert_last, insert_inside, trivial_insert_leaf_node,
  find_index_for_insert,
}
use hivedb.Inner.Search.{HasChildren, PartsSorted, IsGap, minus_lem, find_index_for_insert-IsGap}

module _ {K V : Type 0} where
  -- The key stands at `at`, the page behind the child `at`, and the cells behind them moved up by one.
  pub record Adopted (n : Inner K V) (k : K) (v : V) (at : ℕ) (m : Inner K V) : Type 0 where
    pub header : SameHeader n m (n.current_size + 1)
    pub keys_below : (j : ℕ) → j < at → m.keys j ≡ n.keys j
    pub key_here : m.keys at ≡ k
    pub keys_above : (j : ℕ) → at < j → j ≤ n.current_size → m.keys j ≡ n.keys (j - 1)
    pub pages_below : (j : ℕ) → j ≤ at → m.values j ≡ n.values j
    pub page_here : m.values (at + 1) ≡ v
    pub pages_above : (j : ℕ) → at + 1 < j → j ≤ n.current_size → m.values j ≡ n.values (j - 1)

  insert_last-Adopted :
      (n : Inner K V) (k : K) (v : V)
      → HasChildren n
      → n.current_size < n.max_size
      → Returns (insert_last n k v) (Adopted n k v (n.current_size - 1))
  unfolding insert_last swap_pages
  insert_last-Adopted n k v has room =
      let e : minus n.current_size 1 ≡ n.current_size - 1 =
        minus_lem n.current_size 1 (omega (arith, has.two)) (omega (arith, has.fits, has.wide)) in
      let in_last : ltb (n.current_size - 1) n.max_size ≡ true = ground arith in
      let in_size : ltb n.current_size n.max_size ≡ true = ground arith in
      simp (e, in_last, in_size)
        (record {
          header = record { same_type = refl; same_max = refl; same_next = refl; new_size = refl };
          keys_below = λ j h. ground (arith, has.two);
          key_here = ground (arith, has.two);
          keys_above = λ j a b. ground (arith, has.two);
          pages_below = λ j h. ground (arith, has.two);
          page_here = ground (arith, has.two);
          pages_above = λ j a b. ground (arith, has.two);
        })

  insert_inside-Adopted :
      (n : Inner K V) (k : K) (v : V) (at : ℕ)
      → n.current_size < n.max_size
      → at + 1 < n.current_size
      → Returns (insert_inside n k v at) (Adopted n k v at)
  unfolding insert_inside swap_pages
  insert_inside-Adopted n k v at room inside =
      Returns-bind (Shifted (n.current_size - at) at n) (Adopted n k v at)
        (shift (n.current_size - at) at n) _
        (shift-Shifted (n.current_size - at) at n (omega arith))
        (λ m s.
          let in_at : ltb at m.max_size ≡ true = ground (arith, s.header.same_max) in
          let in_next : ltb (at + 1) m.max_size ≡ true = ground (arith, s.header.same_max) in
          let in_use : ltb (at + 1) n.current_size ≡ true = ground arith in
          simp (in_at, in_use, in_next)
            (record {
              header = record {
                same_type = s.header.same_type;
                same_max = s.header.same_max;
                same_next = s.header.same_next;
                new_size = refl;
              };
              keys_below = λ j h. ground (arith, s.below j);
              key_here = ground arith;
              keys_above = λ j a b. ground (arith, s.moved j);
              pages_below = λ j h. ground (arith, s.below j, s.moved (at + 1));
              page_here = ground arith;
              pages_above = λ j a b. ground (arith, s.moved j);
            }))

module _ {K V : Type 0} (key : IndexKey K) where
  -- The new page was adopted in the order of the keys.
  pub record AdoptedInOrder (n : Inner K V) (k : K) (v : V) (m : Inner K V) : Type 0 where
    pub at : ℕ
    pub place : IsGap key n k at
    pub cells : Adopted n k v at m

  -- On an inner node with room, two children or more and sorted keys, `trivial_insert_leaf_node` of a
  -- leaf with a cell returns, with no failed assertion: the leaf's first key stands at a place in the
  -- order of the keys, the page that was the child there stays the child before it, the new page
  -- is the child behind it, and the cells behind them have moved up by one.
  pub trivial_insert_leaf_node-AdoptedInOrder :
      {U : Type 0} (n : Inner K V) (v : V) (leaf : Leaf K U)
      → PartsSorted key n
      → HasChildren n
      → n.current_size < n.max_size
      → 0 < leaf.max_size
      → Returns (trivial_insert_leaf_node key n v leaf) (AdoptedInOrder n (leaf.keys 0) v)
  unfolding trivial_insert_leaf_node
  trivial_insert_leaf_node-AdoptedInOrder n v leaf sorted has room some_cell =
      let k = leaf.keys 0 in
      let open_node : ltb n.current_size n.max_size ≡ true = ground arith in
      let in_leaf : ltb 0 leaf.max_size ≡ true = ground arith in
      let e : minus n.current_size 1 ≡ n.current_size - 1 =
        minus_lem n.current_size 1 (omega (arith, has.two)) (omega (arith, has.fits, has.wide)) in
      simp (open_node, in_leaf)
        (Returns-bind (IsGap key n k) (AdoptedInOrder n k v) (find_index_for_insert key n k) _
          (find_index_for_insert-IsGap key n k sorted has room)
          (λ at g. elim (Bool-cases (at == n.current_size - 1)) [
            | inl last ↦
                let same : at ≡ n.current_size - 1 = ground arith in
                simp (e, last)
                  (Returns-mono (Adopted n k v (n.current_size - 1)) (AdoptedInOrder n k v)
                    (insert_last n k v)
                    (λ m c. record { at = n.current_size - 1; place = rw (← same) g; cells = c })
                    (insert_last-Adopted n k v has room))
            | inr early ↦
                simp (e, early)
                  (Returns-mono (Adopted n k v at) (AdoptedInOrder n k v) (insert_inside n k v at)
                    (λ m c. record { at = at; place = g; cells = c })
                    (insert_inside-Adopted n k v at room (ground (arith, g.0))))
          ]))
