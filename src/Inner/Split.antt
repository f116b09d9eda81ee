-- ===== src/Inner/Split.antt =====
-- `split_node` of the inner node: the children above the middle go to the new node.
use hivedb.Base.{
  ℕ, ◌+◌, ◌-◌, ◌/◌, ◌%◌, ◌^◌, ◌≤◌, ◌<◌, ◌≡◌, refl, true, ℤ, arith, ltb, ◌==◌, Returns,
}
use hivedb.Leaf.{Leaf, inner_node, copy_cells}
use hivedb.Leaf.Split.{copy_cells_at, copy_cells_header, clear_cells_below, clear_cells_header}
use hivedb.Inner.{Inner, minus, split_node}
use hivedb.Inner.Search.{minus_lem}

module _ {K V : Type 0} where
  -- The two nodes after a split of `n`.
  pub record Parts (n : Inner K V) (previous_page : ℤ) (a b : Inner K V) : Type 0 where
    pub lower_size : a.current_size ≡ n.max_size / 2 + 1
    pub sizes : a.current_size + b.current_size ≡ n.current_size
    pub max_sizes : (a.max_size ≡ n.max_size) × (b.max_size ≡ n.max_size)
    pub is_inner : b.node_type ≡ inner_node
    pub previous : b.next_page_id ≡ previous_page
    pub lower : (i : ℕ) → i < a.current_size → (a.keys i ≡ n.keys i) × (a.values i ≡ n.values i)
    pub upper :
        (i : ℕ)
        → i < b.current_size
        → (b.keys i ≡ n.keys (a.current_size + i)) × (b.values i ≡ n.values (a.current_size + i))

  abbrev pub PartsOf : Inner K V → ℤ → Inner K V × Inner K V → Type 0
  PartsOf n id (a, b) = Parts n id a b

  -- With at least three cells to a node, `split_node` of a full inner node returns, with no failed
  -- assertion: one child more than half stays, the rest is in the new node in the same order, whether
  -- the number of cells is even or odd.
  pub split_node-Parts :
      (max : ℕ) (no_key : K) (no_value : V) (n page : Inner K V) (previous_page : ℤ)
      → 3 ≤ max
      → max < 2 ^ 64
      → n.max_size ≡ max
      → n.current_size ≡ n.max_size
      → Returns (split_node max no_key no_value n page previous_page) (PartsOf n previous_page)
  unfolding split_node
  split_node-Parts max no_key no_value n page previous_page three wide full_max full =
      let half = n.max_size / 2 in
      let last = n.max_size - 1 in
      let spare = 2 - max % 2 in
      let m : Leaf K V = record page { node_type = inner_node; max_size = n.max_size } in
      let is_full : (n.current_size == n.max_size) ≡ true = ground arith in
      let in_half : ltb (half + 1) n.max_size ≡ true = ground arith in
      let in_last : ltb last n.max_size ≡ true = ground arith in
      let in_new : ltb 0 n.max_size ≡ true = ground arith in
      let to_last : minus n.max_size 1 ≡ last =
        minus_lem n.max_size 1 (omega arith) (omega arith) in
      let to_end : minus half spare ≡ half - spare =
        minus_lem half spare (omega arith) (omega arith) in
      let left : minus (n.current_size / 2 + 1) spare ≡ n.current_size / 2 + 1 - spare =
        minus_lem (n.current_size / 2 + 1) spare (omega arith) (omega arith) in
      let header = copy_cells_header (last - (half + 1)) (half + 1) n m in
      let in_put : ltb (half - spare) (copy_cells (last - (half + 1)) (half + 1) n m).max_size
          ≡ true =
        ground (arith, header.0) in
      simp (is_full, to_last, to_end, left, in_half, in_last, in_new, in_put)
        (record {
          lower_size = omega arith;
          sizes = omega arith;
          max_sizes = (
            (clear_cells_header no_key no_value (last - (half + 1)) (half + 1) n).0,
            ground (arith, header.0),
          );
          is_inner = header.1;
          previous = refl;
          lower = λ i h.
              clear_cells_below no_key no_value (last - (half + 1)) (half + 1) n i (ground arith);
          upper = λ i h. ground (arith, copy_cells_at (last - (half + 1)) (half + 1) n m i);
        })
