-- ===== src/Leaf/Split.antt =====
-- `split_node` of the leaf: the upper half goes to the new node.
use hivedb.Base.{
  ℕ, zero, suc, ◌+◌, ◌-◌, ◌/◌, ◌%◌, ◌≤◌, ◌<◌, ◌≡◌, refl, true, ℤ, arith, ltb, ◌==◌, if◌then◌else◌,
  Returns,
}
use hivedb.Leaf.{Leaf, leaf_node, copy_cells, clear_cells, split_node}

module _ {K V : Type 0} where
  pub copy_cells_at :
      (left first : ℕ) (n m : Leaf K V) (j : ℕ)
      → ((copy_cells left first n m).keys j ≡ (if ltb j left then n.keys (first + j) else m.keys j))
        × ((copy_cells left first n m).values j
            ≡ (if ltb j left then n.values (first + j) else m.values j))
  unfolding copy_cells
  copy_cells_at zero first n m j = ground arith
  copy_cells_at (suc left) first n m j = ground (arith, copy_cells_at left first n m j)

  pub copy_cells_header :
      (left first : ℕ) (n m : Leaf K V)
      → ((copy_cells left first n m).max_size ≡ m.max_size)
        × ((copy_cells left first n m).node_type ≡ m.node_type)
        × ((copy_cells left first n m).next_page_id ≡ m.next_page_id)
  unfolding copy_cells
  copy_cells_header zero first n m = (refl, refl, refl)
  copy_cells_header (suc left) first n m = copy_cells_header left first n m

  pub clear_cells_below :
      (k : K) (v : V) (left first : ℕ) (n : Leaf K V) (j : ℕ)
      → j < first
      → ((clear_cells k v left first n).keys j ≡ n.keys j)
        × ((clear_cells k v left first n).values j ≡ n.values j)
  unfolding clear_cells
  clear_cells_below k v zero first n j h = (refl, refl)
  clear_cells_below k v (suc left) first n j h =
      ground (arith, clear_cells_below k v left first n j h)

  pub clear_cells_header :
      (k : K) (v : V) (left first : ℕ) (n : Leaf K V)
      → ((clear_cells k v left first n).max_size ≡ n.max_size)
        × ((clear_cells k v left first n).node_type ≡ n.node_type)
  unfolding clear_cells
  clear_cells_header k v zero first n = (refl, refl)
  clear_cells_header k v (suc left) first n = clear_cells_header k v left first n

  -- The two nodes after a split of `n`, with `page` for the new node's buffer: the sizes add up, the
  -- lower cells stay, and the upper cells are those of the new node, in order.
  pub record Halves (n page : Leaf K V) (new_page_id : ℤ) (a b : Leaf K V) : Type 0 where
    pub lower_size : a.current_size ≡ n.max_size / 2
    pub sizes : a.current_size + b.current_size ≡ n.current_size
    pub max_sizes : (a.max_size ≡ n.max_size) × (b.max_size ≡ n.max_size)
    pub is_leaf : b.node_type ≡ leaf_node
    pub link : a.next_page_id ≡ new_page_id
    pub stale_link : b.next_page_id ≡ page.next_page_id
    pub lower : (i : ℕ) → i < a.current_size → (a.keys i ≡ n.keys i) × (a.values i ≡ n.values i)
    pub upper :
        (i : ℕ)
        → i < b.current_size
        → (b.keys i ≡ n.keys (a.current_size + i)) × (b.values i ≡ n.values (a.current_size + i))

  abbrev pub HalvesOf : Leaf K V → Leaf K V → ℤ → Leaf K V × Leaf K V → Type 0
  HalvesOf n page id (a, b) = Halves n page id a b

  -- With at least two cells to a node, `split_node` of a full leaf returns, with no failed assertion:
  -- the lower half stays, the rest is in the new node in the same order, whether the number of cells
  -- is even or odd. The node's link goes to the new page; the new node's own link is what the new
  -- page held before.
  pub split_node-Halves :
      (max : ℕ) (no_key : K) (no_value : V) (n page : Leaf K V) (new_page_id : ℤ)
      → 2 ≤ max
      → n.max_size ≡ max
      → n.current_size ≡ n.max_size
      → Returns (split_node max no_key no_value n page new_page_id) (HalvesOf n page new_page_id)
  unfolding split_node
  split_node-Halves max no_key no_value n page new_page_id two full_max full =
      let half = n.max_size / 2 in
      let last = n.max_size - 1 in
      let parity = (max + 1) % 2 in
      let m : Leaf K V = record page { node_type = leaf_node; max_size = n.current_size } in
      let is_full : (n.current_size == n.max_size) ≡ true = ground arith in
      let in_half : ltb half n.max_size ≡ true = ground arith in
      let in_last : ltb last n.max_size ≡ true = ground arith in
      let in_new : ltb 0 n.current_size ≡ true = ground arith in
      let header = copy_cells_header (last - half) half n m in
      let in_put : ltb (half - parity) (copy_cells (last - half) half n m).max_size ≡ true =
        ground (arith, header.0) in
      simp (is_full, in_half, in_last, in_new, in_put)
        (record {
          lower_size = omega arith;
          sizes = omega arith;
          max_sizes = (
            (clear_cells_header no_key no_value (last - half) half n).0,
            ground (arith, header.0),
          );
          is_leaf = header.1;
          link = refl;
          stale_link = header.2;
          lower = λ i h. clear_cells_below no_key no_value (last - half) half n i (ground arith);
          upper = λ i h. ground (arith, copy_cells_at (last - half) half n m i);
        })
