-- ===== src/Inner.antt =====
-- include/b_plus_tree/b_plus_tree_node.hpp: the inner node of the B+ tree.
-- An inner node has the shape of a leaf: its previous_page_id stands in the fourth field of the header,
-- and its page ids in the second array. Its last key is no key ("nil"), so `current_size - 1` keys part
-- the children.
pub mod Search
pub mod Insert
pub mod Split
mod Examples
use hivedb.Base.{
  ℕ, zero, suc, ◌+◌, ◌-◌, ◌/◌, ◌%◌, ◌^◌, Bool, true, false, ◌&&◌, ℤ, ltb, leb, ◌==◌, if◌then◌else◌,
  Outcome, ok, fails, ◌>>=◌, ◌>>◌, require, assertion, out_of_fuel,
}
use hivedb.Leaf.{
  IndexKey, Leaf, inner_node, gt, ge, can_insert_trivially, should_split, indexes, records, put,
  shift, copy_cells, clear_cells,
}

abbrev pub Inner : Type 0 → Type 0 → Type 0
Inner K V = Leaf K V

-- The arithmetic of std::uint64_t below 0: `a - b`.
abbrev pub minus : ℕ → ℕ → ℕ
minus a b = (a + 2 ^ 64 - b) % 2 ^ 64

module _ {K V : Type 0} where
  abbrev pub page_ids : Inner K V → ℕ → Outcome V
  page_ids n i = records n i

  unfoldable pub append : Inner K V → K → V → Outcome (Inner K V)
  append n k v = do
    require (can_insert_trivially n) assertion
    n' ← put n (minus n.current_size 1) k v
    ok (record n' { current_size = n.current_size + 1 })

  -- `std::swap(*page_ids(i), *page_ids(j))`, both of which were bounds checked with the keys.
  unfoldable pub swap_pages : Inner K V → ℕ → ℕ → Outcome (Inner K V)
  swap_pages n i j = do
    a ← page_ids n i
    b ← page_ids n j
    k ← indexes n i
    l ← indexes n j
    n' ← put n i k b
    put n' j l a

  -- The insertion before the last cell.
  unfoldable pub insert_last : Inner K V → K → V → Outcome (Inner K V)
  insert_last n k v = do
    let last = minus n.current_size 1
    l ← indexes n last
    w ← page_ids n last
    m ← put n n.current_size l w
    m' ← put m last k v
    swap_pages (record m' { current_size = n.current_size + 1 }) last n.current_size

  unfoldable pub insert_inside : Inner K V → K → V → ℕ → Outcome (Inner K V)
  insert_inside n k v at = do
    m ← shift (n.current_size - at) at n
    m' ← put m at k v
    require (ltb (at + 1) n.current_size) assertion
    s ← swap_pages m' at (at + 1)
    ok (record s { current_size = n.current_size + 1 })

module _ {K V : Type 0} (key : IndexKey K) where
  -- `while (idx != current_size - 1)`.
  unfoldable pub linear_loop : ℕ → Inner K V → K → ℕ → Outcome ℕ
  linear_loop zero n k idx = fails out_of_fuel
  linear_loop (suc fuel) n k idx =
      let rest = linear_loop fuel n k (idx + 1) in
      let round = (do x ← indexes n idx; if gt key x k then ok idx else rest) in
      if idx == minus n.current_size 1 then ok idx else round

  -- The `while (high > low)` of `find_index_for_insert`.
  unfoldable pub insert_loop : ℕ → Inner K V → K → ℕ → ℕ → Outcome ℕ
  insert_loop zero n k low high = fails out_of_fuel
  insert_loop (suc fuel) n k low high =
      let middle = (high + low) / 2 in
      let lower = insert_loop fuel n k low middle in
      let upper = insert_loop fuel n k (middle + 1) high in
      let round = (do x ← indexes n middle; if ge key x k then lower else upper) in
      if ltb low high then round else ok low

  unfoldable pub binary_insert : Inner K V → K → Outcome ℕ
  binary_insert n k = do
    let high = n.current_size - 2
    x ← indexes n high
    if gt key k x
        then ok (n.current_size - 1)
        else do require (ltb 0 high) assertion; insert_loop n.current_size n k 0 high

  unfoldable pub find_index_for_insert : Inner K V → K → Outcome ℕ
  find_index_for_insert n k = do
    require (can_insert_trivially n) assertion
    if ltb n.current_size 5 then linear_loop (n.max_size + 1) n k 0 else binary_insert n k

  -- The `while (high > low)` of `find_index`.
  unfoldable pub find_loop : ℕ → Inner K V → K → ℕ → ℕ → Outcome ℕ
  find_loop zero n k low high = fails out_of_fuel
  find_loop (suc fuel) n k low high =
      let middle = (high + low) / 2 in
      let lower = find_loop fuel n k low middle in
      let upper = find_loop fuel n k (middle + 1) high in
      let round = (do x ← indexes n middle; if gt key x k then lower else upper) in
      if ltb low high then round else ok low

  -- With one child `high` is -1, an index that `indexes` refuses.
  unfoldable pub find_index : Inner K V → K → Outcome ℕ
  find_index n k = do
    require (ltb 0 n.current_size) assertion
    let high = minus n.current_size 2
    x ← indexes n high
    if ge key k x then ok (n.current_size - 1) else find_loop n.current_size n k 0 high

  -- The first key of the new leaf is the new key.
  unfoldable pub trivial_insert_leaf_node :
      {U : Type 0} → Inner K V → V → Leaf K U → Outcome (Inner K V)
  trivial_insert_leaf_node n v leaf = do
    require (can_insert_trivially n) assertion
    k ← indexes leaf 0
    at ← find_index_for_insert n k
    if at == minus n.current_size 1 then insert_last n k v else insert_inside n k v at

module _ {K V : Type 0} where
  -- Both assertions come first, and the second always fails.
  unfoldable pub trivial_insert_inner_node : Inner K V → Outcome (Inner K V)
  trivial_insert_inner_node n = do require (can_insert_trivially n) assertion; fails assertion

  -- `split_node`: the node and the new one, with `max` for MAX_NUMBER_OF_ELEMENTS, by whose parity
  -- the constant `something_to_be_renamed` goes.
  unfoldable pub split_node :
      ℕ → K → V → Inner K V → Inner K V → ℤ → Outcome (Inner K V × Inner K V)
  split_node max no_key no_value n new_node previous_page = do
    require (should_split n) assertion
    let spare = 2 - max % 2
    let half = n.max_size / 2
    let last = minus n.max_size 1
    let m = record new_node { node_type = inner_node; max_size = n.max_size }
    require (ltb (half + 1) n.max_size && ltb last n.max_size && ltb 0 m.max_size) assertion
    let copied = copy_cells (last - (half + 1)) (half + 1) n m
    k ← indexes n last
    v ← page_ids n last
    filled ← put copied (minus half spare) k v
    let cleared = clear_cells no_key no_value (last - (half + 1)) (half + 1) n
    let size = n.current_size / 2 + 1
    ok (
      record cleared { current_size = size },
      record filled { current_size = minus size spare; next_page_id = previous_page },
    )
