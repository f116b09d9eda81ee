-- ===== src/Leaf.antt =====
-- include/b_plus_tree/b_plus_tree_node.hpp: the leaf node of the B+ tree.
-- A node is its header and the cells of its two arrays, as functions of the index: every access goes
-- through `indexes` and `records`, which assert `index < max_size`. The key and value types are
-- parameters. A key type has finitely many values, so its order is that of a rank. The loops of the
-- binary searches take `current_size` rounds of fuel.
pub mod Search
pub mod Lookup
pub mod Insert
pub mod Split
mod Examples
use hivedb.Base.{
  ℕ, zero, suc, ◌+◌, ◌-◌, ◌*◌, ◌/◌, ◌%◌, Bool, true, false, Option, none, some, ℤ, pos, negsuc, ltb,
  leb, ◌==◌, if◌then◌else◌, Outcome, ok, fails, ◌>>=◌, ◌>>◌, require, assertion, out_of_fuel, not,
  ◌&&◌,
}

pub data NodeType : Type 0 where
  leaf_node inner_node : NodeType

-- The concept `index_t`: the order of the keys, and the key that stands for none.
pub record IndexKey (K : Type 0) : Type 0 where
  pub rank : K → ℕ
  pub invalid_key : K

-- The tests `a > b`, `a >= b` and `a == b` on keys.
module _ {K : Type 0} (key : IndexKey K) where
  abbrev pub gt : K → K → Bool
  gt a b = ltb (key.rank b) (key.rank a)

  abbrev pub ge : K → K → Bool
  ge a b = leb (key.rank b) (key.rank a)

  abbrev pub eq : K → K → Bool
  eq a b = key.rank a == key.rank b

pub record Leaf (K V : Type 0) : Type 0 where
  pub node_type : NodeType
  pub max_size : ℕ
  pub current_size : ℕ
  pub next_page_id : ℤ
  pub keys : ℕ → K
  pub values : ℕ → V

-- A write to one cell.
abbrev pub update {ℓ} : {A : Type ℓ} → (ℕ → A) → ℕ → A → ℕ → A
update f i a j = if i == j then a else f j

module _ {K V : Type 0} where
  abbrev pub can_insert_trivially : Leaf K V → Bool
  can_insert_trivially n = ltb n.current_size n.max_size

  abbrev pub should_split : Leaf K V → Bool
  should_split n = n.current_size == n.max_size

  -- `*indexes(i)` and `*records(i)`, read and written.
  abbrev pub indexes : Leaf K V → ℕ → Outcome K
  indexes n i = do require (ltb i n.max_size) assertion; ok (n.keys i)

  abbrev pub records : Leaf K V → ℕ → Outcome V
  records n i = do require (ltb i n.max_size) assertion; ok (n.values i)

  abbrev pub put : Leaf K V → ℕ → K → V → Outcome (Leaf K V)
  put n i k v = do
    require (ltb i n.max_size) assertion
    ok (record n { keys = update n.keys i k; values = update n.values i v })

module _ {K V : Type 0} (key : IndexKey K) where
  -- `while (idx != current_size)`, with the rounds that are left.
  unfoldable pub linear_search : Leaf K V → K → ℕ → ℕ → Outcome ℕ
  linear_search n k idx zero = ok idx
  linear_search n k idx (suc left) =
      let rest = linear_search n k (idx + 1) left in
      do x ← indexes n idx; if gt key x k then ok idx else rest

  -- The `while (high > low)` of `find_index_for_insert`.
  unfoldable pub insert_loop : ℕ → Leaf K V → K → ℕ → ℕ → Outcome ℕ
  insert_loop zero n k low high = fails out_of_fuel
  insert_loop (suc fuel) n k low high =
      let middle = (high + low) / 2 in
      let lower = insert_loop fuel n k low middle in
      let upper = insert_loop fuel n k (middle + 1) high in
      let round = (do x ← indexes n middle; if ge key x k then lower else upper) in
      if ltb low high then round else ok low

  binary_insert : Leaf K V → K → Outcome ℕ
  binary_insert n k = do
    let high = n.current_size - 1
    x ← indexes n high
    if gt key k x
        then ok n.current_size
        else do require (ltb 0 high) assertion; insert_loop n.current_size n k 0 high

  unfoldable pub find_index_for_insert : Leaf K V → K → Outcome ℕ
  unfolding binary_insert
  find_index_for_insert n k = do
    require (can_insert_trivially n) assertion
    if ltb n.current_size 5 then linear_search n k 0 n.current_size else binary_insert n k

  -- The `while (high > low)` of `find_index`, with the `middle` that it leaves. Where `middle - 1` is
  -- 0 here and -1 in the code, `low` is 0: both end the loop, and the next `middle` is 0 in both.
  unfoldable pub find_loop : ℕ → Leaf K V → K → ℕ → ℕ → Outcome ℕ
  find_loop zero n k low high = fails out_of_fuel
  find_loop (suc fuel) n k low high =
      let middle = (high + low) / 2 in
      let lower = find_loop fuel n k low (middle - 1) in
      let upper = find_loop fuel n k (middle + 1) high in
      let round = (do
        x ← indexes n middle
        if eq key x k then ok middle else (if gt key x k then lower else upper)) in
      if ltb low high then round else ok middle

  unfoldable pub find_index : Leaf K V → K → Outcome (Option ℕ)
  find_index n k = do
    require (ltb 0 n.current_size) assertion
    middle ← find_loop n.current_size n k 0 (n.current_size - 1)
    x ← indexes n middle
    ok (if not (eq key x k) then none else some middle)

  -- What `b_plus_tree::find` does at a leaf: the value of the key, if it is there.
  unfoldable pub find_value : Leaf K V → K → Outcome (Option V)
  find_value n k = do
    idx ← find_index n k
    elim idx [ none ↦ ok none | some i ↦ (do v ← records n i; ok (some v)) ]

module _ {K V : Type 0} where
  -- `for (i = current_size; i > where; --i)`: the cell `i - 1` goes to `i`. With `left` rounds to go,
  -- `i` is `where + left`.
  unfoldable pub shift : ℕ → ℕ → Leaf K V → Outcome (Leaf K V)
  shift zero at n = ok n
  shift (suc left) at n = do
    k ← indexes n (at + left)
    v ← records n (at + left)
    n' ← put n (at + left + 1) k v
    shift left at n'

module _ {K V : Type 0} (key : IndexKey K) where
  -- The insertion at a given index. At the end of the node the loop has no rounds; the code returns
  -- before it, with the same writes.
  insert_at : Leaf K V → K → V → ℕ → Outcome (Leaf K V)
  insert_at n k v at =
      if at == n.current_size
      then (do n' ← put n at k v; ok (record n' { current_size = n.current_size + 1 }))
      else (do
        n' ← shift (n.current_size - at) at n
        n'' ← put n' at k v
        ok (record n'' { current_size = n.current_size + 1 }))

  unfoldable pub trivial_insert : Leaf K V → K → V → Option ℕ → Outcome (Leaf K V)
  unfolding insert_at
  trivial_insert n k v where_to = do
    require (can_insert_trivially n) assertion
    at ← elim where_to [ some i ↦ ok i | none ↦ find_index_for_insert key n k ]
    require (leb at n.current_size) assertion
    insert_at n k v at

  -- MAX_NUMBER_OF_ELEMENTS is `max`; `page` is the node that the constructor read from the buffer.
  unfoldable pub init_first_node : ℕ → Leaf K V → K → V → Outcome (Leaf K V)
  init_first_node max page k v =
      put
        (record page {
          max_size = max;
          current_size = 1;
          next_page_id = negsuc 0;
          node_type = leaf_node;
        })
        0 k v

module _ {K V : Type 0} where
  -- `std::copy(indexes(first), indexes(last), new.indexes(0))` for both arrays, with the cells copied
  -- one by one; the bounds are asserted before it.
  unfoldable pub copy_cells : ℕ → ℕ → Leaf K V → Leaf K V → Leaf K V
  copy_cells zero first n m = m
  copy_cells (suc left) first n m =
      let m' = copy_cells left first n m in
      record m' {
        keys = update m'.keys left (n.keys (first + left));
        values = update m'.values left (n.values (first + left));
      }

  -- `std::for_each` over `[first, first + left)`.
  unfoldable pub clear_cells : K → V → ℕ → ℕ → Leaf K V → Leaf K V
  clear_cells k v zero first n = n
  clear_cells k v (suc left) first n =
      let n' = clear_cells k v left first n in
      record n' {
        keys = update n'.keys (first + left) k;
        values = update n'.values (first + left) v;
      }

  -- `split_node`: the node and the new one, with `max` for MAX_NUMBER_OF_ELEMENTS, by whose parity
  -- the constant `something_to_be_renamed` goes.
  unfoldable pub split_node : ℕ → K → V → Leaf K V → Leaf K V → ℤ → Outcome (Leaf K V × Leaf K V)
  split_node max no_key no_value n new_node new_page_id = do
    require (should_split n) assertion
    let parity = (max + 1) % 2
    let half = n.max_size / 2
    let m = record new_node { node_type = leaf_node; max_size = n.current_size }
    let last = n.max_size - 1
    require (ltb half n.max_size && ltb last n.max_size && ltb 0 m.max_size) assertion
    let copied = copy_cells (last - half) half n m
    k ← indexes n last
    v ← records n last
    filled ← put copied (half - parity) k v
    let cleared = clear_cells no_key no_value (last - half) half n
    let size = n.current_size / 2
    ok (
      record cleared { current_size = size; next_page_id = new_page_id },
      record filled { current_size = size + (parity + 1) % 2 },
    )
