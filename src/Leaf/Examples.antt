-- ===== src/Leaf/Examples.antt =====
-- The theorems on the leaf at concrete nodes, with numbers for keys and values.
use hivedb.Base.{ℕ, ◌≡◌, ◌+◌, ◌*◌, none, some, arith, ok, Returns, pos, negsuc, refl, if◌then◌else◌}
use hivedb.Leaf.{
  IndexKey, Leaf, leaf_node, inner_node, eq, trivial_insert, find_index, find_index_for_insert,
  find_value, split_node,
}
use hivedb.Leaf.Search.{
  IsSorted, IsStrict, IsInsertionPoint, Locates, find_index_for_insert-IsInsertionPoint,
  find_index-Locates,
}
use hivedb.Leaf.Insert.{InsertedInOrder, trivial_insert-InsertedInOrder}
use hivedb.Leaf.Lookup.{IsAbsent, find_value-trivial_insert}
use hivedb.Leaf.Split.{HalvesOf, split_node-Halves}

abbrev natural : IndexKey ℕ
natural = record { rank = λ k. k; invalid_key = 0 }

-- The keys 0, 2, 4, ...
abbrev even_keys : ℕ → ℕ → Leaf ℕ ℕ
even_keys max_size size = record {
  node_type = leaf_node;
  max_size = max_size;
  current_size = size;
  next_page_id = negsuc 0;
  keys = λ i. 2 * i;
  values = λ i. 10 + i;
}

-- Seven keys, with room for one.
abbrev seven : Leaf ℕ ℕ
seven = even_keys 8 7

seven-IsSorted : IsSorted natural seven
seven-IsSorted i j h b = omega arith

seven-IsStrict : IsStrict natural seven
seven-IsStrict i j h b = omega arith

five-IsAbsent : IsAbsent natural seven 5
five-IsAbsent i h e = omega arith

find_index_for_insert-IsInsertionPoint_example :
    Returns (find_index_for_insert natural seven 5) (IsInsertionPoint natural seven 5)
find_index_for_insert-IsInsertionPoint_example =
    find_index_for_insert-IsInsertionPoint natural seven 5 seven-IsSorted (omega arith)
      (omega arith)

find_index-Locates_example : Returns (find_index natural seven 8) (Locates natural seven 8)
find_index-Locates_example =
    find_index-Locates natural seven 8 seven-IsSorted (omega arith) (omega arith)

trivial_insert-InsertedInOrder_example :
    Returns (trivial_insert natural seven 5 99 none) (InsertedInOrder natural seven 5 99)
trivial_insert-InsertedInOrder_example =
    trivial_insert-InsertedInOrder natural seven 5 99 seven-IsSorted (omega arith)

find_value-trivial_insert_example : Returns (trivial_insert natural seven 5 99 none) (λ m.
    IsStrict natural m
    × (find_value natural m 6
        ≡ (if eq natural 6 5 then ok (some 99) else find_value natural seven 6)))
find_value-trivial_insert_example =
    find_value-trivial_insert natural seven 5 99 6 seven-IsStrict five-IsAbsent (omega arith)
      (omega arith)

-- A full leaf with an odd number of cells, and a page that held another node.
abbrev full : Leaf ℕ ℕ
full = even_keys 7 7

abbrev used_page : Leaf ℕ ℕ
used_page = record (even_keys 3 2) { next_page_id = pos 5; node_type = inner_node }

split_node-Halves_example :
    Returns (split_node 7 0 0 full used_page (pos 9)) (HalvesOf full used_page (pos 9))
split_node-Halves_example = split_node-Halves 7 0 0 full used_page (pos 9) (omega arith) refl refl
