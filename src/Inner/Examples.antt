-- ===== src/Inner/Examples.antt =====
-- The theorems on the inner node at concrete nodes, with numbers for keys and page ids.
use hivedb.Base.{ℕ, ◌+◌, ◌*◌, arith, refl, Returns, pos, negsuc}
use hivedb.Leaf.{IndexKey, Leaf, leaf_node, inner_node}
use hivedb.Inner.{Inner, find_index, find_index_for_insert, trivial_insert_leaf_node, split_node}
use hivedb.Inner.Search.{
  HasChildren, PartsSorted, IsChild, IsGap, find_index-IsChild, find_index_for_insert-IsGap,
}
use hivedb.Inner.Insert.{AdoptedInOrder, trivial_insert_leaf_node-AdoptedInOrder}
use hivedb.Inner.Split.{PartsOf, split_node-Parts}

abbrev plain : IndexKey ℕ
plain = record { rank = λ k. k; invalid_key = 0 }

-- Six children, parted by the keys 10, 20, ..., 50, with room for two more.
abbrev six : Inner ℕ ℕ
six = record {
  node_type = inner_node;
  max_size = 8;
  current_size = 6;
  next_page_id = negsuc 0;
  keys = λ i. 10 * (i + 1);
  values = λ i. 100 + i;
}

six-PartsSorted : PartsSorted plain six
six-PartsSorted i j h b = omega arith

six-HasChildren : HasChildren six
six-HasChildren = record { two = omega arith; fits = omega arith; wide = omega arith }

-- The new leaf of a split, with the key 35 first.
abbrev new_leaf : Leaf ℕ ℕ
new_leaf = record {
  node_type = leaf_node;
  max_size = 4;
  current_size = 2;
  next_page_id = negsuc 0;
  keys = λ i. 35 + i;
  values = λ i. i;
}

find_index-IsChild_example : Returns (find_index plain six 30) (IsChild plain six 30)
find_index-IsChild_example = find_index-IsChild plain six 30 six-PartsSorted six-HasChildren

find_index_for_insert-IsGap_example :
    Returns (find_index_for_insert plain six 35) (IsGap plain six 35)
find_index_for_insert-IsGap_example =
    find_index_for_insert-IsGap plain six 35 six-PartsSorted six-HasChildren (omega arith)

trivial_insert_leaf_node-AdoptedInOrder_example :
    Returns (trivial_insert_leaf_node plain six 777 new_leaf) (AdoptedInOrder plain six 35 777)
trivial_insert_leaf_node-AdoptedInOrder_example =
    trivial_insert_leaf_node-AdoptedInOrder plain six 777 new_leaf six-PartsSorted six-HasChildren
      (omega arith) (omega arith)

abbrev full_inner : Inner ℕ ℕ
full_inner = record six { current_size = 8 }

split_node-Parts_example :
    Returns (split_node 8 0 0 full_inner six (pos 4)) (PartsOf full_inner (pos 4))
split_node-Parts_example =
    split_node-Parts 8 0 0 full_inner six (pos 4) (omega arith) (omega arith) refl refl
