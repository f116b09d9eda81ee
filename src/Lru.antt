-- ===== src/Lru.antt =====
-- include/buffer_pool/lru_k.hpp and src/buffer_pool/lru_k.cpp: the LRU-k replacer.
-- Frame ids are the indices of a frame vector, so they are natural numbers; INVALID_FRAME_ID is
-- `none`. Timestamps and sizes are 64-bit, with their wrap-around written out. The log lines are
-- left out.
pub mod Invariant
pub mod Victim
pub mod Evict
pub mod Size
pub mod Runs
pub mod Status
mod Examples
use hivedb.Base.{
  ℕ, ◌+◌, ◌-◌, ◌/◌, ◌%◌, ◌^◌, Bool, true, false, ◌&&◌, Option, none, some, List, [], ◌∷◌, ◌++◌, ℤ,
  pos, is_negative, ◌||◌, ltb, leb, if◌then◌else◌, length, get_elem?, Outcome, ok, fails, ◌>>=◌,
  ◌>>◌, require, invalid_argument, out_of_bounds, or_fail, lookup, insert, assign, erase, not,
  pos_part,
}

abbrev pub u64_mod : ℕ
u64_mod = 2 ^ 64

abbrev pub u32_mod : ℕ
u32_mod = 2 ^ 32

pub record LruKNode : Type 0 where
  pub history : List ℕ
  pub is_evictable : Bool

pub record LruK : Type 0 where
  pub k : ℕ
  pub size : ℕ
  pub current_nodes : List (ℕ × LruKNode)
  pub current_timestamp : ℕ

-- The constructor, from the signed arguments.
unfoldable pub make : ℤ → ℤ → Outcome LruK
make k size = do
  require (not (is_negative k || is_negative size)) invalid_argument
  ok (record { k = pos_part k; size = pos_part size; current_nodes = []; current_timestamp = 0 })

-- `m_current_timestamp++`, on a uint64.
abbrev pub tick : ℕ → ℕ
tick t = (t + 1) % u64_mod

pub touch : LruK → ℕ → Option LruKNode → LruK
touch l id none = record l {
  current_nodes =
      insert id (record { history = l.current_timestamp ∷ []; is_evictable = true })
        l.current_nodes;
  current_timestamp = tick l.current_timestamp;
}
touch l id (some node) = record l {
  current_nodes =
      assign id (record node { history = node.history ++ l.current_timestamp ∷ [] })
        l.current_nodes;
  current_timestamp = tick l.current_timestamp;
}

unfoldable pub record_access : LruK → ℕ → Outcome LruK
unfolding touch
record_access l id =
    if leb l.size id then fails invalid_argument else ok (touch l id (lookup id l.current_nodes))

pub mark : LruK → ℕ → Bool → Option LruKNode → LruK
mark l id b none = l
mark l id b (some node) = record l {
  current_nodes = assign id (record node { is_evictable = b }) l.current_nodes;
}

unfoldable pub set_evictable : LruK → ℕ → Bool → Outcome LruK
unfolding mark
set_evictable l id b =
    if leb l.size id then fails invalid_argument else ok (mark l id b (lookup id l.current_nodes))

pub drop_node : LruK → ℕ → Option LruKNode → LruK
drop_node l id none = l
drop_node l id (some node) =
    if node.is_evictable then record l { current_nodes = erase id l.current_nodes } else l

unfoldable pub remove : LruK → ℕ → Outcome LruK
unfolding drop_node
remove l id =
    if leb l.size id
    then fails invalid_argument
    else ok (drop_node l id (lookup id l.current_nodes))

-- The `find_if` of `evict`: the first evictable node with fewer than `k` accesses.
pub find_trivial : ℕ → List (ℕ × LruKNode) → Option ℕ
find_trivial k [] = none
find_trivial k ((id, node) ∷ rest) =
    if node.is_evictable && ltb (length node.history) k then some id else find_trivial k rest

-- `node.history[node.history.size() + 1 - k]`, with the index in 64 bits.
pub old_timestamp : ℕ → LruKNode → Option ℕ
old_timestamp k node = get_elem? node.history ((length node.history + 1 + u64_mod - k) % u64_mod)

-- What the scan carries: `max_distance` and `id`.
pub record Best : Type 0 where
  pub max_distance : ℕ
  pub id : Option ℕ

pub improve : Best → ℕ → ℕ → Best
improve b id diff =
    if ltb b.max_distance diff then record { max_distance = diff; id = some id } else b

-- The range-for over the nodes.
pub scan : ℕ → ℕ → List (ℕ × LruKNode) → Best → Outcome Best
unfolding improve old_timestamp
scan k now [] b = ok b
scan k now ((id, node) ∷ rest) b =
    let visit = do
      old ← or_fail (old_timestamp k node) out_of_bounds
      scan k now rest (improve b id ((now + u64_mod - old) % u64_mod))
    in let next = scan k now rest b in if node.is_evictable then visit else next

pub take_out : LruK → Option ℕ → LruK × Option ℕ
take_out l none = (l, none)
take_out l (some id) = (record l { current_nodes = erase id l.current_nodes }, some id)

pub evict_from : LruK → Option ℕ → Outcome (LruK × Option ℕ)
unfolding take_out
evict_from l (some id) = ok (take_out l (some id))
evict_from l none = do
  b ← scan l.k l.current_timestamp l.current_nodes (record { max_distance = 0; id = none })
  ok (take_out l b.id)

-- The test for an empty map comes first.
unfoldable pub evict : LruK → Outcome (LruK × Option ℕ)
unfolding evict_from
evict l = elim l.current_nodes [
  | [] ↦ ok (l, none)
  | _ ∷ _ ↦ evict_from l (find_trivial l.k l.current_nodes)
]

-- The sum of `size` is an int, here its 32-bit pattern. Its overflow, which is undefined, wraps around here.
unfoldable pub count_evictable : ℕ → List (ℕ × LruKNode) → ℕ
count_evictable acc [] = acc
count_evictable acc ((id, node) ∷ rest) =
    count_evictable (if node.is_evictable then (acc + 1) % u32_mod else acc) rest

-- The conversion of an int to `size_t`.
abbrev pub int_to_size : ℕ → ℕ
int_to_size w = if ltb w (u32_mod / 2) then w else w + (u64_mod - u32_mod)

-- The number of evictable frames.
unfoldable pub size : LruK → ℕ
unfolding count_evictable
size l = int_to_size (count_evictable 0 l.current_nodes)
