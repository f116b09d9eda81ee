-- ===== src/Lru/Size.antt =====
-- `lru_k::size`, how the operations change it, and `evict` where `k` is too small for its index.
use hivedb.Base.{
  ℕ, ◌+◌, ◌-◌, ◌/◌, ◌%◌, ◌≤◌, ◌<◌, ◌≡◌, refl, true, false, Option, none, some, List, [], ◌∷◌, arith,
  length, get_elem?_outside, fails, out_of_bounds, Returns, Returns-mono, lookup, insert, assign,
  erase, Every, Bool-cases, one_if, ◌∙◌, ap, ◌⊎◌, inl, inr,
}
use hivedb.Lru.{
  LruK, LruKNode, Best, u64_mod, u32_mod, find_trivial, old_timestamp, scan, evict_from, evict,
  size, count_evictable,
}
use hivedb.Lru.Invariant.{NodeIsValid, IsValid, HasTime}
use hivedb.Lru.Victim.{At, Rises-length}
use hivedb.Lru.Evict.{Evicts, IsFirstTrivial, IsOldest, without, evict-Evicts, evict-eq-evict_from}

-- The number of evictable nodes, by structure.
abbrev pub evictables : List (ℕ × LruKNode) → ℕ
evictables [] = 0
evictables ((id, node) ∷ rest) = one_if node.is_evictable + evictables rest

count_evictable-add :
    (acc : ℕ) (m : List (ℕ × LruKNode))
    → acc + evictables m < u32_mod
    → count_evictable acc m ≡ acc + evictables m
unfolding count_evictable
count_evictable-add acc [] h = omega arith
count_evictable-add acc ((id, node) ∷ rest) h =
    ground (arith, count_evictable-add acc rest, count_evictable-add (acc + 1) rest)

-- Where the number is an int, `size` gives it.
pub size-evictables :
    (l : LruK) → evictables l.current_nodes < u32_mod / 2 → size l ≡ evictables l.current_nodes
unfolding size
size-evictables l h = ground (arith, count_evictable-add 0 l.current_nodes (omega arith))

-- `size` counts no more than there is.
pub size_positive : (l : LruK) → 0 < size l → 0 < evictables l.current_nodes
unfolding size
size_positive l h = ground (arith, count_evictable-add 0 l.current_nodes)

evictables-length : (m : List (ℕ × LruKNode)) → evictables m ≤ length m
evictables-length [] = omega arith
evictables-length ((id, node) ∷ rest) = ground (arith, evictables-length rest)

-- The number of frames is an int.
abbrev pub IsCountable : LruK → Type 0
IsCountable l = length l.current_nodes < u32_mod / 2

evictables-erase :
    (id : ℕ) (node : LruKNode) (m : List (ℕ × LruKNode))
    → lookup id m ≡ some node
    → evictables (erase id m) + one_if node.is_evictable ≡ evictables m
unfolding lookup erase
evictables-erase id node [] e = cc
evictables-erase id node ((j, w) ∷ m) e = ground (arith, evictables-erase id node m)

evictables-insert :
    (id : ℕ) (node : LruKNode) (m : List (ℕ × LruKNode))
    → evictables (insert id node m) ≡ one_if node.is_evictable + evictables m
unfolding insert
evictables-insert id node [] = refl
evictables-insert id node ((j, w) ∷ m) = ground (arith, evictables-insert id node m)

evictables-assign :
    (id : ℕ) (node old : LruKNode) (m : List (ℕ × LruKNode))
    → lookup id m ≡ some old
    → evictables (assign id node m) + one_if old.is_evictable
      ≡ evictables m + one_if node.is_evictable
unfolding lookup assign
evictables-assign id node old [] e = cc
evictables-assign id node old ((j, w) ∷ m) e = ground (arith, evictables-assign id node old m)

evictables_none :
    (m : List (ℕ × LruKNode)) → Every (λ j w. w.is_evictable ≡ false) m → evictables m ≡ 0
evictables_none [] a = refl
evictables_none ((j, w) ∷ m) a = rw (a.0) (omega (arith, evictables_none m a.1))

pub victim_evictable :
    (l : LruK) (id : ℕ)
    → IsFirstTrivial l id ⊎ IsOldest l id
    → At id l.current_nodes (λ w. w.is_evictable ≡ true)
victim_evictable l id (inl (at, _)) = (at.0, at.1, at.2.0)
victim_evictable l id (inr (_, _, at, _)) = (at.0, at.1, at.2.0)

-- How the size changes: by nothing if nothing is returned, and then it is 0; by one for a victim.
abbrev pub Shrinks : LruK → LruK × Option ℕ → Type 0
Shrinks l (l', none) = (size l ≡ 0) × (size l' ≡ 0)
Shrinks l (l', some id) = size l' + 1 ≡ size l

Evicts-Shrinks : (l : LruK) (r : LruK × Option ℕ) → IsCountable l → Evicts l r → Shrinks l r
Evicts-Shrinks l (l', none) few (same, idle) =
    let none_left = evictables_none l.current_nodes idle in
    let zero_size : size l ≡ 0 = size-evictables l (omega arith) ∙ none_left in
    (zero_size, rw same zero_size)
Evicts-Shrinks l (l', some id) few (e, choice) =
    let (node, there, ready) = victim_evictable l id choice in
    let less = evictables-erase id node l.current_nodes there in
    let all = evictables-length l.current_nodes in
    let before = size-evictables l (omega arith) in
    let after = size-evictables (without l id) (omega arith) in
    rw (before, e, after) (omega (arith, ap one_if ready))

-- On a valid replacer of fewer than 2^31 frames, with `k` at least 2, `evict` returns nothing only at
-- size 0, and then the size stays 0. A returned frame lowers the size by one.
pub evict-size : (l : LruK) → 2 ≤ l.k → IsValid l → IsCountable l → Returns (evict l) (Shrinks l)
evict-size l two v few =
    Returns-mono _ _ (evict l) (λ r. Evicts-Shrinks l r few) (evict-Evicts l two v)

-- With `k` at most 1 no evictable frame of a valid replacer is trivial or has an old timestamp.
no_trivial :
    (k size now : ℕ) (m : List (ℕ × LruKNode))
    → k ≤ 1
    → Every (NodeIsValid size now) m
    → find_trivial k m ≡ none
unfolding find_trivial
no_trivial k size now [] small v = refl
no_trivial k size now ((j, w) ∷ m) small v =
    ground (arith, v.0.accessed, no_trivial k size now m small v.1)

no_old_timestamp :
    (k : ℕ) (w : LruKNode) → k ≤ 1 → length w.history + 2 ≤ u64_mod → old_timestamp k w ≡ none
unfolding old_timestamp
no_old_timestamp k w small fits =
    get_elem?_outside w.history ((length w.history + 1 + u64_mod - k) % u64_mod) (omega arith)

scan_faults :
    (k size now : ℕ) (m : List (ℕ × LruKNode)) (b : Best)
    → k ≤ 1
    → now + 1 < u64_mod
    → Every (NodeIsValid size now) m
    → 0 < evictables m
    → scan k now m b ≡ fails out_of_bounds
unfolding scan
scan_faults k size now [] b small fits v more = absurd (omega arith)
scan_faults k size now ((j, w) ∷ m) b small fits v more = elim (Bool-cases w.is_evictable) [
  | inl ready ↦
      simp
        (ready, no_old_timestamp k w small (omega (arith, Rises-length 0 now w.history v.0.rises)))
  | inr idle ↦ simp idle (scan_faults k size now m b small fits v.1 (omega (arith, ap one_if idle)))
]

-- With `k` at most 1, `evict` on a valid replacer that has an evictable frame reads a history
-- outside its bounds.
pub evict_faults :
    (l : LruK) → l.k ≤ 1 → IsValid l → HasTime l → 0 < size l → evict l ≡ fails out_of_bounds
evict_faults l small v t more =
    let m = l.current_nodes in
    let faults =
      scan_faults l.k l.size l.current_timestamp m (record { max_distance = 0; id = none }) small t
        v.nodes (size_positive l more) in
    rw (evict-eq-evict_from l, no_trivial l.k l.size l.current_timestamp m small v.nodes)
      (unfold evict_from in rw faults)
