-- ===== src/Lru/Evict.antt =====
-- `lru_k::evict` as a whole: it never leaves the history, which frame it takes, and what it leaves.
use hivedb.Base.{
  ℕ, ◌≤◌, ◌≡◌, ◌⊎◌, inl, inr, refl, false, Option, none, some, List, [], ◌∷◌, arith, ok, Returns,
  Returns-mono, Returns-bind, erase, Every, Bool-cases, ap,
}
use hivedb.Lru.{LruK, LruKNode, Best, find_trivial, scan, take_out, evict_from, evict}
use hivedb.Lru.Invariant.{NodeIsValid, IsValid, erase-IsValid}
use hivedb.Lru.Victim.{
  IsTrivial, At, find_trivial-At, IsRipe, find_trivial-none, old_timestamp_past, HasPast, IsWithin,
  IsFarthest, Scanned, scan-Scanned,
}

-- The replacer without the frame `id`.
abbrev pub without : LruK → ℕ → LruK
without l id = record l { current_nodes = erase id l.current_nodes }

-- No node is evictable, and nothing changed.
abbrev pub IsIdle : LruK → LruK → Type 0
IsIdle l l' = (l' ≡ l) × Every (λ j w. w.is_evictable ≡ false) l.current_nodes

-- The victim has fewer than `k` accesses, and no frame of a lesser id has.
abbrev pub IsFirstTrivial : LruK → ℕ → Type 0
IsFirstTrivial l id =
    At id l.current_nodes (IsTrivial l.k) × Every (λ j w. IsTrivial l.k w → id ≤ j) l.current_nodes

-- Every evictable frame has `k` accesses, and the victim's old timestamp is the least.
abbrev pub IsOldest : LruK → ℕ → Type 0
IsOldest l id =
    Every (IsRipe l.k) l.current_nodes
    × (d : ℕ) × At id l.current_nodes (IsFarthest l.k l.current_timestamp d)
    × Every (λ j w. IsWithin l.k l.current_timestamp d w) l.current_nodes

-- What `evict` may return: nothing, or the replacer without the victim.
abbrev pub Evicts : LruK → LruK × Option ℕ → Type 0
Evicts l (l', none) = IsIdle l l'
Evicts l (l', some id) = (l' ≡ without l id) × (IsFirstTrivial l id ⊎ IsOldest l id)

-- After a scan that took up the empty `Best`.
abbrev start : Best
start = record { max_distance = 0; id = none }

HasPast-nodes :
    (l : LruK)
    → 2 ≤ l.k
    → IsValid l
    → Every (IsRipe l.k) l.current_nodes
    → Every (HasPast l.k l.current_timestamp) l.current_nodes
HasPast-nodes l two v ripe = join l.current_nodes v.nodes ripe
  where
    join :
        (m : List (ℕ × LruKNode))
        → Every (NodeIsValid l.size l.current_timestamp) m
        → Every (IsRipe l.k) m
        → Every (HasPast l.k l.current_timestamp) m
    join [] a b = tt
    join ((j, w) ∷ m) a b = (
      (λ e. old_timestamp_past l.k l.size l.current_timestamp j w two v.in_time (b.0 e) a.0),
      join m a.1 b.1,
    )

-- The test for an empty map is an instance of what follows it.
pub evict-eq-evict_from : (l : LruK) → evict l ≡ evict_from l (find_trivial l.k l.current_nodes)
unfolding evict
evict-eq-evict_from l = on_nodes l.current_nodes
  where
    on_nodes :
        (m : List (ℕ × LruKNode))
        → evict (record l { current_nodes = m })
          ≡ evict_from (record l { current_nodes = m }) (find_trivial l.k m)
    on_nodes [] = unfold find_trivial scan take_out in refl
    on_nodes (x ∷ m) = refl

-- A scan that found nothing met no evictable frame.
idle_of_scan :
    (k now : ℕ) (m : List (ℕ × LruKNode))
    → Every (HasPast k now) m
    → Every (λ j w. IsWithin k now 0 w) m
    → Every (λ j w. w.is_evictable ≡ false) m
idle_of_scan k now [] p c = tt
idle_of_scan k now ((j, w) ∷ m) p c = (
  elim (Bool-cases w.is_evictable) [
    | inl e ↦ let past = p.0 e in absurd (omega (arith, past.2, c.0 e past.0 past.1))
    | inr e ↦ e
  ],
  idle_of_scan k now m p.1 c.1,
)

take_out-Evicts :
    (l : LruK) (b : Best)
    → Every (IsRipe l.k) l.current_nodes
    → Every (HasPast l.k l.current_timestamp) l.current_nodes
    → Scanned l.k l.current_timestamp l.current_nodes start b
    → Evicts l (take_out l b.id)
unfolding take_out
take_out-Evicts l b ripe past r = elim r.source [
  | inl same ↦ rw (ap (λ (x : Best). x.id) same) (
    refl,
    idle_of_scan l.k l.current_timestamp l.current_nodes past
        (rw (ap (λ (x : Best). x.max_distance) same) at r.covers),
  )
  | inr (id, found, at, more) ↦ rw found (refl, inr (ripe, b.max_distance, at, r.covers))
]

evict_from-Evicts :
    (l : LruK) (o : Option ℕ)
    → find_trivial l.k l.current_nodes ≡ o
    → 2 ≤ l.k
    → IsValid l
    → Returns (evict_from l o) (Evicts l)
unfolding evict_from
evict_from-Evicts l (some id) e two v =
    (refl, inl (find_trivial-At l.k 0 id l.current_nodes v.ascends e))
evict_from-Evicts l none e two v =
    let ripe = find_trivial-none l.k l.current_nodes e in
    let past = HasPast-nodes l two v ripe in
    Returns-bind (Scanned l.k l.current_timestamp l.current_nodes start) (Evicts l)
      (scan l.k l.current_timestamp l.current_nodes start) (λ b. ok (take_out l b.id))
      (scan-Scanned l.k l.current_timestamp 0 l.current_nodes start v.in_time v.ascends past)
      (λ b r. take_out-Evicts l b ripe past r)

-- With `k` at least 2, `evict` on a valid replacer ends without reading outside a history. It
-- returns nothing, and changes nothing, only if no frame is evictable. Otherwise it takes out
-- exactly the frame that it returns: the least of the evictable frames with fewer than `k`
-- accesses, whenever it was accessed, or, if each evictable frame has `k`, one whose timestamp at
-- `size + 1 - k` is the least.
pub evict-Evicts : (l : LruK) → 2 ≤ l.k → IsValid l → Returns (evict l) (Evicts l)
evict-Evicts l two v =
    rw (evict-eq-evict_from l) (evict_from-Evicts l (find_trivial l.k l.current_nodes) refl two v)

Evicts-IsValid : (l : LruK) (r : LruK × Option ℕ) → IsValid l → Evicts l r → IsValid r.0
Evicts-IsValid l (l', none) v e = rw e.0 v
Evicts-IsValid l (l', some id) v e = rw e.0 (erase-IsValid l id v)

pub evict-IsValid : (l : LruK) → 2 ≤ l.k → IsValid l → Returns (evict l) (λ r. IsValid r.0)
evict-IsValid l two v =
    Returns-mono _ _ (evict l) (λ r. Evicts-IsValid l r v) (evict-Evicts l two v)
