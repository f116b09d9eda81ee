-- ===== src/Lru/Victim.antt =====
-- The two searches of `lru_k::evict`: which node each of them finds.
use hivedb.Base.{
  ℕ, suc, ◌+◌, ◌-◌, ◌%◌, ◌≤◌, ◌<◌, ◌≡◌, ◌⊎◌, inl, inr, refl, true, false, none, some, List, [], ◌∷◌,
  arith, length, get_elem?, get_elem?_total, Returns, Returns-mono, lookup, Ascends, Every,
  Every-mono, Ascends-Every, lookup-cons, Bool-cases, ◌&&◌, ltb, ap, ◌∙◌,
}
use hivedb.Lru.{LruKNode, Best, u64_mod, find_trivial, old_timestamp, improve, scan}
use hivedb.Lru.Invariant.{Rises, Rises-lt, NodeIsValid}

-- Evictable, with fewer than `k` accesses.
abbrev pub IsTrivial : ℕ → LruKNode → Type 0
IsTrivial k node = (node.is_evictable ≡ true) × (length node.history < k)

-- A node of the map that satisfies `P`, and stands at `id`.
abbrev pub At : ℕ → List (ℕ × LruKNode) → (LruKNode → Type 0) → Type 0
At id m P = (node : LruKNode) × (lookup id m ≡ some node) × P node

-- What `find_if` finds: the least id with a trivial node.
pub find_trivial-At :
    (k b id : ℕ) (m : List (ℕ × LruKNode))
    → Ascends b m
    → find_trivial k m ≡ some id
    → At id m (IsTrivial k) × Every (λ j w. IsTrivial k w → id ≤ j) m
unfolding find_trivial lookup
find_trivial-At k b id [] s e = cc
find_trivial-At k b id ((j, w) ∷ m) s e =
    elim (Bool-cases (w.is_evictable && ltb (length w.history) k)) [
      | inl hit ↦
          let here : some j ≡ some id = rw (hit, find_trivial) at e in
          (
            (w, ground arith, ground arith),
            (
              ground arith,
              Every-mono _ _ m (λ i u h _. ground arith) (Ascends-Every (suc j) m s.1),
            ),
          )
      | inr miss ↦
          let there : find_trivial k m ≡ some id = rw (miss, find_trivial) at e in
          let ih = find_trivial-At k (suc j) id m s.1 there in
          ((ih.0.0, lookup-cons id b j ih.0.0 w m s ih.0.1, ih.0.2), ((λ t. ground arith), ih.1))
    ]

-- A node that `find_if` passes over in vain.
abbrev pub IsRipe : ℕ → ℕ → LruKNode → Type 0
IsRipe k j w = w.is_evictable ≡ true → k ≤ length w.history

pub find_trivial-none :
    (k : ℕ) (m : List (ℕ × LruKNode)) → find_trivial k m ≡ none → Every (IsRipe k) m
unfolding find_trivial
find_trivial-none k [] e = tt
find_trivial-none k ((j, w) ∷ m) e = ground (arith, find_trivial-none k m)

pub Rises-length : (b now : ℕ) (h : List ℕ) → Rises b now h → length h + b ≤ now
Rises-length b now [] r = omega arith
Rises-length b now (t ∷ ts) r = omega (arith, Rises-length (suc t) now ts r.1)

-- With `k` at least 2, the node's old timestamp is there, and lies in the past.
pub old_timestamp_past :
    (k size now j : ℕ) (w : LruKNode)
    → 2 ≤ k
    → now < u64_mod
    → k ≤ length w.history
    → NodeIsValid size now j w
    → (t : ℕ) × (old_timestamp k w ≡ some t) × (t < now)
unfolding old_timestamp
old_timestamp_past k size now j w two fits ripe v =
    let n = length w.history in
    let small : n + 0 ≤ now = Rises-length 0 now w.history v.rises in
    let e : (n + 1 + u64_mod - k) % u64_mod ≡ n + 1 - k = omega arith in
    let found = get_elem?_total w.history (n + 1 - k) (omega arith) in
    (
      found.0,
      ap (get_elem? w.history) e ∙ found.1,
      Rises-lt 0 now (n + 1 - k) found.0 w.history v.rises found.1,
    )

-- The facts of a node that the scan needs: its entry, and its timestamp if it can be evicted.
abbrev pub HasPast : ℕ → ℕ → ℕ → LruKNode → Type 0
HasPast k now j w = w.is_evictable ≡ true → (t : ℕ) × (old_timestamp k w ≡ some t) × (t < now)

-- `now - t` for an evictable node's old timestamp `t` is at most `d`.
abbrev pub IsWithin : ℕ → ℕ → ℕ → LruKNode → Type 0
IsWithin k now d w = w.is_evictable ≡ true → (t : ℕ) → old_timestamp k w ≡ some t → now ≤ t + d

-- An evictable node whose distance is `d`.
abbrev pub IsFarthest : ℕ → ℕ → ℕ → LruKNode → Type 0
IsFarthest k now d w =
    (w.is_evictable ≡ true) × (t : ℕ) × (old_timestamp k w ≡ some t) × (now ≡ t + d)

-- What the scan of `m` makes of `b`: it keeps `b`, or finds a node of a larger distance.
pub record Scanned (k now : ℕ) (m : List (ℕ × LruKNode)) (b c : Best) : Type 0 where
  pub grows : b.max_distance ≤ c.max_distance
  pub covers : Every (λ j w. IsWithin k now c.max_distance w) m
  pub source :
      (c ≡ b)
      ⊎ ((id : ℕ) × (c.id ≡ some id)
          × At id m (IsFarthest k now c.max_distance)
          × (b.max_distance < c.max_distance))

scan_skip :
    (k now lo j : ℕ) (w : LruKNode) (m : List (ℕ × LruKNode)) (b c : Best)
    → Ascends lo ((j, w) ∷ m)
    → w.is_evictable ≡ false
    → Scanned k now m b c
    → Scanned k now ((j, w) ∷ m) b c
scan_skip k now lo j w m b c s idle r = record {
  grows = r.grows;
  covers = ((λ e. cc), r.covers);
  source = elim r.source [
    | inl same ↦ inl same
    | inr (id, found, (v, there, far), more) ↦
        inr (id, found, (v, lookup-cons id lo j v w m s there, far), more)
  ];
}

scan_take :
    (k now lo j t : ℕ) (w : LruKNode) (m : List (ℕ × LruKNode)) (b c : Best)
    → Ascends lo ((j, w) ∷ m)
    → w.is_evictable ≡ true
    → old_timestamp k w ≡ some t
    → t < now
    → Scanned k now m (improve b j (now - t)) c
    → Scanned k now ((j, w) ∷ m) b c
unfolding improve lookup
scan_take k now lo j t w m b c s ready old past r = record {
  grows = ground (arith, r.grows);
  covers = ((λ _ u e. ground (arith, r.grows)), r.covers);
  source = elim r.source [
    | inl same ↦ elim (Bool-cases (ltb b.max_distance (now - t))) [
      | inl more ↦
          let c' : c ≡ record { max_distance = now - t; id = some j } =
            rw (more, improve) at same in
          inr (
            j,
            ap (λ (x : Best). x.id) c',
            (w, ground arith, (ready, t, old, ground arith)),
            ground arith,
          )
      | inr less ↦ inl (rw (less, improve) at same)
    ]
    | inr (id, found, (v, there, far), more) ↦
        inr (id, found, (v, lookup-cons id lo j v w m s there, far), ground arith)
  ];
}

-- With the timestamps at hand the scan ends, and picks a node of the largest distance.
pub scan-Scanned :
    (k now lo : ℕ) (m : List (ℕ × LruKNode)) (b : Best)
    → now < u64_mod
    → Ascends lo m
    → Every (HasPast k now) m
    → Returns (scan k now m b) (Scanned k now m b)
unfolding scan
scan-Scanned k now lo [] b fits s p = record { grows = omega arith; covers = tt; source = inl refl }
scan-Scanned k now lo ((j, w) ∷ m) b fits s p = elim (Bool-cases w.is_evictable) [
  | inr idle ↦ simp idle (
      Returns-mono _ _ (scan k now m b) (λ c. scan_skip k now lo j w m b c s idle)
        (scan-Scanned k now (suc j) m b fits s.1 p.1))
  | inl ready ↦
      let past = p.0 ready in
      let e : (now + u64_mod - past.0) % u64_mod ≡ now - past.0 = omega (arith, past.2) in
      simp (ready, past.1, e)
        (Returns-mono _ _ (scan k now m (improve b j (now - past.0)))
          (λ c. scan_take k now lo j past.0 w m b c s ready past.1 past.2)
          (scan-Scanned k now (suc j) m (improve b j (now - past.0)) fits s.1 p.1))
]
