-- ===== src/Lru/Status.antt =====
-- What a client needs to know of the calls: validity, and which frames are evictable.
use hivedb.Base.{
  ℕ, ◌+◌, ◌≤◌, ◌<◌, ◌≡◌, ◌≢◌, inl, inr, refl, Bool, true, false, Option, none, some, [], ◌∷◌, ◌++◌,
  arith, Returns, Returns-mono, lookup, lookup-insert, lookup-assign, lookup-erase, Bool-cases,
  Every-lookup, leb, ◌∙◌,
}
use hivedb.Lru.{
  LruK, LruKNode, u64_mod, record_access, touch, set_evictable, mark, remove, drop_node, evict,
}
use hivedb.Lru.Invariant.{IsValid, record_access-IsValid, set_evictable-IsValid, erase-IsValid}
use hivedb.Lru.Evict.{Evicts, evict-Evicts, without}
use hivedb.Lru.Size.{victim_evictable}

-- The replacer may choose the frame.
abbrev pub ready : ℕ → LruK → Bool
ready id r = elim (lookup id r.current_nodes) [ none ↦ false | some node ↦ node.is_evictable ]

-- Calls that keep the shape, take at most `n` timestamps, and make no frame evictable but `id`.
pub record Stepped (n id : ℕ) (r r' : LruK) : Type 0 where
  pub valid : IsValid r'
  pub same_size : r'.size ≡ r.size
  pub same_k : r'.k ≡ r.k
  pub in_time : r'.current_timestamp ≤ r.current_timestamp + n
  pub others : (j : ℕ) → ready j r' ≡ true → j ≢ id → ready j r ≡ true

-- A call after which `id` is not evictable.
pub record Retired (id : ℕ) (r r' : LruK) : Type 0 where
  pub valid : IsValid r'
  pub same_size : r'.size ≡ r.size
  pub same_k : r'.k ≡ r.k
  pub in_time : r'.current_timestamp ≤ r.current_timestamp
  pub retired : ready id r' ≡ false
  pub others : (j : ℕ) → ready j r' ≡ true → ready j r ≡ true

pub Stepped-trans :
    (m n id : ℕ) {r s t : LruK} → Stepped m id r s → Stepped n id s t → Stepped (m + n) id r t
Stepped-trans m n id x y = record {
  valid = y.valid;
  same_size = y.same_size ∙ x.same_size;
  same_k = y.same_k ∙ x.same_k;
  in_time = omega (arith, x.in_time, y.in_time);
  others = λ j h ne. x.others j (y.others j h ne) ne;
}

module _ (r : LruK) (id : ℕ) (v : IsValid r) (h : id < r.size) where
  touch-ready :
      (o : Option LruKNode)
      → lookup id r.current_nodes ≡ o
      → (j : ℕ) → ready j (touch r id o) ≡ true
      → j ≢ id
      → ready j r ≡ true
  unfolding touch
  touch-ready none e j = ground (
    arith,
    lookup-insert id j (record { history = r.current_timestamp ∷ []; is_evictable = true })
        r.current_nodes e,
  )
  touch-ready (some node) e j = ground (
    arith,
    lookup-assign id j (record node { history = node.history ++ r.current_timestamp ∷ [] }) node
        r.current_nodes e,
  )

  touch_kept :
      (o : Option LruKNode)
      → ((touch r id o).size ≡ r.size)
        × ((touch r id o).k ≡ r.k)
        × ((touch r id o).current_timestamp ≤ r.current_timestamp + 1)
  unfolding touch
  touch_kept none = (refl, refl, omega arith)
  touch_kept (some node) = (refl, refl, omega arith)

  pub record_access-Stepped :
      r.current_timestamp + 1 < u64_mod → Returns (record_access r id) (Stepped 1 id r)
  unfolding record_access
  record_access-Stepped t = elim (Bool-cases (leb r.size id)) [
    | inl e ↦ absurd (ground arith)
    | inr e ↦ rw e (record {
      valid = rw (e, record_access) at (record_access-IsValid r id v t);
      same_size = (touch_kept (lookup id r.current_nodes)).0;
      same_k = (touch_kept (lookup id r.current_nodes)).1;
      in_time = (touch_kept (lookup id r.current_nodes)).2;
      others = touch-ready (lookup id r.current_nodes) refl;
    })
  ]

  mark-ready :
      (b : Bool) (o : Option LruKNode)
      → lookup id r.current_nodes ≡ o
      → (j : ℕ) → ready j (mark r id b o) ≡ true
      → j ≢ id
      → ready j r ≡ true
  unfolding mark
  mark-ready b none e j = λ p _. p
  mark-ready b (some node) e j =
      ground (arith, lookup-assign id j (record node { is_evictable = b }) node r.current_nodes e)

  mark_kept :
      (b : Bool) (o : Option LruKNode)
      → ((mark r id b o).size ≡ r.size)
        × ((mark r id b o).k ≡ r.k)
        × ((mark r id b o).current_timestamp ≡ r.current_timestamp)
  unfolding mark
  mark_kept b none = (refl, refl, refl)
  mark_kept b (some node) = (refl, refl, refl)

  pub set_evictable-Stepped : (b : Bool) → Returns (set_evictable r id b) (Stepped 0 id r)
  unfolding set_evictable
  set_evictable-Stepped b = elim (Bool-cases (leb r.size id)) [
    | inl e ↦ absurd (ground arith)
    | inr e ↦ rw e (record {
      valid = rw (e, set_evictable) at (set_evictable-IsValid r id b v);
      same_size = (mark_kept b (lookup id r.current_nodes)).0;
      same_k = (mark_kept b (lookup id r.current_nodes)).1;
      in_time = omega (arith, (mark_kept b (lookup id r.current_nodes)).2);
      others = mark-ready b (lookup id r.current_nodes) refl;
    })
  ]

  without-Retired : Retired id r (without r id)
  without-Retired = record {
    valid = erase-IsValid r id v;
    same_size = refl;
    same_k = refl;
    in_time = omega arith;
    retired = ground (arith, lookup-erase id id 0 r.current_nodes v.ascends);
    others = λ j. ground (arith, lookup-erase id j 0 r.current_nodes v.ascends);
  }

  kept-Retired : ready id r ≡ false → Retired id r r
  kept-Retired e = record {
    valid = v;
    same_size = refl;
    same_k = refl;
    in_time = omega arith;
    retired = e;
    others = λ j p. p;
  }

  drop_node-Retired :
      (o : Option LruKNode) → lookup id r.current_nodes ≡ o → Retired id r (drop_node r id o)
  unfolding drop_node
  drop_node-Retired none e = kept-Retired (ground (arith, e))
  drop_node-Retired (some node) e = elim (Bool-cases node.is_evictable) [
    | inl b ↦ simp b without-Retired
    | inr b ↦ simp b (kept-Retired (ground (arith, e)))
  ]

  -- After `remove` the frame is not evictable, known to the replacer or not.
  pub remove-Retired : Returns (remove r id) (Retired id r)
  unfolding remove
  remove-Retired = elim (Bool-cases (leb r.size id)) [
    | inl e ↦ absurd (ground arith)
    | inr e ↦ rw e (drop_node-Retired (lookup id r.current_nodes) refl)
  ]

-- What `evict` gives to a client: nothing changed, or an evictable frame that is so no more.
abbrev pub Chosen : LruK → LruK × Option ℕ → Type 0
Chosen r (r', none) = r' ≡ r
Chosen r (r', some id) = (ready id r ≡ true) × Retired id r r'

Evicts-Chosen : (r : LruK) (x : LruK × Option ℕ) → IsValid r → Evicts r x → Chosen r x
Evicts-Chosen r (r', none) v e = e.0
Evicts-Chosen r (r', some id) v e =
    let (node, there, b) = victim_evictable r id e.1 in
    let entry = Every-lookup _ id node r.current_nodes v.nodes there in
    (ground (arith, there), rw e.0 (without-Retired r id v entry.in_range))

pub evict-Chosen : (r : LruK) → 2 ≤ r.k → IsValid r → Returns (evict r) (Chosen r)
evict-Chosen r two v = Returns-mono _ _ (evict r) (λ x. Evicts-Chosen r x v) (evict-Evicts r two v)
