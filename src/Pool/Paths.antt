-- ===== src/Pool/Paths.antt =====
-- The paths of `request_page` of buffer_pool.hpp that do not write: the page is in a frame, there is an
-- empty frame, or the replacer gives a victim. Each leaves a valid pool.
use hivedb.Base.{
  ℕ, ◌+◌, ◌≤◌, ◌<◌, ◌≡◌, refl, ◌∙◌, ap, Bool, true, false, Option, none, some, List, [], ◌∷◌, ◌++◌,
  arith, ltb, get_elem?, set, length, lookup, ok, Returns-ok, Bool-cases, inl, inr, is_positive,
  in_int32, increment, subst, zero, suc,
}
use hivedb.Lru
use hivedb.Lru.Invariant
use hivedb.Lru.{LruK, u64_mod}
use hivedb.Lru.Status.{
  Stepped, Stepped-trans, Retired, Chosen, evict-Chosen, set_evictable-Stepped,
  record_access-Stepped,
}
use hivedb.Pool.{request_empty, request_evicted, request_hit, increase_pin_count}
use hivedb.Pool.Monad.{Pool, Frame, Ends}
use hivedb.Pool.Owners.{
  held, occurs, held-lookup, page_in_total, lookup-page_in, lookup-erase_table,
}
use hivedb.Pool.Invariant.{
  IsValid, held-lt, evicted, evicted-IsValid, placed, placed-IsValid, reframed-IsValid,
  on_replacer-IsValid, ask_replacer-IsValid,
}
use hivedb.Pool.Evict.{evict_page-evicted}
use hivedb.Pool.Place.{fresh, request_empty-Placed}
use hivedb.Pool.Flush.{with_pin_count_kept}
use hivedb.Pool.Request.{
  request_evicted_run, request_evicted_pinned, request_evicted-none, request_hit_run, hit_frames,
}

-- The page is in the frame `f`, which is loaded; the pool is valid.
pub record Serves {Disk Page : Type 0} (id f : ℕ) (q : Pool Disk Page) : Type 0 where
  pub valid : IsValid q
  pub found : lookup id q.page_table ≡ some f

module _ {Disk Page : Type 0} where
  pub placed-Serves :
      (q : Pool Disk Page) (v : IsValid q) (id f : ℕ) (rest : List ℕ) (b : Bool) (buffer : Page)
      (r : LruK) {n : ℕ}
      → q.empty_frames ≡ f ∷ rest
      → lookup id q.page_table ≡ none
      → Stepped n f q.frame_replacer r
      → Serves id f (placed q id f rest (fresh b f buffer) r)
  unfolding lookup
  placed-Serves q v id f rest true buffer r e new t = record {
    valid = placed-IsValid q v id f rest _ buffer r e new refl refl t;
    found = ground arith;
  }
  placed-Serves q v id f rest false buffer r e new t = record {
    valid = placed-IsValid q v id f rest _ buffer r e new refl refl t;
    found = ground arith;
  }

  -- A pool whose table is full has no empty frame, and each frame holds a page.
  pub full_empty :
      (p : Pool Disk Page) (v : IsValid p)
      → ltb (length p.page_table) p.max_frames ≡ false
      → p.empty_frames ≡ []
  full_empty p v full = nil_of p.empty_frames (ground (arith, v.total))
    where
      nil_of : (xs : List ℕ) → length xs ≡ 0 → xs ≡ []
      nil_of [] h = refl
      nil_of (x ∷ xs) h = absurd (omega arith)

  pub full_held :
      (p : Pool Disk Page) (v : IsValid p)
      → ltb (length p.page_table) p.max_frames ≡ false
      → (f : ℕ) → f < p.max_frames
      → 1 ≤ held f p.page_table
  full_held p v full f h = ground (arith, v.owned f, ap (occurs f) (full_empty p v full))

-- The calls of the replacer for a frame of the pool succeed.
pub accessed :
    (r : LruK) (f max : ℕ)
    → Invariant.IsValid r
    → r.size ≡ max
    → f < max
    → r.current_timestamp + 1 < u64_mod
    → (s : LruK) × (Lru.record_access r f ≡ ok s) × Stepped 1 f r s
accessed r f max v e h t =
    Returns-ok _ (Lru.record_access r f) (record_access-Stepped r f v (omega arith) t)

pub marked :
    (r : LruK) (f max : ℕ)
    → Invariant.IsValid r
    → r.size ≡ max
    → f < max
    → (b : Bool) → (s : LruK) × (Lru.set_evictable r f b ≡ ok s) × Stepped 0 f r s
marked r f max v e h b =
    Returns-ok _ (Lru.set_evictable r f b) (set_evictable-Stepped r f v (omega arith) b)

module _ {Page : Type 0} where
  -- No pin count is the greatest that an int32_t holds.
  abbrev pub HasRoom : List (Frame Page) → Type 0
  HasRoom [] = Unit {0}
  HasRoom (frame ∷ frames) =
      ((pinned : Frame Page) × (increase_pin_count frame ≡ some pinned)) × HasRoom frames

  has_room :
      (frames : List (Frame Page)) (f : ℕ) (frame : Frame Page)
      → HasRoom frames
      → get_elem? frames f ≡ some frame
      → (pinned : Frame Page) × (increase_pin_count frame ≡ some pinned)
  has_room [] f frame h e = cc
  has_room (x ∷ xs) zero frame h e =
      let same : x ≡ frame = ground arith in
      subst (λ y. (pinned : Frame Page) × (increase_pin_count y ≡ some pinned)) same h.0
  has_room (x ∷ xs) (suc f) frame h e = has_room xs f frame h.1 e

-- The counter of the replacer is not about to wrap.
abbrev pub HasTime : {Disk Page : Type 0} → Pool Disk Page → Type 0
HasTime p = p.frame_replacer.current_timestamp + 2 < u64_mod

module _ {Disk Page : Type 0} (p : Pool Disk Page) (v : IsValid p) (t : HasTime p) where
  pub request_empty-Serves :
      (E : Pool Disk Page → Type 0) (id : ℕ) (b : Bool) (buffer : Page)
      → lookup id p.page_table ≡ none
      → ltb (length p.page_table) p.max_frames ≡ true
      → Ends (Serves id) E (request_empty id b buffer p)
  request_empty-Serves E id b buffer new room =
      let r = request_empty-Placed p v id b buffer (ground arith) (omega arith) in
      rw r.ran (placed-Serves p v id r.frame r.rest b buffer r.replacer r.was_front new r.stepped)

  pub request_evicted-Serves :
      (id : ℕ) (b : Bool) (buffer : Page)
      → lookup id p.page_table ≡ none
      → ltb (length p.page_table) p.max_frames ≡ false
      → Ends (Serves id) IsValid (request_evicted id b buffer p)
  request_evicted-Serves id b buffer new full =
      let got =
        Returns-ok _ (Lru.evict p.frame_replacer)
          (evict-Chosen p.frame_replacer v.replacer_k v.replacer) in
      by_victim got.0.0 got.0.1 got.1 got.2
    where
      evict_victim :
          (r : LruK) (f : ℕ) (frame : Frame Page)
          → Lru.evict p.frame_replacer ≡ ok (r, some f)
          → 1 ≤ held f p.page_table
          → Retired f p.frame_replacer r
          → get_elem? p.frames f ≡ some frame
          → is_positive frame.pin_count ≡ false
          → Ends (Serves id) IsValid (request_evicted id b buffer p)
      evict_victim r f frame ran here gone at low =
          let p' : Pool Disk Page = record p { frame_replacer = r } in
          let v' : IsValid p' = ask_replacer-IsValid p v f r gone in
          let page = page_in_total f p.page_table here in
          let there = lookup-page_in f page.0 p.page_table v.table page.1 in
          let out = evict_page-evicted p' v' page.0 f there in
          let q = evicted p' page.0 f out.0 in
          let w : IsValid q = evicted-IsValid p' v' page.0 f out.0 there out.1 in
          let inside : f < q.max_frames = held-lt p v f here in
          let e : q.empty_frames ≡ f ∷ [] = ap (λ xs. xs ++ f ∷ []) (full_empty p v full) in
          let absent : lookup id q.page_table ≡ none =
            lookup-erase_table page.0 id p.page_table v.table ∙ ground (arith, new) in
          let x = marked q.frame_replacer f q.max_frames w.replacer w.replacer_size inside true in
          let y =
            accessed x.0 f q.max_frames x.2.valid (x.2.same_size ∙ w.replacer_size) inside
              (omega (arith, x.2.in_time, out.1.in_time, gone.in_time)) in
          rw
            (request_evicted_run p q id page.0 f [] b buffer frame r x.0 y.0 ran at low page.1 out.2
              e (omega (arith, w.frame_count)) x.1 y.1)
            (placed-Serves q w id f [] b buffer y.0 e absent (Stepped-trans 0 1 f x.2 y.2))

      by_victim :
          (r : LruK) (o : Option ℕ)
          → Lru.evict p.frame_replacer ≡ ok (r, o)
          → Chosen p.frame_replacer (r, o)
          → Ends (Serves id) IsValid (request_evicted id b buffer p)
      by_victim r none ran same = rw (request_evicted-none p id b buffer r ran) (rw same v)
      by_victim r (some f) ran (chosen, gone) =
          let here = v.mapped f chosen in
          let frame = v.holds f here in
          elim (Bool-cases (is_positive frame.0.pin_count)) [
            | inl high ↦
                rw (request_evicted_pinned p id f b buffer frame.0 r ran frame.1 high)
                  (ask_replacer-IsValid p v f r gone)
            | inr low ↦ evict_victim r f frame.0 ran here gone frame.1 low
          ]

  pub request_hit-Serves :
      (E : Pool Disk Page → Type 0) (id f : ℕ) (b : Bool)
      → lookup id p.page_table ≡ some f
      → HasRoom p.frames
      → Ends (Serves id) E (request_hit b f p)
  request_hit-Serves E id f b e room =
      let here = held-lookup f id p.page_table e in
      let inside = held-lt p v f here in
      let x =
        accessed p.frame_replacer f p.max_frames v.replacer v.replacer_size inside (omega arith) in
      let y = marked x.0 f p.max_frames x.2.valid (x.2.same_size ∙ v.replacer_size) inside false in
      let frame = v.holds f here in
      let more = has_room p.frames f frame.0 room frame.1 in
      let kept =
        with_pin_count_kept frame.0 more.0 (in_int32 (increment frame.0.pin_count)) more.1 in
      let q : Pool Disk Page = record p { frame_replacer = y.0 } in
      let w : IsValid q = on_replacer-IsValid p v f y.0 here (Stepped-trans 1 0 f x.2 y.2) in
      let pinned : IsValid (record q { frames = set q.frames f more.0 }) =
        reframed-IsValid q w f more.0 frame.3 inside (kept.0 ∙ frame.2) (kept.1 ∙ frame.4) in
      rw (request_hit_run p b f x.0 y.0 frame.0 more.0 x.1 y.1 frame.1 more.1) (
        by_pin b y.0 more.0 (record { valid = w; found = e })
          (record { valid = pinned; found = e }))
    where
      by_pin :
          (b : Bool) (s : LruK) (pinned : Frame Page)
          → Serves id f (record p { frame_replacer = s })
          → Serves id f (record p { frame_replacer = s; frames = set p.frames f pinned })
          → Serves id f (record p { frame_replacer = s; frames = hit_frames b f pinned p.frames })
      by_pin true s pinned plain more = more
      by_pin false s pinned plain more = plain
