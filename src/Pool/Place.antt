-- ===== src/Pool/Place.antt =====
-- The steps of `request_page` that give an empty frame to a page, as one change of the state.
use hivedb.Base.{
  ℕ, ◌+◌, ◌≡◌, refl, Bool, true, false, some, List, [], ◌∷◌, arith, ◌<◌, get_elem?, set, set-set,
  get_elem?-set, ok, Returns-ok, ap, ◌∙◌, length, if◌then◌else◌, pos,
}
use hivedb.Lru
use hivedb.Lru.{LruK, u64_mod}
use hivedb.Lru.Status.{Stepped, Stepped-trans, set_evictable-Stepped, record_access-Stepped}
use hivedb.Pool.{pin, take_empty_frame, assign_loaded, request_empty, loaded}
use hivedb.Pool.Monad.{Pool, Frame, Run, returned}
use hivedb.Pool.Invariant.{IsValid, placed, front-lt}

front_of : (xs : List ℕ) → 0 < length xs → (f : ℕ) × (rest : List ℕ) × (xs ≡ f ∷ rest)
front_of [] h = absurd (omega arith)
front_of (f ∷ rest) h = (f, rest, refl)

module _ {Page : Type 0} where
  -- The frame that a request leaves: loaded, and pinned once if it should be.
  abbrev pub fresh : Bool → ℕ → Page → Frame Page
  fresh should_pin f buffer =
      if should_pin then record (loaded f buffer) { pin_count = pos 1 } else loaded f buffer

  get_elem?-set_self :
      (xs : List (Frame Page)) (f : ℕ) (x : Frame Page)
      → f < length xs
      → get_elem? (set xs f x) f ≡ some x
  get_elem?-set_self xs f x h = get_elem?-set xs f f x h ∙ ground arith

module _ {Disk Page : Type 0} where
  pub pin_run :
      (b : Bool) (f : ℕ) (buffer : Page) (xs : List (Frame Page)) (p : Pool Disk Page)
      → f < length xs
      → p.frames ≡ set xs f (loaded f buffer)
      → pin b f p ≡ returned tt (record p { frames = set xs f (fresh b f buffer) })
  unfolding pin
  pin_run true f buffer xs p h e = ground (
    arith,
    get_elem?-set_self xs f (loaded f buffer) h,
    set-set xs f (loaded f buffer) (fresh true f buffer),
  )
  pin_run false f buffer xs p h e = ap (λ fs. returned tt (record p { frames = fs })) e

  request_empty_run :
      (p : Pool Disk Page) (id f : ℕ) (rest : List ℕ) (b : Bool) (buffer : Page) (r s : LruK)
      → p.empty_frames ≡ f ∷ rest
      → f < length p.frames
      → Lru.set_evictable p.frame_replacer f true ≡ ok r
      → Lru.record_access r f ≡ ok s
      → request_empty id b buffer p ≡ returned f (placed p id f rest (fresh b f buffer) s)
  unfolding request_empty take_empty_frame assign_loaded
  request_empty_run p id f rest b buffer r s e h x y =
      ground (arith, pin_run b f buffer p.frames (placed p id f rest (loaded f buffer) s) h refl)

  -- What a request leaves that gave the frame `f` to the page `id`.
  pub record Placed (n : ℕ) (p : Pool Disk Page) (id : ℕ) (b : Bool) (buffer : Page)
      (run : Run Disk Page ℕ) : Type 0 where
    pub frame : ℕ
    pub rest : List ℕ
    pub replacer : LruK
    pub was_front : p.empty_frames ≡ frame ∷ rest
    pub stepped : Stepped n frame p.frame_replacer replacer
    pub ran : run ≡ returned frame (placed p id frame rest (fresh b frame buffer) replacer)

module _ {Disk Page : Type 0} (p : Pool Disk Page) (v : IsValid p) where
  -- With an empty frame left, `request_page` loads the page into the first of them.
  pub request_empty-Placed :
      (id : ℕ) (b : Bool) (buffer : Page)
      → length p.page_table < p.max_frames
      → p.frame_replacer.current_timestamp + 1 < u64_mod
      → Placed 1 p id b buffer (request_empty id b buffer p)
  request_empty-Placed id b buffer room t =
      let (f, rest, e) = front_of p.empty_frames (omega (arith, v.total)) in
      let here : f < p.max_frames = front-lt p v f rest e in
      let marked = Returns-ok _ (Lru.set_evictable p.frame_replacer f true) (
        set_evictable-Stepped p.frame_replacer f v.replacer (omega (arith, v.replacer_size))
          true) in
      let r = marked.0 in
      let accessed = Returns-ok _ (Lru.record_access r f) (
        record_access-Stepped r f marked.2.valid
          (omega (arith, v.replacer_size, marked.2.same_size)) (omega (arith, marked.2.in_time))) in
      record {
        frame = f;
        rest = rest;
        replacer = accessed.0;
        was_front = e;
        stepped = Stepped-trans 0 1 f marked.2 accessed.2;
        ran =
            request_empty_run p id f rest b buffer r accessed.0 e (omega (arith, v.frame_count))
              marked.1 accessed.1;
      }
