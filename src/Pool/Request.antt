-- ===== src/Pool/Request.antt =====
-- The paths of `request_page` in buffer_pool.hpp that make room for a page, each as one equation
-- over the results of the calls in it.
use hivedb.Base.{
  ℕ, ◌<◌, ◌≡◌, refl, Bool, true, false, none, some, List, ◌∷◌, arith, get_elem?, set, length,
  lookup, ok, is_positive, runtime_error,
}
use hivedb.Lru
use hivedb.Lru.{LruK, u64_mod}
use hivedb.Pool.{
  page_in, pin, take_empty_frame, assign_loaded, flush_page, evict_page, loaded, request_flushed,
  request_evicted, request_room, request_hit, request_asserted, read_request, increase_pin_count,
}
use hivedb.Pool.Monad.{DiskManager, Pool, Frame, returned, threw}
use hivedb.Pool.Invariant.{placed}
use hivedb.Pool.Place.{fresh, pin_run}

module _ {Disk Page : Type 0} (disk : DiskManager Disk Page) where
  pub request_flushed_run :
      (p q : Pool Disk Page) (id page f g : ℕ) (rest : List ℕ) (b : Bool) (buffer : Page)
      (r s t : LruK)
      → page_in f p.page_table ≡ some page
      → flush_page disk page true p ≡ returned true q
      → q.empty_frames ≡ g ∷ rest
      → g < length q.frames
      → Lru.record_access q.frame_replacer g ≡ ok r
      → Lru.set_evictable r g true ≡ ok s
      → Lru.record_access s g ≡ ok t
      → request_flushed disk id b buffer f p ≡ returned g (placed q id g rest (fresh b g buffer) t)
  unfolding request_flushed take_empty_frame assign_loaded
  request_flushed_run p q id page f g rest b buffer r s t at ran e h x y z =
      ground (arith, pin_run b g buffer q.frames (placed q id g rest (loaded g buffer) s) h refl)

module _ {Disk Page : Type 0} where
  pub request_evicted_run :
      (p q : Pool Disk Page) (id page f : ℕ) (rest : List ℕ) (b : Bool) (buffer : Page)
      (frame : Frame Page) (r s t : LruK)
      → Lru.evict p.frame_replacer ≡ ok (r, some f)
      → get_elem? p.frames f ≡ some frame
      → is_positive frame.pin_count ≡ false
      → page_in f p.page_table ≡ some page
      → evict_page page (record p { frame_replacer = r }) ≡ returned f q
      → q.empty_frames ≡ f ∷ rest
      → f < length q.frames
      → Lru.set_evictable q.frame_replacer f true ≡ ok s
      → Lru.record_access s f ≡ ok t
      → request_evicted id b buffer p ≡ returned f (placed q id f rest (fresh b f buffer) t)
  unfolding request_evicted take_empty_frame assign_loaded
  request_evicted_run p q id page f rest b buffer frame r s t ev at low here ran e h x y =
      ground (arith, pin_run b f buffer q.frames (placed q id f rest (loaded f buffer) s) h refl)

  pub request_evicted_pinned :
      (p : Pool Disk Page) (id f : ℕ) (b : Bool) (buffer : Page) (frame : Frame Page) (r : LruK)
      → Lru.evict p.frame_replacer ≡ ok (r, some f)
      → get_elem? p.frames f ≡ some frame
      → is_positive frame.pin_count ≡ true
      → request_evicted id b buffer p ≡ threw runtime_error (record p { frame_replacer = r })
  unfolding request_evicted
  request_evicted_pinned p id f b buffer frame r ev at high = ground arith

  pub request_evicted-none :
      (p : Pool Disk Page) (id : ℕ) (b : Bool) (buffer : Page) (r : LruK)
      → Lru.evict p.frame_replacer ≡ ok (r, none)
      → request_evicted id b buffer p ≡ threw runtime_error (record p { frame_replacer = r })
  unfolding request_evicted
  request_evicted-none p id b buffer r ev = ground arith

module _ {Page : Type 0} where
  -- The frames after a hit on `f`, which becomes `pinned` if it should be.
  abbrev pub hit_frames : Bool → ℕ → Frame Page → List (Frame Page) → List (Frame Page)
  hit_frames true f pinned frames = set frames f pinned
  hit_frames false f pinned frames = frames

module _ {Disk Page : Type 0} where
  pub request_hit_run :
      (p : Pool Disk Page) (b : Bool) (f : ℕ) (r s : LruK) (frame pinned : Frame Page)
      → Lru.record_access p.frame_replacer f ≡ ok r
      → Lru.set_evictable r f false ≡ ok s
      → get_elem? p.frames f ≡ some frame
      → increase_pin_count frame ≡ some pinned
      → request_hit b f p
        ≡ returned f (record p { frame_replacer = s; frames = hit_frames b f pinned p.frames })
  unfolding request_hit pin
  request_hit_run p true f r s frame pinned x y at more = ground arith
  request_hit_run p false f r s frame pinned x y at more = ground arith

module _ {Disk Page : Type 0} (disk : DiskManager Disk Page) where
  pub request_asserted_miss :
      (p : Pool Disk Page) (id : ℕ) (b : Bool) (d : Disk) (buffer : Page)
      → lookup id p.page_table ≡ none
      → disk.read_page p.scheduler id ≡ some (d, buffer)
      → request_asserted disk id b p ≡ request_room disk id b buffer (record p { scheduler = d })
  unfolding request_asserted read_request
  request_asserted_miss p id b d buffer new read = ground arith
