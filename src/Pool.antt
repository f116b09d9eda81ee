-- ===== src/Pool.antt =====
-- include/buffer_pool/buffer_pool.hpp and src/buffer_pool/buffer_pool.cpp: the buffer pool.
-- The template's disk manager is a parameter: reading and writing a page on a disk state, where
-- `none` is an exception, which ends the process, since the scheduler's thread has no handler, or an
-- undefined access. A request is put on the scheduler's queue and waited for, so it is one access here.
-- The page id of a request is signed. Behind the assertion on its sign it is a natural number, as are
-- the ids of the page table, which never holds a negative one, and of the frames. The 32-bit counts and
-- page ids abort on an overflow, which is undefined.
pub mod Monad
pub mod Owners
pub mod Invariant
pub mod Evict
pub mod Place
pub mod Flush
pub mod Request
pub mod Paths
pub mod Serve
pub mod Start
mod Examples
use hivedb.Base.{
  ℕ, suc, ◌+◌, ◌-◌, Bool, true, false, ◌&&◌, ◌||◌, Option, none, some, List, [], ◌∷◌, ◌++◌, ℤ, pos,
  negsuc, zero, increment, decrement, in_int32, is_zero, is_positive, is_negative, pos_part,
  and_then, ltb, ◌==◌, if◌then◌else◌, length, get_elem?, set, replicate, Outcome, ok, fails,
  Failure, runtime_error, invalid_argument, out_of_bounds, lookup, erase, not,
}
use hivedb.Lru
use hivedb.Lru.{LruK}
use Monad.{
  DiskManager, Pool, Frame, Run, returned, threw, aborted, M, ◌>>=◌, ◌>>◌, pure, assert, throw,
  or_abort, update, state, on_replacer, ask_replacer, when, is_frame, unless, or_throw,
}

-- A default-constructed header: INVALID_FRAME_ID, pin count -99, no replacer.
abbrev pub blank {ℓ} : {Page : Type ℓ} → Frame Page
blank = record {
  frame_id = none;
  is_dirty = false;
  pin_count = negsuc 98;
  contents = none;
  has_replacer = false;
}

-- The constructor from an id, a buffer and a replacer.
abbrev pub loaded {ℓ} : {Page : Type ℓ} → ℕ → Page → Frame Page
loaded id buffer = record {
  frame_id = some id;
  is_dirty = false;
  pin_count = pos 0;
  contents = some buffer;
  has_replacer = true;
}

module _ {ℓ} {Page : Type ℓ} where
  abbrev pub with_pin_count : Frame Page → Option ℤ → Option (Frame Page)
  with_pin_count f none = none
  with_pin_count f (some n) = some (record f { pin_count = n })

  -- The count is 32-bit, and `none` is its overflow.
  abbrev pub increase_pin_count : Frame Page → Option (Frame Page)
  increase_pin_count f = with_pin_count f (in_int32 (increment f.pin_count))

  abbrev pub decrease_pin_count : Frame Page → Option (Frame Page)
  decrease_pin_count f = with_pin_count f (in_int32 (decrement f.pin_count))

  -- `is_dirty && get_pin_count() == 0`.
  abbrev pub can_flush : Frame Page → Bool
  can_flush f = f.is_dirty && is_zero f.pin_count

  -- `std::find_if` over the frames: the first index, from `i` on, whose frame can be flushed.
  unfoldable pub find_flushable : ℕ → List (Frame Page) → Option ℕ
  find_flushable i [] = none
  find_flushable i (f ∷ fs) = if can_flush f then some i else find_flushable (i + 1) fs

-- `std::find_if` over the page table: a page that stands in the frame.
unfoldable pub page_in : ℕ → List (ℕ × ℕ) → Option ℕ
page_in f [] = none
page_in f ((page, g) ∷ rest) = if g == f then some page else page_in f rest

-- `m_empty_frames.front()`, which the standard leaves undefined on an empty list.
abbrev pub front : List ℕ → Option ℕ
front [] = none
front (f ∷ fs) = some f

abbrev pub pop_front : List ℕ → List ℕ
pop_front [] = []
pop_front (f ∷ fs) = fs

module _ {Disk Page : Type 0} where
  unfoldable pub allocate_new_page : M Disk Page ℕ
  allocate_new_page = do
    p ← state
    next ← or_abort (in_int32 (pos (p.next_page + 1)))
    update (λ q. record q { next_page = pos_part next })
    pure p.next_page

  -- `m_frames.at(f)`, which throws outside the bounds, and `m_frames[f]`, which does not.
  abbrev pub frame_at : ℕ → M Disk Page (Frame Page)
  frame_at f p = or_throw (get_elem? p.frames f) out_of_bounds p

  abbrev pub frame_ref : ℕ → M Disk Page (Frame Page)
  frame_ref f p = or_abort (get_elem? p.frames f) p

  abbrev pub set_frame : ℕ → Frame Page → M Disk Page (Unit {0})
  set_frame f frame = update (λ p. record p { frames = set p.frames f frame })

  -- `m_frames[f] = frame_header{f, buffer, &m_frame_replacer}`. The temporary's destructor then
  -- makes the frame evictable.
  unfoldable pub assign_loaded : ℕ → Page → M Disk Page (Unit {0})
  assign_loaded f buffer = do
    set_frame f (loaded f buffer)
    on_replacer (λ r. Lru.set_evictable r f true)

  -- `if (should_pin) frame.increase_pin_count();`
  unfoldable pub pin : Bool → ℕ → M Disk Page (Unit {0})
  pin false f = pure tt
  pin true f = do
    frame ← frame_ref f
    pinned ← or_abort (increase_pin_count frame)
    set_frame f pinned

  unfoldable pub evict_page : ℕ → M Disk Page ℕ
  evict_page page = do
    p ← state
    f ← or_abort (lookup page p.page_table)
    on_replacer (λ r. Lru.remove r f)
    update (λ q. record q { page_table = erase page q.page_table })
    frame ← frame_ref f
    assert (is_frame f frame.frame_id)
    set_frame f blank
    update (λ q. record q { empty_frames = q.empty_frames ++ f ∷ [] })
    pure f

  unfoldable pub evict_pages : List ℕ → M Disk Page (Unit {0})
  evict_pages [] = pure tt
  evict_pages (page ∷ pages) = do _ ← evict_page page; evict_pages pages

  -- `m_page_table.emplace(id, m_empty_frames.front()); m_empty_frames.pop_front();`
  unfoldable pub take_empty_frame : ℕ → M Disk Page ℕ
  take_empty_frame id = do
    p ← state
    f ← or_abort (front p.empty_frames)
    update (λ q. record q {
      page_table = (id, f) ∷ q.page_table;
      empty_frames = pop_front q.empty_frames;
    })
    pure f

  -- The page is in the frame `f`.
  unfoldable pub request_hit : Bool → ℕ → M Disk Page ℕ
  request_hit should_pin f = do
    on_replacer (λ r. Lru.record_access r f)
    on_replacer (λ r. Lru.set_evictable r f false)
    frame ← frame_at f
    pin should_pin f
    pure f

  -- There is a frame that holds no page.
  unfoldable pub request_empty : ℕ → Bool → Page → M Disk Page ℕ
  request_empty id should_pin buffer = do
    f ← take_empty_frame id
    assign_loaded f buffer
    on_replacer (λ r. Lru.record_access r f)
    pin should_pin f
    pure f

  -- No frame is empty, or dirty and not pinned.
  unfoldable pub request_evicted : ℕ → Bool → Page → M Disk Page ℕ
  request_evicted id should_pin buffer = do
    victim ← ask_replacer Lru.evict
    f ← or_throw victim runtime_error
    frame ← frame_at f
    unless (not (is_positive frame.pin_count)) (throw runtime_error)
    p ← state
    page ← or_abort (page_in f p.page_table)
    freed ← evict_page page
    assert (freed == f)
    g ← take_empty_frame id
    assign_loaded freed buffer
    pin should_pin freed
    on_replacer (λ r. Lru.record_access r f)
    pure freed

-- What the pool asks of the template's disk manager.
module _ {Disk Page : Type 0} (disk : DiskManager Disk Page) where
  -- A read request, scheduled and waited for.
  unfoldable pub read_request : ℕ → M Disk Page Page
  read_request id p = elim (disk.read_page p.scheduler id) [
    | none ↦ aborted
    | some (d, buffer) ↦ returned buffer (record p { scheduler = d })
  ]

  unfoldable pub write_request : ℕ → Page → M Disk Page (Unit {0})
  write_request id buffer p = elim (disk.write_page p.scheduler id buffer) [
    | none ↦ aborted
    | some d ↦ returned tt (record p { scheduler = d })
  ]

  -- What follows the search for the page in `flush_page`, with the frame index that it gave.
  unfoldable pub flush_frame : ℕ → Bool → ℕ → M Disk Page Bool
  flush_frame page should_evict f = do
    frame ← frame_at f
    assert frame.is_dirty
    buffer ← or_abort frame.contents
    write_request page buffer
    unpinned ← or_abort (decrease_pin_count frame)
    set_frame f unpinned
    when should_evict do freed ← evict_page page; assert (is_frame freed frame.frame_id)
    pure true

  unfoldable pub flush_page : ℕ → Bool → M Disk Page Bool
  unfolding flush_frame
  flush_page page should_evict p = elim (lookup page p.page_table) [
    | none ↦ returned false p
    | some f ↦ flush_frame page should_evict f p
  ]

  -- The frame `f` is dirty and not pinned.
  unfoldable pub request_flushed : ℕ → Bool → Page → ℕ → M Disk Page ℕ
  request_flushed id should_pin buffer f = do
    p ← state
    page ← or_abort (page_in f p.page_table)
    status ← flush_page page true
    unless status (throw runtime_error)
    g ← take_empty_frame id
    on_replacer (λ r. Lru.record_access r g)
    assign_loaded g buffer
    pin should_pin g
    on_replacer (λ r. Lru.record_access r g)
    pure g

  -- What follows the read from the disk.
  unfoldable pub request_room : ℕ → Bool → Page → M Disk Page ℕ
  request_room id should_pin buffer p =
      if ltb (length p.page_table) p.max_frames
      then request_empty id should_pin buffer p
      else (elim (find_flushable 0 p.frames) [
        | some f ↦ request_flushed id should_pin buffer f p
        | none ↦ request_evicted id should_pin buffer p
      ])

  -- What follows `ASSERT(id > -1)`.
  unfoldable pub request_asserted : ℕ → Bool → M Disk Page ℕ
  request_asserted id should_pin p = elim (lookup id p.page_table) [
    | some f ↦ request_hit should_pin f p
    | none ↦ (read_request id >>= request_room id should_pin) p
  ]

  -- The result is the index of the frame to which the code returns a reference.
  unfoldable pub request_page : ℤ → Bool → M Disk Page ℕ
  unfolding request_asserted
  request_page id should_pin = do
    assert (not (is_negative id))
    request_asserted (pos_part id) should_pin

  -- The loop of `flush_pages` over the table's entries: the pages that it wrote, in order.
  unfoldable pub flush_dirty : List (ℕ × ℕ) → M Disk Page (List ℕ)
  flush_dirty [] = pure []
  flush_dirty ((page, f) ∷ rest) = do
    frame ← frame_at f
    when frame.is_dirty (flush_page page false >>= λ _. pure tt)
    pages ← flush_dirty rest
    pure (if frame.is_dirty then page ∷ pages else pages)

  -- Whether any page was dirty.
  unfoldable pub flush_pages : M Disk Page Bool
  flush_pages = do
    p ← state
    pages ← flush_dirty p.page_table
    evict_pages pages
    pure (ltb 0 (length pages))

-- `std::iota` over the empty frames.
abbrev pub count_up : ℕ → ℕ → List ℕ
count_up i zero = []
count_up i (suc n) = i ∷ count_up (suc i) n

-- The constructor, from the signed number of frames, on the disk that the scheduler opens. The
-- replacer's constructor refuses what its own test would. `m_k` is 10.
unfoldable pub make : {Disk Page : Type 0} → ℤ → Disk → Outcome (Pool Disk Page)
make max_frames d = and_then (Lru.make (pos 10) max_frames) λ r.
    if is_negative max_frames
    then fails invalid_argument
    else ok (record {
      max_frames = pos_part max_frames;
      scheduler = d;
      frame_replacer = r;
      next_page = 0;
      page_table = [];
      frames = replicate (pos_part max_frames) blank;
      empty_frames = count_up 0 (pos_part max_frames);
    })
