-- ===== src/Pool/Serve.antt =====
-- `request_page` of buffer_pool.hpp: on a valid pool the assertions behind the one on the id hold, and the
-- pool stays valid whether the request succeeds or throws.
use hivedb.Base.{
  ℕ, ◌≤◌, ◌<◌, ◌≡◌, refl, ◌∙◌, ap, Bool, true, false, none, some, [], ◌∷◌, ◌++◌, arith, ltb,
  get_elem?, length, lookup, get_elem?-lt, Bool-cases, Option-cases, inl, inr, ℤ, pos, negsuc,
  pos_part,
}
use hivedb.Lru.Status.{Stepped-trans}
use hivedb.Pool.{
  find_flushable, request_flushed, request_evicted, request_room, request_page, request_asserted,
}
use hivedb.Pool.Monad.{DiskManager, Pool, Run, returned, threw, aborted, Ends}
use hivedb.Pool.Owners.{page_in_total, lookup-page_in, lookup-erase_table}
use hivedb.Pool.Invariant.{IsValid, held-lt, evicted, rescheduled-IsValid}
use hivedb.Pool.Flush.{Takes, find_flushable_sound, flush_page-Flushed, written, can_flush-unpinned}
use hivedb.Pool.Request.{request_flushed_run, request_asserted_miss}
use hivedb.Pool.Paths.{
  Serves, placed-Serves, full_empty, full_held, accessed, marked, HasTime, HasRoom,
  request_empty-Serves, request_evicted-Serves, request_hit-Serves,
}

-- The pool after a request for `id` that threw, on `p`: every frame holds another page, and none of them is
-- dirty and not pinned.
pub record Refused {Disk Page : Type 0} (id : ℕ) (p q : Pool Disk Page) : Type 0 where
  pub valid : IsValid q
  pub absent : lookup id p.page_table ≡ none
  pub full : p.max_frames ≤ length p.page_table
  pub none_flushable : find_flushable 0 p.frames ≡ none

Ends-mono :
    {Disk Page A : Type 0} (Q : A → Pool Disk Page → Type 0) (E E' : Pool Disk Page → Type 0)
    (r : Run Disk Page A)
    → ((q : Pool Disk Page) → E q → E' q)
    → Ends Q E r
    → Ends Q E' r
Ends-mono Q E E' (returned a q) f h = h
Ends-mono Q E E' (threw e q) f h = f q h
Ends-mono Q E E' aborted f h = h

module _ {Disk Page : Type 0} (disk : DiskManager Disk Page) (p : Pool Disk Page) (v : IsValid p)
    (t : HasTime p) (takes : Takes disk p.scheduler p.page_table) where
  request_flushed-Serves :
      (E : Pool Disk Page → Type 0) (id f : ℕ) (b : Bool) (buffer : Page)
      → lookup id p.page_table ≡ none
      → ltb (length p.page_table) p.max_frames ≡ false
      → find_flushable 0 p.frames ≡ some f
      → Ends (Serves id) E (request_flushed disk id b buffer f p)
  request_flushed-Serves E id f b buffer new full e =
      let found = find_flushable_sound 0 f p.frames e in
      let frame = found.2 in
      let at : get_elem? p.frames f ≡ some frame = ground (arith, found.1, found.3) in
      let here =
        full_held p v full f (omega (arith, v.frame_count, get_elem?-lt p.frames f frame at)) in
      let page = page_in_total f p.page_table here in
      let there = lookup-page_in f page.0 p.page_table v.table page.1 in
      let less = can_flush-unpinned frame found.4 in
      let out =
        flush_page-Flushed disk p v page.0 f frame less.0 there at (ground (arith, found.4)) less.1
          takes in
      let q = evicted (written p f out.unpinned out.after_write) page.0 f out.replacer in
      let w : IsValid q = out.still_valid in
      let inside : f < q.max_frames = held-lt p v f here in
      let front : q.empty_frames ≡ f ∷ [] = ap (λ xs. xs ++ f ∷ []) (full_empty p v full) in
      let absent : lookup id q.page_table ≡ none =
        lookup-erase_table page.0 id p.page_table v.table ∙ ground (arith, new) in
      let x =
        accessed q.frame_replacer f q.max_frames w.replacer w.replacer_size inside
          (omega (arith, out.retired.in_time)) in
      let size_x = x.2.same_size ∙ w.replacer_size in
      let y = marked x.0 f q.max_frames x.2.valid size_x inside true in
      let z =
        accessed y.0 f q.max_frames y.2.valid (y.2.same_size ∙ size_x) inside
          (omega (arith, y.2.in_time, x.2.in_time, out.retired.in_time)) in
      rw
        (request_flushed_run disk p q id page.0 f f [] b buffer x.0 y.0 z.0 page.1 out.ran front
          (omega (arith, w.frame_count)) x.1 y.1 z.1)
        (placed-Serves q w id f [] b buffer z.0 front absent
          (Stepped-trans 1 1 f (Stepped-trans 1 0 f x.2 y.2) z.2))

  request_room-Serves :
      (id : ℕ) (b : Bool) (buffer : Page)
      → lookup id p.page_table ≡ none
      → Ends (Serves id) (Refused id p) (request_room disk id b buffer p)
  unfolding request_room
  request_room-Serves id b buffer new = elim (Bool-cases (ltb (length p.page_table) p.max_frames)) [
    | inl room ↦ rw room (request_empty-Serves p v t (Refused id p) id b buffer new room)
    | inr full ↦ rw full (elim (Option-cases (find_flushable 0 p.frames)) [
      | inl e ↦
          rw (e, request_room)
            (Ends-mono (Serves id) IsValid (Refused id p) (request_evicted id b buffer p)
              (λ q w. record { valid = w; absent = new; full = ground arith; none_flushable = e })
              (request_evicted-Serves p v t id b buffer new full))
      | inr (f, e) ↦
          rw (e, request_room) (request_flushed-Serves (Refused id p) id f b buffer new full e)
    ])
  ]

module _ {Disk Page : Type 0} (disk : DiskManager Disk Page) where
  -- The disk reads the page, and then takes any contents of the pages that the pool holds.
  pub record Answers (p : Pool Disk Page) (id : ℕ) : Type 0 where
    pub after_read : Disk
    pub buffer : Page
    pub reads : disk.read_page p.scheduler id ≡ some (after_read, buffer)
    pub takes : Takes disk after_read p.page_table

  -- How a request for a page ends: on a negative id it aborts, and on another it does not.
  abbrev pub Served : Pool Disk Page → ℤ → Run Disk Page ℕ → Type 0
  Served p (negsuc n) run = run ≡ aborted
  Served p (pos id) run = Ends (Serves id) (Refused id p) run

  -- The assertion of `request_page` fails for a negative id. For any other, on a valid pool, no assertion
  -- fails and nothing else aborts: the request returns a frame that the page table gives for the page,
  -- in a valid pool, or throws, only where no frame holds the page, is empty, or is dirty and not
  -- pinned, and leaves a valid pool. That is when the disk reads this page and then takes any contents of the pages of
  -- the table, with timestamps left and no pin count at its maximum.
  pub request_page-Serves :
      (p : Pool Disk Page) (id : ℤ) (b : Bool)
      → IsValid p
      → HasTime p
      → HasRoom p.frames
      → Answers p (pos_part id)
      → Served p id (request_page disk id b p)
  unfolding request_page request_asserted
  request_page-Serves p (negsuc n) b v t room answers = refl
  request_page-Serves p (pos id) b v t room answers = elim (Option-cases (lookup id p.page_table)) [
    | inr (f, e) ↦ rw (e, request_asserted) (request_hit-Serves p v t (Refused id p) id f b e room)
    | inl e ↦
        let q : Pool Disk Page = record p { scheduler = answers.after_read } in
        rw (request_asserted_miss disk p id b answers.after_read answers.buffer e answers.reads) (
          Ends-mono (Serves id) (Refused id q) (Refused id p)
            (request_room disk id b answers.buffer q)
            (λ r w. record {
              valid = w.valid;
              absent = e;
              full = w.full;
              none_flushable = w.none_flushable;
            })
            (request_room-Serves disk q (rescheduled-IsValid p v answers.after_read) t answers.takes
              id b answers.buffer e))
  ]
