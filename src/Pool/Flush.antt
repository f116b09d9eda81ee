-- ===== src/Pool/Flush.antt =====
-- `flush_page` of buffer_pool.hpp with its eviction, and the search for a frame to flush.
use hivedb.Base.{
  ℕ, suc, ◌+◌, ◌≡◌, refl, true, some, List, [], ◌∷◌, arith, get_elem?, set, lookup, Bool-cases, sym,
  ◌∙◌, inl, inr, subst, none, Option, ℤ, negsuc, pos, zero, ap, is_zero, in_int32, decrement, ◌==◌,
}
use hivedb.Lru.{LruK}
use hivedb.Lru.Status.{Retired}
use hivedb.Pool.{
  evict_page, flush_page, write_request, find_flushable, can_flush, decrease_pin_count,
  with_pin_count,
}
use hivedb.Pool.Monad.{DiskManager, Pool, Frame, returned}
use hivedb.Pool.Owners.{held-lookup}
use hivedb.Pool.Invariant.{
  IsValid, held-lt, evicted, evicted-IsValid, reframed-IsValid, rescheduled-IsValid,
}
use hivedb.Pool.Evict.{evict_page-evicted}

module _ {Page : Type 0} where
  -- `find_if` gives a frame that is dirty and not pinned.
  pub find_flushable_sound :
      (i f : ℕ) (fs : List (Frame Page))
      → find_flushable i fs ≡ some f
      → (j : ℕ) × (f ≡ i + j)
        × (frame : Frame Page) × (get_elem? fs j ≡ some frame)
        × (can_flush frame ≡ true)
  unfolding find_flushable
  find_flushable_sound i f [] e = cc
  find_flushable_sound i f (x ∷ fs) e = elim (Bool-cases (can_flush x)) [
    | inl yes_x ↦ (0, ground arith, x, refl, yes_x)
    | inr no_x ↦
        let found = find_flushable_sound (i + 1) f fs (ground arith) in
        (suc found.0, omega (arith, found.1), found.2, found.3, found.4)
  ]

is_zero_lem : (z : ℤ) → is_zero z ≡ true → z ≡ pos 0
is_zero_lem (pos zero) e = refl
is_zero_lem (pos (suc n)) e = cc
is_zero_lem (negsuc n) e = cc

module _ {Page : Type 0} where
  -- A change of the pin count leaves the rest of a frame.
  pub with_pin_count_kept :
      (frame changed : Frame Page) (count : Option ℤ)
      → with_pin_count frame count ≡ some changed
      → (changed.frame_id ≡ frame.frame_id) × (changed.contents ≡ frame.contents)
  with_pin_count_kept frame changed none e = cc
  with_pin_count_kept frame changed (some n) e = (ground arith, ground arith)

  -- An unpinned frame can be unpinned once more.
  pub can_flush-unpinned :
      (frame : Frame Page)
      → can_flush frame ≡ true
      → (unpinned : Frame Page) × (decrease_pin_count frame ≡ some unpinned)
  can_flush-unpinned frame e = (
    record frame { pin_count = negsuc 0 },
    ap (λ z. with_pin_count frame (in_int32 (decrement z)))
        (is_zero_lem frame.pin_count (ground arith)),
  )

-- The pool between the write and the eviction.
abbrev pub written : {Disk Page : Type 0} → Pool Disk Page → ℕ → Frame Page → Disk → Pool Disk Page
written p f unpinned d = record p { scheduler = d; frames = set p.frames f unpinned }

module _ {Disk Page : Type 0} (disk : DiskManager Disk Page) where
  flush_page_run :
      (p q : Pool Disk Page) (page f : ℕ) (frame unpinned : Frame Page) (buffer : Page) (d : Disk)
      → lookup page p.page_table ≡ some f
      → get_elem? p.frames f ≡ some frame
      → frame.is_dirty ≡ true
      → frame.frame_id ≡ some f
      → frame.contents ≡ some buffer
      → disk.write_page p.scheduler page buffer ≡ some d
      → decrease_pin_count frame ≡ some unpinned
      → evict_page page (written p f unpinned d) ≡ returned f q
      → flush_page disk page true p ≡ returned true q
  unfolding flush_page write_request
  flush_page_run p q page f frame unpinned buffer d e at dirty own has w less ran = ground arith

module _ {Disk Page : Type 0} (disk : DiskManager Disk Page) where
  -- After a successful write of the frame's buffer, with an unpinned frame.
  pub record Flushed (p : Pool Disk Page) (page f : ℕ) (frame : Frame Page) : Type 0 where
    pub buffer : Page
    pub after_write : Disk
    pub unpinned : Frame Page
    pub replacer : LruK
    pub has : frame.contents ≡ some buffer
    pub wrote : disk.write_page p.scheduler page buffer ≡ some after_write
    pub less : decrease_pin_count frame ≡ some unpinned
    pub retired : Retired f p.frame_replacer replacer
    pub still_valid : IsValid (evicted (written p f unpinned after_write) page f replacer)
    pub ran :
        flush_page disk page true p
        ≡ returned true (evicted (written p f unpinned after_write) page f replacer)

  -- The disk takes any contents of each page of the table.
  abbrev pub Takes : Disk → List (ℕ × ℕ) → Type 0
  Takes d [] = Unit {0}
  Takes d ((page, f) ∷ rest) =
      ((buffer : Page) → (d' : Disk) × (disk.write_page d page buffer ≡ some d')) × Takes d rest

  lookup-Takes :
      (d : Disk) (page f : ℕ) (table : List (ℕ × ℕ))
      → Takes d table
      → lookup page table ≡ some f
      → (buffer : Page) → (d' : Disk) × (disk.write_page d page buffer ≡ some d')
  unfolding lookup
  lookup-Takes d page f [] t e buffer = cc
  lookup-Takes d page f ((page', g) ∷ rest) t e buffer = elim (Bool-cases (page' == page)) [
    | inl same ↦
        let e' : page' ≡ page = ground arith in
        subst (λ x. (d' : Disk) × (disk.write_page d x buffer ≡ some d')) e' (t.0 buffer)
    | inr other ↦ lookup-Takes d page f rest t.1 (ground arith) buffer
  ]

module _ {Disk Page : Type 0} (disk : DiskManager Disk Page) (p : Pool Disk Page)
    (v : IsValid p) where
  -- On a valid pool over a disk that takes the pages of the table, `flush_page` with its eviction writes
  -- the buffer of a dirty page of the table, and gives the page's frame back. The frame's pin count
  -- is not the least that an int32_t holds. No assertion fails, and the pool stays valid.
  pub flush_page-Flushed :
      (page f : ℕ) (frame unpinned : Frame Page)
      → lookup page p.page_table ≡ some f
      → get_elem? p.frames f ≡ some frame
      → frame.is_dirty ≡ true
      → decrease_pin_count frame ≡ some unpinned
      → Takes disk p.scheduler p.page_table
      → Flushed disk p page f frame
  flush_page-Flushed page f frame unpinned e at dirty less takes =
      let h = held-lookup f page p.page_table e in
      let held_frame = v.holds f h in
      let same : some held_frame.0 ≡ some frame = sym held_frame.1 ∙ at in
      let same_frame : held_frame.0 ≡ frame = ground arith in
      let own : frame.frame_id ≡ some f = rw same_frame at held_frame.2 in
      let has : frame.contents ≡ some held_frame.3 = rw same_frame at held_frame.4 in
      let kept = with_pin_count_kept frame unpinned (in_int32 (decrement frame.pin_count)) less in
      let w = lookup-Takes disk p.scheduler page f p.page_table takes e held_frame.3 in
      let p' = written p f unpinned w.0 in
      let v' : IsValid p' =
        rescheduled-IsValid (record p { frames = set p.frames f unpinned })
          (reframed-IsValid p v f unpinned held_frame.3 (held-lt p v f h) (kept.0 ∙ own)
            (kept.1 ∙ has))
          w.0 in
      let gone = evict_page-evicted p' v' page f e in
      record {
        buffer = held_frame.3;
        after_write = w.0;
        unpinned = unpinned;
        replacer = gone.0;
        has = has;
        wrote = w.1;
        less = less;
        retired = gone.1;
        still_valid = evicted-IsValid p' v' page f gone.0 e gone.1;
        ran =
            flush_page_run disk p (evicted p' page f gone.0) page f frame unpinned held_frame.3 w.0
              e at dirty own has w.1 less gone.2;
      }
