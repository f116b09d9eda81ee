-- ===== src/Pool/Evict.antt =====
-- `evict_page` of buffer_pool.hpp: on a valid pool it succeeds for every page of the table.
use hivedb.Base.{ℕ, ◌≡◌, some, arith, get_elem?, ok, lookup, Returns-ok, ◌<◌}
use hivedb.Lru
use hivedb.Lru.{LruK}
use hivedb.Lru.Status.{Retired, remove-Retired}
use hivedb.Pool.{evict_page}
use hivedb.Pool.Monad.{Pool, Frame, returned}
use hivedb.Pool.Owners.{held-lookup}
use hivedb.Pool.Invariant.{IsValid, held-lt, evicted}

evict_page_run :
    {Disk Page : Type 0} (p : Pool Disk Page) (page f : ℕ) (r : LruK) (frame : Frame Page)
    → lookup page p.page_table ≡ some f
    → Lru.remove p.frame_replacer f ≡ ok r
    → get_elem? p.frames f ≡ some frame
    → frame.frame_id ≡ some f
    → evict_page page p ≡ returned f (evicted p page f r)
unfolding evict_page
evict_page_run p page f r frame e a b c = ground arith

module _ {Disk Page : Type 0} (p : Pool Disk Page) (v : IsValid p) where
  frame_in_range : (f page : ℕ) → lookup page p.page_table ≡ some f → f < p.frame_replacer.size
  frame_in_range f page e =
      let h = held-lt p v f (held-lookup f page p.page_table e) in omega (arith, v.replacer_size)

  -- On a valid pool, `evict_page` of a page of the table gives its frame back, blank, at the end of the
  -- empty frames. No assertion fails.
  pub evict_page-evicted :
      (page f : ℕ)
      → lookup page p.page_table ≡ some f
      → (r : LruK) × Retired f p.frame_replacer r
        × (evict_page page p ≡ returned f (evicted p page f r))
  evict_page-evicted page f e =
      let removed =
        Returns-ok _ (Lru.remove p.frame_replacer f)
          (remove-Retired p.frame_replacer f v.replacer (frame_in_range f page e)) in
      let frame = v.holds f (held-lookup f page p.page_table e) in
      (removed.0, removed.2, evict_page_run p page f removed.0 frame.0 e removed.1 frame.1 frame.2)
