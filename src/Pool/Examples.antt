-- ===== src/Pool/Examples.antt =====
-- The theorems on the buffer pool, over the disk manager in memory.
use hivedb.Base.{
  ℕ, zero, suc, ◌≡◌, ◌≤◌, arith, true, none, some, Option, List, [], ◌∷◌, pos, negsuc, refl, lookup,
  Outcome, ok, fails,
}
use hivedb.Lru.{LruK}
use hivedb.Lru.Invariant
use hivedb.Lru.Status.{Retired, ready}
use hivedb.Pool.{request_page, make, evict_page}
use hivedb.Pool.Monad.{DiskManager, Pool, Frame, returned, Ends}
use hivedb.Pool.Owners.{held}
use hivedb.Pool.Invariant.{IsValid, HoldsPage, evicted}
use hivedb.Pool.Evict.{evict_page-evicted}
use hivedb.Pool.Flush.{Takes, Flushed, flush_page-Flushed}
use hivedb.Pool.Paths.{Serves}
use hivedb.Pool.Serve.{Answers, Refused, request_page-Serves}
use hivedb.Pool.Start.{Starts, make-IsValid}
use hivedb.Mock
use hivedb.Mock.{MockFile}

abbrev to_option : {A : Type 0} → Outcome A → Option A
to_option (ok a) = some a
to_option (fails e) = none

-- The disk manager in memory.
abbrev mock : DiskManager MockFile (List ℕ)
mock = record {
  read_page = λ d id. to_option (Mock.read_page d (pos id) []);
  write_page = λ d id buffer. to_option (Mock.write_page d (pos id) buffer);
}

abbrev dirty_frame : Frame (List ℕ)
dirty_frame = record {
  frame_id = some 0;
  is_dirty = true;
  pin_count = pos 0;
  contents = some (77 ∷ []);
  has_replacer = true;
}

abbrev unpinned_frame : Frame (List ℕ)
unpinned_frame = record dirty_frame { pin_count = negsuc 0 }

-- One frame, which holds the dirty page 1, of three pages.
abbrev full_pool : Pool MockFile (List ℕ)
full_pool = record {
  max_frames = 1;
  scheduler = record { pages = (10 ∷ []) ∷ (11 ∷ []) ∷ (12 ∷ []) ∷ [] };
  frame_replacer = record {
    k = 10;
    size = 1;
    current_nodes = (0, record { history = 0 ∷ []; is_evictable = true }) ∷ [];
    current_timestamp = 1;
  };
  next_page = 3;
  page_table = (1, 0) ∷ [];
  frames = dirty_frame ∷ [];
  empty_frames = [];
}

full_replacer-IsValid : Invariant.IsValid full_pool.frame_replacer
full_replacer-IsValid = record {
  ascends = (omega arith, tt);
  nodes = (
    record { in_range = omega arith; accessed = omega arith; rises = (omega arith, omega arith) },
    tt,
  );
  in_time = omega arith;
}

full_pool_holds : (f : ℕ) → 1 ≤ held f full_pool.page_table → HoldsPage f full_pool.frames
full_pool_holds zero h = (dirty_frame, refl, refl, 77 ∷ [], refl)
full_pool_holds (suc f) h = absurd (ground arith)

full_pool_mapped :
    (f : ℕ) → ready f full_pool.frame_replacer ≡ true → 1 ≤ held f full_pool.page_table
unfolding lookup
full_pool_mapped zero h = omega arith
full_pool_mapped (suc f) h = absurd (ground arith)

full_pool-IsValid : IsValid full_pool
unfolding lookup
full_pool-IsValid = record {
  frame_count = refl;
  replacer = full_replacer-IsValid;
  replacer_size = refl;
  replacer_k = omega arith;
  table = (refl, tt);
  total = refl;
  owned = λ f. ground arith;
  holds = full_pool_holds;
  mapped = full_pool_mapped;
}

page_1 : lookup 1 full_pool.page_table ≡ some 0
unfolding lookup
page_1 = refl

full_pool-Takes : Takes mock full_pool.scheduler full_pool.page_table
unfolding Mock.write_page Mock.grow
full_pool-Takes = (λ buffer. (record { pages = (10 ∷ []) ∷ buffer ∷ (12 ∷ []) ∷ [] }, refl), tt)

full_pool-Answers : Answers mock full_pool 2
unfolding Mock.read_page Mock.grow
full_pool-Answers = record {
  after_read = full_pool.scheduler;
  buffer = 12 ∷ [];
  reads = refl;
  takes = full_pool-Takes;
}

request_page-Serves_example :
    Ends (Serves 2) (Refused 2 full_pool) (request_page mock (pos 2) true full_pool)
request_page-Serves_example =
    request_page-Serves mock full_pool (pos 2) true full_pool-IsValid (omega arith)
      ((record dirty_frame { pin_count = pos 1 }, refl), tt) full_pool-Answers

flush_page-Flushed_example : Flushed mock full_pool 1 0 dirty_frame
flush_page-Flushed_example =
    flush_page-Flushed mock full_pool full_pool-IsValid 1 0 dirty_frame unpinned_frame page_1 refl
      refl refl full_pool-Takes

evict_page-evicted_example :
    (r : LruK) × Retired 0 full_pool.frame_replacer r
    × (evict_page 1 full_pool ≡ returned 0 (evicted full_pool 1 0 r))
evict_page-evicted_example = evict_page-evicted full_pool full_pool-IsValid 1 0 page_1

make-IsValid_example :
    Starts (pos 3) full_pool.scheduler (make {Page = List ℕ} (pos 3) full_pool.scheduler)
make-IsValid_example = make-IsValid MockFile (List ℕ) (pos 3) full_pool.scheduler
