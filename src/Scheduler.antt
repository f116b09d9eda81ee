-- ===== src/Scheduler.antt =====
-- include/misc/channel.hpp and include/disk/disk_scheduler.hpp: the queue of disk requests and its
-- worker thread. The latch makes `put` and `get` atomic, so a run is a sequence of puts and of the
-- worker's rounds. The disk manager is the parameter of the buffer pool's; its exceptions end the
-- process, and with it the run. The reply to a request is what its promise and its buffer hold.
pub mod Order
mod Examples
use hivedb.Base.{ℕ, ◌≡◌, Bool, true, false, Option, none, some, List, [], ◌∷◌, ◌++◌, if◌then◌else◌}
use hivedb.Pool.Monad.{DiskManager}

pub data DiskRequest (Page : Type 0) : Type 0 where
  write : ℕ → Page → DiskRequest Page
  read : ℕ → DiskRequest Page
  shutdown : DiskRequest Page

pub data Reply (Page : Type 0) : Type 0 where
  wrote : Reply Page
  read_in : Page → Reply Page

pub record DiskScheduler (Disk Page : Type 0) : Type 0 where
  pub manager : Disk
  pub requests_queue : List (DiskRequest Page)
  pub replies : List (Reply Page)
  pub is_running : Bool

module _ {Disk Page : Type 0} where
  abbrev pub put : DiskRequest Page → DiskScheduler Disk Page → DiskScheduler Disk Page
  put req s = record s { requests_queue = s.requests_queue ++ req ∷ [] }

module _ {Disk Page : Type 0} (disk : DiskManager Disk Page) where
  -- The `switch` on a request that `get` gave.
  unfoldable pub handle :
      DiskScheduler Disk Page → DiskRequest Page → Option (DiskScheduler Disk Page)
  handle s (DiskRequest.read id) = elim (disk.read_page s.manager id) [
    | none ↦ none
    | some (d, page) ↦ some (record s { manager = d; replies = s.replies ++ read_in page ∷ [] })
  ]
  handle s (DiskRequest.write id page) = elim (disk.write_page s.manager id page) [
    | none ↦ none
    | some d ↦ some (record s { manager = d; replies = s.replies ++ wrote ∷ [] })
  ]
  handle s DiskRequest.shutdown = some (record s { is_running = false })

  -- A round of the worker: it waits on an empty queue, and is over after a shutdown.
  pub data Step
      : DiskScheduler Disk Page → List (DiskRequest Page) → DiskScheduler Disk Page → Type 0 where
    puts : (s : DiskScheduler Disk Page) (req : DiskRequest Page) → Step s (req ∷ []) (put req s)
    works :
        (s t : DiskScheduler Disk Page) (req : DiskRequest Page) (rest : List (DiskRequest Page))
        → s.is_running ≡ true
        → s.requests_queue ≡ req ∷ rest
        → handle (record s { requests_queue = rest }) req ≡ some t
        → Step s [] t

  -- A sequence of steps, with the requests that were put in it, in order.
  pub data Steps (s : DiskScheduler Disk Page)
      : List (DiskRequest Page) → DiskScheduler Disk Page → Type 0 where
    start : Steps s [] s
    next :
        (ps qs : List (DiskRequest Page)) (t u : DiskScheduler Disk Page)
        → Steps s ps t
        → Step t qs u
        → Steps s (ps ++ qs) u
