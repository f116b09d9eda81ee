-- ===== src/Scheduler/Examples.antt =====
-- The theorem on the scheduler at a run: two puts, of which the first is served between them.
use hivedb.Base.{ℕ, ◌≡◌, ◌==◌, refl, true, some, List, [], ◌∷◌, ◌++◌, if◌then◌else◌}
use hivedb.Pool.Monad.{DiskManager}
use hivedb.Scheduler.{DiskRequest, wrote, DiskScheduler, put, handle, Step, Steps}
use hivedb.Scheduler.Order.{Serial, Steps-Serial}

abbrev array : DiskManager (ℕ → ℕ) ℕ
array = record {
  read_page = λ d id. some (d, d id);
  write_page = λ d id page. some (λ other. if id == other then page else d other);
}

abbrev idle : DiskScheduler (ℕ → ℕ) ℕ
idle = record { manager = λ id. id; requests_queue = []; replies = []; is_running = true }

abbrev write_seven : DiskRequest ℕ
write_seven = DiskRequest.write 7 70

abbrev with_write : DiskScheduler (ℕ → ℕ) ℕ
with_write = put write_seven idle

abbrev after_write : DiskScheduler (ℕ → ℕ) ℕ
after_write = record {
  manager = λ other. if 7 == other then 70 else other;
  requests_queue = [];
  replies = wrote ∷ [];
  is_running = true;
}

write_handled :
    handle array (record with_write { requests_queue = [] }) write_seven ≡ some after_write
unfolding handle
write_handled = refl

abbrev both : List (DiskRequest ℕ)
both = (([] ++ write_seven ∷ []) ++ []) ++ DiskRequest.read 7 ∷ []

both_steps : Steps array idle both (put (DiskRequest.read 7) after_write)
both_steps =
    Steps.next _ _ after_write _
      (Steps.next _ [] with_write after_write
        (Steps.next [] _ idle with_write Steps.start (Step.puts idle write_seven))
        (Step.works with_write after_write write_seven [] refl refl write_handled))
      (Step.puts after_write (DiskRequest.read 7))

Steps-Serial_example : Serial array idle both (put (DiskRequest.read 7) after_write)
Steps-Serial_example =
    Steps-Serial array idle (put (DiskRequest.read 7) after_write) both refl both_steps
