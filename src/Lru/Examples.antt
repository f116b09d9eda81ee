-- ===== src/Lru/Examples.antt =====
-- The theorems on the replacer at concrete states.
use hivedb.Base.{◌≡◌, ◌<◌, true, false, List, [], ◌∷◌, arith, fails, out_of_bounds, Returns}
use hivedb.Lru.{LruK, evict, size}
use hivedb.Lru.Invariant.{IsValid}
use hivedb.Lru.Evict.{Evicts, evict-Evicts}
use hivedb.Lru.Size.{Shrinks, evict-size, evict_faults}
use hivedb.Lru.Runs.{Call, run, run-IsValid}

-- Two evictable frames with `k` accesses and one that is not evictable.
abbrev busy : LruK
busy = record {
  k = 2;
  size = 4;
  current_nodes =
      (0, record { history = 0 ∷ 4 ∷ []; is_evictable = true })
      ∷ (1, record { history = 1 ∷ 2 ∷ 3 ∷ []; is_evictable = true })
      ∷ (3, record { history = 5 ∷ []; is_evictable = false })
      ∷ [];
  current_timestamp = 6;
}

busy-IsValid : IsValid busy
busy-IsValid = record {
  ascends = (omega arith, (omega arith, (omega arith, tt)));
  nodes = (
    record {
      in_range = omega arith;
      accessed = omega arith;
      rises = (omega arith, (omega arith, omega arith));
    },
    (
      record {
        in_range = omega arith;
        accessed = omega arith;
        rises = (omega arith, (omega arith, (omega arith, omega arith)));
      },
      (
        record {
          in_range = omega arith;
          accessed = omega arith;
          rises = (omega arith, omega arith);
        },
        tt,
      ),
    ),
  );
  in_time = omega arith;
}

-- A replacer with `k` 1.
abbrev impatient : LruK
impatient = record {
  k = 1;
  size = 4;
  current_nodes = (2, record { history = 0 ∷ []; is_evictable = true }) ∷ [];
  current_timestamp = 1;
}

impatient-IsValid : IsValid impatient
impatient-IsValid = record {
  ascends = (omega arith, tt);
  nodes = (
    record { in_range = omega arith; accessed = omega arith; rises = (omega arith, omega arith) },
    tt,
  );
  in_time = omega arith;
}

impatient-size : 0 < size impatient
unfolding size
impatient-size = omega arith

evict-Evicts_example : Returns (evict busy) (Evicts busy)
evict-Evicts_example = evict-Evicts busy (omega arith) busy-IsValid

evict-size_example : Returns (evict busy) (Shrinks busy)
evict-size_example = evict-size busy (omega arith) busy-IsValid (omega arith)

evict_faults_example : evict impatient ≡ fails out_of_bounds
evict_faults_example =
    evict_faults impatient (omega arith) impatient-IsValid (omega arith) impatient-size

abbrev calls : List Call
calls = Call.accesses 2 ∷ Call.marks 3 true ∷ Call.evicts ∷ Call.removes 9 ∷ Call.accesses 1 ∷ []

run-IsValid_example : Returns (run busy calls) IsValid
run-IsValid_example = run-IsValid busy calls (omega arith) busy-IsValid (omega arith)
