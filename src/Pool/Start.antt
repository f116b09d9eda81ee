-- ===== src/Pool/Start.antt =====
-- The constructor of buffer_pool.hpp refuses a negative number of frames, and establishes the invariant.
use hivedb.Base.{
  ℕ, zero, suc, ◌≡◌, refl, [], ℤ, pos, negsuc, arith, length, length-replicate, Outcome, fails,
  invalid_argument, Returns, lookup,
}
use hivedb.Lru
use hivedb.Pool.{blank, make, count_up}
use hivedb.Pool.Monad.{Pool}
use hivedb.Pool.Owners.{occurs-count_up}
use hivedb.Pool.Invariant.{IsValid}

length-count_up : (i n : ℕ) → length (count_up i n) ≡ n
length-count_up i zero = refl
length-count_up i (suc n) = omega (arith, length-count_up (suc i) n)

-- A valid pool of `n` frames that holds no page.
pub record Fresh {Disk Page : Type 0} (n : ℕ) (d : Disk) (p : Pool Disk Page) : Type 0 where
  pub valid : IsValid p
  pub frame_count : p.max_frames ≡ n
  pub empty : p.page_table ≡ []
  pub opened : p.scheduler ≡ d

-- What the constructor gives for a number of frames.
abbrev pub Starts : {Disk Page : Type 0} → ℤ → Disk → Outcome (Pool Disk Page) → Type 0
Starts (negsuc n) d o = o ≡ fails invalid_argument
Starts (pos n) d o = Returns o (Fresh n d)

-- The constructor throws invalid_argument for a negative number of frames. For any other it gives a
-- valid pool of that many frames, with an empty page table, on the disk.
pub make-IsValid :
    (Disk Page : Type 0) (max_frames : ℤ) (d : Disk)
    → Starts max_frames d (make {Page = Page} max_frames d)
unfolding make Lru.make lookup
make-IsValid Disk Page (negsuc n) d = refl
make-IsValid Disk Page (pos n) d = record {
  valid = record {
    frame_count = length-replicate n blank;
    replacer = record { ascends = tt; nodes = tt; in_time = omega arith };
    replacer_size = refl;
    replacer_k = omega arith;
    table = tt;
    total = omega (arith, length-count_up 0 n);
    owned = λ f. ground (arith, occurs-count_up f 0 n);
    holds = λ f h. absurd (omega arith);
    mapped = λ f h. cc;
  };
  frame_count = refl;
  empty = refl;
  opened = refl;
}
