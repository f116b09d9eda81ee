-- ===== src/Pool/Monad.antt =====
-- The pool's state, and calls on it: they return, throw with the state that they leave, or abort.
use hivedb.Base.{
  ℕ, Bool, true, false, Option, none, some, List, ℤ, Outcome, ok, fails, Failure, invalid_argument,
  runtime_error, ◌==◌,
}
use hivedb.Lru.{LruK}

pub record Frame {ℓ} (Page : Type ℓ) : Type ℓ where
  pub frame_id : Option ℕ
  pub is_dirty : Bool
  pub pin_count : ℤ
  pub contents : Option Page
  pub has_replacer : Bool

-- The test `frame.frame_id == f`.
abbrev pub is_frame : ℕ → Option ℕ → Bool
is_frame f none = false
is_frame f (some g) = g == f

-- `scheduler` is the state of the disk behind `m_scheduler`.
pub record Pool (Disk Page : Type 0) : Type 0 where
  pub max_frames : ℕ
  pub scheduler : Disk
  pub frame_replacer : LruK
  pub next_page : ℕ
  pub page_table : List (ℕ × ℕ)
  pub frames : List (Frame Page)
  pub empty_frames : List ℕ

-- The concept `disk_manager_t`: what a read gives with the disk after it, and the disk after a write.
-- `none` is an exception, or an undefined access.
pub record DiskManager (Disk Page : Type 0) : Type 0 where
  pub read_page : Disk → ℕ → Option (Disk × Page)
  pub write_page : Disk → ℕ → Page → Option Disk

-- `aborted` is a failed ASSERT, a terminated worker thread, or undefined behaviour.
pub data Run (Disk Page A : Type 0) : Type 0 where
  returned : A → Pool Disk Page → Run Disk Page A
  threw : Failure → Pool Disk Page → Run Disk Page A
  aborted : Run Disk Page A

abbrev pub M : Type 0 → Type 0 → Type 0 → Type 0
M Disk Page A = Pool Disk Page → Run Disk Page A

abbrev pub with_unit : Outcome LruK → Outcome (LruK × Unit {0})
with_unit (ok r) = ok (r, tt)
with_unit (fails e) = fails e

module _ {Disk Page : Type 0} where
  infixl 5 ◌>>=◌ ◌>>◌
  abbrev pub ◌>>=◌ : {A B : Type 0} → M Disk Page A → (A → M Disk Page B) → M Disk Page B
  ◌>>=◌ m f p = elim (m p) [ returned a p' ↦ f a p' | threw e p' ↦ threw e p' | aborted ↦ aborted ]

  abbrev pub ◌>>◌ : {A B : Type 0} → M Disk Page A → M Disk Page B → M Disk Page B
  m >> k = m >>= λ _. k

  abbrev pub pure : {A : Type 0} → A → M Disk Page A
  pure a p = returned a p

  abbrev pub throw : {A : Type 0} → Failure → M Disk Page A
  throw e p = threw e p

  abbrev pub assert : Bool → M Disk Page (Unit {0})
  assert true p = returned tt p
  assert false p = aborted

  abbrev pub or_abort : {A : Type 0} → Option A → M Disk Page A
  or_abort none p = aborted
  or_abort (some a) p = returned a p

  abbrev pub when : Bool → M Disk Page (Unit {0}) → M Disk Page (Unit {0})
  when true m = m
  when false m = pure tt

  -- `if (!b) ...`
  abbrev pub unless : Bool → M Disk Page (Unit {0}) → M Disk Page (Unit {0})
  unless true m = pure tt
  unless false m = m

  abbrev pub or_throw : {A : Type 0} → Option A → Failure → M Disk Page A
  or_throw none e p = threw e p
  or_throw (some a) e p = returned a p

  -- The whole state, to read its fields.
  abbrev pub state : M Disk Page (Pool Disk Page)
  state p = returned p p

  abbrev pub update : (Pool Disk Page → Pool Disk Page) → M Disk Page (Unit {0})
  update f p = returned tt (f p)

  abbrev pub from_outcome : {A : Type 0} → Pool Disk Page → Outcome (LruK × A) → Run Disk Page A
  from_outcome p (ok (r, a)) = returned a (record p { frame_replacer = r })
  from_outcome p (fails invalid_argument) = threw invalid_argument p
  from_outcome p (fails runtime_error) = threw runtime_error p
  from_outcome p (fails _) = aborted

  -- A call of the replacer.
  abbrev pub on_replacer : (LruK → Outcome LruK) → M Disk Page (Unit {0})
  on_replacer call p = from_outcome p (with_unit (call p.frame_replacer))

  abbrev pub ask_replacer : {A : Type 0} → (LruK → Outcome (LruK × A)) → M Disk Page A
  ask_replacer call p = from_outcome p (call p.frame_replacer)

  -- What holds of the value and the state if the call returns, of the state if it throws; it does
  -- not abort.
  abbrev pub Ends :
      {A : Type 0}
      → (A → Pool Disk Page → Type 0)
      → (Pool Disk Page → Type 0)
      → Run Disk Page A
      → Type 0
  Ends Q E (returned a p) = Q a p
  Ends Q E (threw e p) = E p
  Ends Q E aborted = ⊥

  pub Ends-bind :
      {A B : Type 0} (R : A → Pool Disk Page → Type 0) (Q : B → Pool Disk Page → Type 0)
      (E : Pool Disk Page → Type 0) (m : M Disk Page A) (f : A → M Disk Page B) (p : Pool Disk Page)
      → Ends R E (m p)
      → ((a : A) (p' : Pool Disk Page) → R a p' → Ends Q E (f a p'))
      → Ends Q E ((m >>= f) p)
  Ends-bind R Q E m f p h k = on (m p) h
    where
      on :
          (r : Run Disk Page _)
          → Ends R E r
          → Ends Q E
              (elim r [ returned a p' ↦ f a p' | threw e p' ↦ threw e p' | aborted ↦ aborted ])
      on (returned a p') h = k a p' h
      on (threw e p') h = h
      on aborted h = h
