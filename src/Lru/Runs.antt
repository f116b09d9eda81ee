-- ===== src/Lru/Runs.antt =====
-- Any sequence of calls of the replacer: its invariant at every point, and no stray read.
use hivedb.Base.{
  ℕ, ◌+◌, ◌≤◌, ◌<◌, ◌≡◌, refl, Bool, Option, none, some, List, [], ◌∷◌, arith, length, Outcome, ok,
  fails, out_of_bounds, out_of_fuel, out_of_range, overflow, invalid_argument, runtime_error,
  assertion, Returns, Returns-bind, ◌>>=◌,
}
use hivedb.Lru.{LruK, u64_mod, record_access, set_evictable, remove, evict}
use hivedb.Lru.Invariant.{IsValid, record_access-IsValid, set_evictable-IsValid, remove-IsValid}
use hivedb.Lru.Evict.{Evicts, evict-Evicts, evict-IsValid}

pub data Call : Type 0 where
  accesses removes : ℕ → Call
  marks : ℕ → Bool → Call
  evicts : Call

pub step : LruK → Call → Outcome LruK
step l (accesses id) = record_access l id
step l (removes id) = remove l id
step l (marks id b) = set_evictable l id b
step l evicts = do r ← evict l; ok r.0

-- A refused call leaves the replacer as it was; a stray read ends the run.
pub survive : LruK → Outcome LruK → Outcome LruK
survive l (ok l') = ok l'
survive l (fails invalid_argument) = ok l
survive l (fails runtime_error) = ok l
survive l (fails assertion) = fails assertion
survive l (fails out_of_bounds) = fails out_of_bounds
survive l (fails out_of_range) = fails out_of_range
survive l (fails overflow) = fails overflow
survive l (fails out_of_fuel) = fails out_of_fuel

pub run : LruK → List Call → Outcome LruK
run l [] = ok l
run l (c ∷ cs) = do l' ← survive l (step l c); run l' cs

-- A step keeps `k`, and takes at most one timestamp.
pub record Follows (l l' : LruK) : Type 0 where
  pub valid : IsValid l'
  pub same_k : l'.k ≡ l.k
  pub in_order : l'.current_timestamp ≤ l.current_timestamp + 1

abbrev FollowsOk : LruK → Outcome LruK → Type 0
FollowsOk l (ok l') = Follows l l'
FollowsOk l (fails invalid_argument) = Unit {0}
FollowsOk l (fails _) = ⊥

module _ (l : LruK) (v : IsValid l) where
  access_follows : (id : ℕ) → l.current_timestamp + 1 < u64_mod → FollowsOk l (record_access l id)
  unfolding record_access
  access_follows id t = ground (arith, record_access-IsValid l id v t)

  remove_follows : (id : ℕ) → FollowsOk l (remove l id)
  unfolding remove
  remove_follows id = ground (arith, remove-IsValid l id v)

  mark_follows : (id : ℕ) (b : Bool) → FollowsOk l (set_evictable l id b)
  unfolding set_evictable
  mark_follows id b = ground (arith, set_evictable-IsValid l id b v)

  Evicts-Follows :
      (o : Outcome (LruK × Option ℕ))
      → Returns o (Evicts l)
      → Returns o (λ r. IsValid r.0)
      → FollowsOk l (o >>= λ r. ok r.0)
  Evicts-Follows (fails e) h w = absurd h
  Evicts-Follows (ok (l', none)) h w =
      rw h.0 (record { valid = v; same_k = refl; in_order = omega arith })
  Evicts-Follows (ok (l', some id)) h w = record {
    valid = w;
    same_k = rw h.0;
    in_order = rw h.0 (omega arith);
  }

  step_follows : (c : Call) → 2 ≤ l.k → l.current_timestamp + 1 < u64_mod → FollowsOk l (step l c)
  unfolding step
  step_follows (accesses id) two t = access_follows id t
  step_follows (removes id) two t = remove_follows id
  step_follows (marks id b) two t = mark_follows id b
  step_follows evicts two t =
      Evicts-Follows (evict l) (evict-Evicts l two v) (evict-IsValid l two v)

  survive-Follows : (o : Outcome LruK) → FollowsOk l o → Returns (survive l o) (Follows l)
  unfolding survive
  survive-Follows (ok l') h = h
  survive-Follows (fails invalid_argument) h = record {
    valid = v;
    same_k = refl;
    in_order = omega arith;
  }
  survive-Follows (fails _) h = absurd h

-- With `k` at least 2, every sequence of calls that is too short for the timestamp to wrap ends in a
-- valid replacer: a call is refused by its range check or it succeeds, and no call reads outside a
-- history.
pub run-IsValid :
    (l : LruK) (cs : List Call)
    → 2 ≤ l.k
    → IsValid l
    → l.current_timestamp + length cs < u64_mod
    → Returns (run l cs) IsValid
unfolding run
run-IsValid l [] two v t = v
run-IsValid l (c ∷ cs) two v t =
    Returns-bind (Follows l) IsValid (survive l (step l c)) (λ l'. run l' cs)
      (survive-Follows l v (step l c) (step_follows l v c two (omega arith)))
      (λ l' f. run-IsValid l' cs (rw f.same_k two) f.valid (omega (arith, f.in_order)))
