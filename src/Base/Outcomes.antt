-- ===== src/Base/Outcomes.antt =====
-- How a call ends: with a value, by an exception, or by a failed ASSERT. `out_of_bounds` is a read or
-- write that C++ leaves undefined, `overflow` such an arithmetic. `out_of_fuel` has no counterpart: a loop of the model stopped early.
use mathlib.Core.Path.{◌≡◌, refl}
use mathlib.Core.Bool.{Bool, true, false}
use mathlib.Core.Option.{Option, none, some}

pub data Failure : Type 0 where
  invalid_argument runtime_error out_of_range assertion out_of_bounds overflow out_of_fuel : Failure

pub data Outcome {ℓ} (A : Type ℓ) : Type ℓ where
  ok : A → Outcome A
  fails : Failure → Outcome A

infixl 5 ◌>>=◌ ◌>>◌
abbrev pub ◌>>=◌ {ℓ κ} : {A : Type ℓ} {B : Type κ} → Outcome A → (A → Outcome B) → Outcome B
ok a >>= f = f a
fails e >>= f = fails e

abbrev pub ◌>>◌ {ℓ} : {B : Type ℓ} → Outcome (Unit {0}) → Outcome B → Outcome B
m >> k = m >>= λ _. k

-- `>>=` under a name, for files with a monad of their own.
abbrev pub and_then {ℓ κ} : {A : Type ℓ} {B : Type κ} → Outcome A → (A → Outcome B) → Outcome B
and_then m f = m >>= f

-- `if (!b) throw e` and ASSERT(b).
abbrev pub require : Bool → Failure → Outcome (Unit {0})
require true e = ok tt
require false e = fails e

abbrev pub or_fail {ℓ} : {A : Type ℓ} → Option A → Failure → Outcome A
or_fail none e = fails e
or_fail (some a) e = ok a

-- The call ends with a value that satisfies `P`.
abbrev pub Returns {ℓ} : {A : Type ℓ} → Outcome A → (A → Type 0) → Type 0
Returns (ok a) P = P a
Returns (fails e) P = ⊥

-- The value that a call ends with satisfies `P`, if there is one.
abbrev pub Ensures {ℓ} : {A : Type ℓ} → Outcome A → (A → Type 0) → Type 0
Ensures (ok a) P = P a
Ensures (fails e) P = Unit {0}

-- The call ends, and the value that it ends with satisfies `P`, if there is one.
abbrev pub IsEnd : Failure → Type 0
IsEnd out_of_fuel = ⊥
IsEnd _ = Unit {0}

abbrev pub Settles {ℓ} : {A : Type ℓ} → Outcome A → (A → Type 0) → Type 0
Settles (ok a) P = P a
Settles (fails e) P = IsEnd e

pub Settles-bind {ℓ κ} :
    {A : Type ℓ} {B : Type κ} (P : A → Type 0) (Q : B → Type 0) (o : Outcome A) (f : A → Outcome B)
    → Settles o P
    → ((a : A) → P a → Settles (f a) Q)
    → Settles (o >>= f) Q
Settles-bind P Q (ok a) f h k = k a h
Settles-bind P Q (fails e) f h k = h

pub Settles-mono {ℓ} :
    {A : Type ℓ} (P Q : A → Type 0) (o : Outcome A)
    → ((a : A) → P a → Q a)
    → Settles o P
    → Settles o Q
Settles-mono P Q (ok a) f h = f a h
Settles-mono P Q (fails e) f h = h

-- The value of a call that ends is the one it ends with.
pub Settles-eq :
    {A : Type 0} (P : A → Type 0) (o : Outcome A) → Settles o P → Settles o (λ a. P a × (o ≡ ok a))
Settles-eq P (ok a) h = (h, refl)
Settles-eq P (fails e) h = h

module _ {ℓ} {A : Type ℓ} where
  pub Returns-mono :
      (P Q : A → Type 0) (o : Outcome A) → ((a : A) → P a → Q a) → Returns o P → Returns o Q
  Returns-mono P Q (ok a) f h = f a h
  Returns-mono P Q (fails e) f h = h

  pub Ensures-mono :
      (P Q : A → Type 0) (o : Outcome A) → ((a : A) → P a → Q a) → Ensures o P → Ensures o Q
  Ensures-mono P Q (ok a) f h = f a h
  Ensures-mono P Q (fails e) f h = h

  pub Returns-ok : (P : A → Type 0) (o : Outcome A) → Returns o P → (a : A) × (o ≡ ok a) × P a
  Returns-ok P (ok a) h = (a, refl, h)
  Returns-ok P (fails e) h = absurd h

module _ {ℓ κ} {A : Type ℓ} {B : Type κ} where
  pub Returns-bind :
      (P : A → Type 0) (Q : B → Type 0) (o : Outcome A) (f : A → Outcome B)
      → Returns o P
      → ((a : A) → P a → Returns (f a) Q)
      → Returns (o >>= f) Q
  Returns-bind P Q (ok a) f h k = k a h
  Returns-bind P Q (fails e) f h k = h

  pub Ensures-bind :
      (P : A → Type 0) (Q : B → Type 0) (o : Outcome A) (f : A → Outcome B)
      → Ensures o P
      → ((a : A) → P a → Ensures (f a) Q)
      → Ensures (o >>= f) Q
  Ensures-bind P Q (ok a) f h k = k a h
  Ensures-bind P Q (fails e) f h k = tt
