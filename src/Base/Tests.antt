-- ===== src/Base/Tests.antt =====
-- Boolean tests on the native numbers, the conditional, and case lemmas.
use Prim.Native.Nat.{ℕ, ◌<◌, compare, Ordering}
use mathlib.Core.Path.{◌≡◌, refl, ap}
use mathlib.Core.Logic.{◌⊎◌, inl, inr}
use mathlib.Core.Bool.{Bool, true, false}
use mathlib.Core.Option.{Option, none, some}
use native.Mathlib.Omega.{arith}

abbrev pub ltb : ℕ → ℕ → Bool
ltb a b = elim (compare a b) [ Ordering.lt ↦ true | _ ↦ false ]

abbrev pub leb : ℕ → ℕ → Bool
leb a b = elim (compare a b) [ Ordering.gt ↦ false | _ ↦ true ]

infix 50 ◌==◌
abbrev pub ◌==◌ : ℕ → ℕ → Bool
a == b = elim (compare a b) [ Ordering.eq ↦ true | _ ↦ false ]

infix 1 if◌then◌else◌
abbrev pub if◌then◌else◌ {ℓ} : {A : Type ℓ} → Bool → A → A → A
if true then x else y = x
if false then x else y = y

pub Bool-cases : (b : Bool) → (b ≡ true) ⊎ (b ≡ false)
Bool-cases true = inl refl
Bool-cases false = inr refl

pub Option-cases {ℓ} : {A : Type ℓ} (o : Option A) → (o ≡ none) ⊎ ((a : A) × (o ≡ some a))
Option-cases none = inl refl
Option-cases (some a) = inr (a, refl)

-- A Boolean as a number.
abbrev pub one_if : Bool → ℕ
one_if true = 1
one_if false = 0

pub lt→ltb : (a b : ℕ) → a < b → ltb a b ≡ true
lt→ltb a b h = ground arith

-- What both branches satisfy, each under its condition, the conditional satisfies.
pub if-cases {ℓ κ} :
    {A : Type ℓ} (P : A → Type κ) (b : Bool) {x y : A}
    → (b ≡ true → P x)
    → (b ≡ false → P y)
    → P (if b then x else y)
if-cases P true f g = f refl
if-cases P false f g = g refl

pub some_injective {ℓ} : {A : Type ℓ} (x y : A) → some x ≡ some y → x ≡ y
some_injective x y e = cc

-- A first value, or else a second one.
pub or_else-some {ℓ} :
    {A : Type ℓ} (m n : Option A) (x : A)
    → (elim m as (λ _. Option A) [ some a ↦ some a | none ↦ n ]) ≡ some x
    → (m ≡ some x) ⊎ (n ≡ some x)
or_else-some none n x e = inr e
or_else-some (some a) n x e = inl e

-- A branch on an optional value, each side under its equation.
pub option-branch {ℓ κ ℓ'} :
    {A : Type ℓ} {B : Type κ} (P : B → Type ℓ') (m : Option A) (n : B) (s : A → B)
    → (m ≡ none → P n)
    → ((a : A) → m ≡ some a → P (s a))
    → P (elim m [ none ↦ n | some a ↦ s a ])
option-branch P none n s f g = f refl
option-branch P (some a) n s f g = g a refl

-- The branch that an optional value takes.
pub branch_some {ℓ κ} :
    {A : Type ℓ} {B : Type κ} (m : Option A) (n : B) (s : A → B) (a : A)
    → m ≡ some a
    → elim m [ none ↦ n | some b ↦ s b ] ≡ s a
branch_some none n s a e = cc
branch_some (some b) n s a e = ap s (some_injective b a e)

pub branch_none {ℓ κ} :
    {A : Type ℓ} {B : Type κ} (m : Option A) (n : B) (s : A → B)
    → m ≡ none
    → elim m [ none ↦ n | some b ↦ s b ] ≡ n
branch_none none n s e = refl
branch_none (some b) n s e = cc
