-- ===== src/Base/OrderedMap.antt =====
-- `std::map` with unsigned keys: an association list, ascending in the keys.
use Prim.Native.Nat.{ℕ, suc, ◌≤◌, ◌<◌}
use mathlib.Core.Path.{◌≡◌, refl}
use mathlib.Core.Option.{Option, none, some}
use mathlib.Core.List.{List, [], ◌∷◌}
use native.Mathlib.Omega.{arith}
use hivedb.Base.Tests.{ltb, ◌==◌, if◌then◌else◌}

module _ {ℓ} {V : Type ℓ} where
  -- `find`.
  unfoldable pub lookup : ℕ → List (ℕ × V) → Option V
  lookup k [] = none
  lookup k ((j, v) ∷ m) = if j == k then some v else lookup k m

  -- `insert` of a key that is not there.
  unfoldable pub insert : ℕ → V → List (ℕ × V) → List (ℕ × V)
  insert k v [] = (k, v) ∷ []
  insert k v ((j, w) ∷ m) = if ltb k j then (k, v) ∷ (j, w) ∷ m else (j, w) ∷ insert k v m

  -- A write through the iterator that `find` gave.
  unfoldable pub assign : ℕ → V → List (ℕ × V) → List (ℕ × V)
  assign k v [] = []
  assign k v ((j, w) ∷ m) = if j == k then (j, v) ∷ m else (j, w) ∷ assign k v m

  unfoldable pub erase : ℕ → List (ℕ × V) → List (ℕ × V)
  erase k [] = []
  erase k ((j, w) ∷ m) = if j == k then m else (j, w) ∷ erase k m

  -- The keys ascend strictly, from `b` on.
  abbrev pub Ascends : ℕ → List (ℕ × V) → Type 0
  Ascends b [] = Unit {0}
  Ascends b ((j, w) ∷ m) = (b ≤ j) × Ascends (suc j) m

  pub Ascends-mono : {a b : ℕ} (m : List (ℕ × V)) → a ≤ b → Ascends b m → Ascends a m
  Ascends-mono [] h s = tt
  Ascends-mono ((j, w) ∷ m) h s = (omega arith, s.1)

  pub lookup_below : (k b : ℕ) (m : List (ℕ × V)) → Ascends b m → k < b → lookup k m ≡ none
  unfolding lookup
  lookup_below k b [] s h = refl
  lookup_below k b ((j, w) ∷ m) s h = ground (arith, lookup_below k (suc j) m s.1)

  pub lookup-insert :
      (k j : ℕ) (v : V) (m : List (ℕ × V))
      → lookup k m ≡ none
      → lookup j (insert k v m) ≡ (if k == j then some v else lookup j m)
  unfolding lookup insert
  lookup-insert k j v [] h = refl
  lookup-insert k j v ((i, w) ∷ m) h = ground (arith, lookup-insert k j v m)

  pub lookup-assign :
      (k j : ℕ) (v w : V) (m : List (ℕ × V))
      → lookup k m ≡ some w
      → lookup j (assign k v m) ≡ (if k == j then some v else lookup j m)
  unfolding lookup assign
  lookup-assign k j v w [] h = ground arith
  lookup-assign k j v w ((i, u) ∷ m) h = ground (arith, lookup-assign k j v w m)

  pub lookup-erase :
      (k j b : ℕ) (m : List (ℕ × V))
      → Ascends b m
      → lookup j (erase k m) ≡ (if k == j then none else lookup j m)
  unfolding lookup erase
  lookup-erase k j b [] s = ground arith
  lookup-erase k j b ((i, w) ∷ m) s =
      ground (arith, lookup-erase k j (suc i) m s.1, lookup_below j (suc i) m s.1)

  pub insert-Ascends :
      (k b : ℕ) (v : V) (m : List (ℕ × V))
      → lookup k m ≡ none
      → b ≤ k
      → Ascends b m
      → Ascends b (insert k v m)
  unfolding lookup insert
  insert-Ascends k b v [] h l s = (l, tt)
  insert-Ascends k b v ((j, w) ∷ m) h l s = ground (arith, insert-Ascends k (suc j) v m)

  pub assign-Ascends : (k b : ℕ) (v : V) (m : List (ℕ × V)) → Ascends b m → Ascends b (assign k v m)
  unfolding assign
  assign-Ascends k b v [] s = tt
  assign-Ascends k b v ((j, w) ∷ m) s = ground (arith, assign-Ascends k (suc j) v m)

  pub erase-Ascends : (k b : ℕ) (m : List (ℕ × V)) → Ascends b m → Ascends b (erase k m)
  unfolding erase
  erase-Ascends k b [] s = tt
  erase-Ascends k b ((j, w) ∷ m) s =
      ground (arith, erase-Ascends k (suc j) m s.1, Ascends-mono {a = b} {b = suc j} m)

  -- Each entry satisfies `P`.
  abbrev pub Every : (ℕ → V → Type 0) → List (ℕ × V) → Type 0
  Every P [] = Unit {0}
  Every P ((j, w) ∷ m) = P j w × Every P m

  pub Every-lookup :
      (P : ℕ → V → Type 0) (k : ℕ) (v : V) (m : List (ℕ × V))
      → Every P m
      → lookup k m ≡ some v
      → P k v
  unfolding lookup
  Every-lookup P k v [] a h = cc
  Every-lookup P k v ((j, w) ∷ m) a h = ground (arith, a.0, Every-lookup P k v m a.1)

  pub Every-insert :
      (P : ℕ → V → Type 0) (k : ℕ) (v : V) (m : List (ℕ × V))
      → P k v
      → Every P m
      → Every P (insert k v m)
  unfolding insert
  Every-insert P k v [] p a = (p, tt)
  Every-insert P k v ((j, w) ∷ m) p a = ground (arith, Every-insert P k v m p a.1)

  pub Every-assign :
      (P : ℕ → V → Type 0) (k : ℕ) (v : V) (m : List (ℕ × V))
      → P k v
      → Every P m
      → Every P (assign k v m)
  unfolding assign
  Every-assign P k v [] p a = tt
  Every-assign P k v ((j, w) ∷ m) p a = ground (arith, Every-assign P k v m p a.1)

  pub Every-erase :
      (P : ℕ → V → Type 0) (k : ℕ) (m : List (ℕ × V)) → Every P m → Every P (erase k m)
  unfolding erase
  Every-erase P k [] a = tt
  Every-erase P k ((j, w) ∷ m) a = ground (arith, a.1, Every-erase P k m a.1)

  pub Every-mono :
      (P Q : ℕ → V → Type 0) (m : List (ℕ × V))
      → ((j : ℕ) (w : V) → P j w → Q j w)
      → Every P m
      → Every Q m
  Every-mono P Q [] f a = tt
  Every-mono P Q ((j, w) ∷ m) f a = (f j w a.0, Every-mono P Q m f a.1)

  -- An entry of the tail is the entry of the whole map.
  pub lookup-cons :
      (k b j : ℕ) (v w : V) (m : List (ℕ × V))
      → Ascends b ((j, w) ∷ m)
      → lookup k m ≡ some v
      → lookup k ((j, w) ∷ m) ≡ some v
  unfolding lookup
  lookup-cons k b j v w m s h = ground (arith, lookup_below k (suc j) m s.1)

  pub Ascends-Every : (b : ℕ) (m : List (ℕ × V)) → Ascends b m → Every (λ j w. b ≤ j) m
  Ascends-Every b [] s = tt
  Ascends-Every b ((j, w) ∷ m) s =
      (s.0, Every-mono _ _ m (λ i u h. omega arith) (Ascends-Every (suc j) m s.1))
