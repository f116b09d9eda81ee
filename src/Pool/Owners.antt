-- ===== src/Pool/Owners.antt =====
-- The page table and the list of empty frames as counts of frame ids: how often a frame is held by a
-- page or stands among the empty ones.
use hivedb.Base.{
  ℕ, zero, suc, ◌+◌, ◌≤◌, ◌≡◌, none, some, List, [], ◌∷◌, ◌++◌, arith, ltb, ◌==◌, if◌then◌else◌,
  length, lookup, erase, one_if, ap, Bool-cases, inl, inr,
}
use hivedb.Pool.{page_in, count_up}

abbrev pub held : ℕ → List (ℕ × ℕ) → ℕ
held f [] = 0
held f ((page, g) ∷ rest) = one_if (g == f) + held f rest

abbrev pub occurs : ℕ → List ℕ → ℕ
occurs f [] = 0
occurs f (g ∷ rest) = one_if (g == f) + occurs f rest

-- No page stands in the table twice.
abbrev pub IsTable : List (ℕ × ℕ) → Type 0
IsTable [] = Unit {0}
IsTable ((page, f) ∷ rest) = (lookup page rest ≡ none) × IsTable rest

pub occurs-append :
    (f g : ℕ) (xs : List ℕ) → occurs f (xs ++ g ∷ []) ≡ occurs f xs + one_if (g == f)
occurs-append f g [] = omega arith
occurs-append f g (x ∷ xs) = omega (arith, occurs-append f g xs)

pub held-erase :
    (f g page : ℕ) (t : List (ℕ × ℕ))
    → lookup page t ≡ some g
    → held f (erase page t) + one_if (g == f) ≡ held f t
unfolding lookup erase
held-erase f g page [] e = cc
held-erase f g page ((q, h) ∷ t) e = ground (arith, held-erase f g page t)

pub length-erase :
    (g page : ℕ) (t : List (ℕ × ℕ)) → lookup page t ≡ some g → length (erase page t) + 1 ≡ length t
unfolding lookup erase
length-erase g page [] e = cc
length-erase g page ((q, h) ∷ t) e = ground (arith, length-erase g page t)

pub held-lookup : (f page : ℕ) (t : List (ℕ × ℕ)) → lookup page t ≡ some f → 1 ≤ held f t
unfolding lookup
held-lookup f page [] e = cc
held-lookup f page ((q, h) ∷ t) e = ground (arith, held-lookup f page t)

pub lookup-erase_table :
    (k j : ℕ) (t : List (ℕ × ℕ))
    → IsTable t
    → lookup j (erase k t) ≡ (if k == j then none else lookup j t)
unfolding lookup erase
lookup-erase_table k j [] s = ground arith
lookup-erase_table k j ((q, h) ∷ t) s = ground (arith, lookup-erase_table k j t s.1)

pub erase-IsTable : (k : ℕ) (t : List (ℕ × ℕ)) → IsTable t → IsTable (erase k t)
unfolding erase
erase-IsTable k [] s = tt
erase-IsTable k ((q, h) ∷ t) s = ground (arith, erase-IsTable k t s.1, lookup-erase_table k q t s.1)

-- A frame that is held has a page, and the table leads from the page to it.
pub page_in_total :
    (f : ℕ) (t : List (ℕ × ℕ)) → 1 ≤ held f t → (page : ℕ) × (page_in f t ≡ some page)
unfolding page_in
page_in_total f [] h = absurd (omega arith)
page_in_total f ((q, g) ∷ t) h = elim (Bool-cases (g == f)) [
  | inl e ↦ (q, rw e)
  | inr e ↦ let rest = page_in_total f t (omega (arith, ap one_if e)) in (rest.0, rw e rest.1)
]

pub lookup-page_in :
    (f page : ℕ) (t : List (ℕ × ℕ)) → IsTable t → page_in f t ≡ some page → lookup page t ≡ some f
unfolding page_in lookup
lookup-page_in f page [] s e = cc
lookup-page_in f page ((q, g) ∷ t) s e = ground (arith, lookup-page_in f page t s.1)

-- Two pages in one frame are one page.
pub lookup_injective :
    (f a b : ℕ) (t : List (ℕ × ℕ))
    → held f t ≤ 1
    → lookup a t ≡ some f
    → lookup b t ≡ some f
    → a ≡ b
unfolding lookup
lookup_injective f a b [] h p q = cc
lookup_injective f a b ((c, g) ∷ t) h p q =
    ground (arith, held-lookup f a t, held-lookup f b t, lookup_injective f a b t)

pub occurs-count_up :
    (f i n : ℕ) → occurs f (count_up i n) + one_if (ltb f i) ≡ one_if (ltb f (i + n))
occurs-count_up f i zero = ground arith
occurs-count_up f i (suc n) = ground (arith, occurs-count_up f (suc i) n)
