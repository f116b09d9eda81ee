-- ===== src/Storage/Nonempty.antt =====
-- What `fetch` gives has no name without a field.
use hivedb.Base.{
  ℕ, zero, suc, ◌+◌, ◌<◌, ◌≡◌, subst, Bool, true, false, same_text, if◌then◌else◌, if-cases, Option,
  some, some_injective, List, [], ◌∷◌, ◌++◌, length, length-append, arith, Outcome, ok, fails,
  require, ltb, out_of_bounds, Ensures, Ensures-bind,
}
use hivedb.Storage.{
  Table, ColumnToFetch, FetchedColumns, FetchedDataMap, find, append_fetched, fetch_row, fetch_loop,
}

-- No name with nothing under it.
abbrev pub AllNonempty : FetchedDataMap → Type 0
AllNonempty [] = Unit {0}
AllNonempty ((k, xs) ∷ more) = (0 < length xs) × AllNonempty more

length_fields : (xs ys : List FetchedColumns) → length (xs ++ ys) ≡ length xs + length ys
length_fields = length-append

append_fetched-AllNonempty :
    (name : List ℕ) (x : FetchedColumns) (fetched : FetchedDataMap)
    → AllNonempty fetched
    → AllNonempty (append_fetched name x fetched)
unfolding append_fetched
append_fetched-AllNonempty name x [] h = (omega arith, tt)
append_fetched-AllNonempty name x ((k, xs) ∷ more) (h, hs) =
    if-cases AllNonempty (same_text k name) (λ e. (omega (arith, length_fields xs (x ∷ [])), hs))
      (λ e. (h, append_fetched-AllNonempty name x more hs))

fetch_row-AllNonempty :
    (bytes : List ℕ) (idx : ℕ) (clms : List ColumnToFetch) (fetched : FetchedDataMap)
    → AllNonempty fetched
    → Ensures (fetch_row bytes idx clms fetched) AllNonempty
unfolding fetch_row
fetch_row-AllNonempty bytes idx [] fetched h = h
fetch_row-AllNonempty bytes idx (clm ∷ more) fetched h =
    Ensures-bind (λ u. Unit {0}) AllNonempty
      (require (ltb (idx + clm.offset) (length bytes)) out_of_bounds) _ (any _)
      λ u t.
        fetch_row-AllNonempty bytes idx more _ (append_fetched-AllNonempty clm.name _ fetched h)
  where
    any : (o : Outcome (Unit {0})) → Ensures o (λ u. Unit {0})
    any (ok u) = tt
    any (fails x) = tt

pub fetch_loop-AllNonempty :
    (f : ℕ) (table : Table) (clms : List ColumnToFetch) (idx : ℕ) (fetched : FetchedDataMap)
    → AllNonempty fetched
    → Ensures (fetch_loop f table clms idx fetched) AllNonempty
unfolding fetch_loop
fetch_loop-AllNonempty zero table clms idx fetched h = tt
fetch_loop-AllNonempty (suc f) table clms idx fetched h =
    if-cases (λ (o : Outcome FetchedDataMap). Ensures o AllNonempty) (ltb idx (length table.bytes))
      (λ e.
        Ensures-bind AllNonempty AllNonempty (fetch_row table.bytes idx clms fetched) _
          (fetch_row-AllNonempty table.bytes idx clms fetched h)
          (fetch_loop-AllNonempty f table clms (idx + table.row_size)))
      (λ e. h)

pub found_nonempty :
    (name : List ℕ) (xs : List FetchedColumns) (fetched : FetchedDataMap)
    → AllNonempty fetched
    → find name fetched ≡ some xs
    → 0 < length xs
found_nonempty name xs [] h e = cc
found_nonempty name xs ((k, ys) ∷ more) (h, hs) e =
    on (found_nonempty name xs more hs) (same_text k name) e
  where
    on :
        (find name more ≡ some xs → 0 < length xs)
        → (b : Bool) → (if b then some ys else find name more) ≡ some xs
        → 0 < length xs
    on later true e = subst (λ zs. 0 < length zs) (some_injective ys xs e) h
    on later false e = later e

-- `begin` gives an entry of a map that has one.
abbrev pub Begins : (FetchedDataMap → Option (List ℕ × List FetchedColumns)) → Type 0
Begins begin =
    (k : List ℕ) (xs : List FetchedColumns) (more : FetchedDataMap)
    → (x : List ℕ × List FetchedColumns) × (begin ((k, xs) ∷ more) ≡ some x)
      × (find x.0 ((k, xs) ∷ more) ≡ some x.1)
