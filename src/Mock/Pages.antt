-- ===== src/Mock/Pages.antt =====
-- What the mock keeps of the pages written to it, and where it reads outside its vector.
use hivedb.Base.{
  ℕ, ◌+◌, ◌≤◌, ◌<◌, ◌≡◌, refl, ◌∙◌, none, some, List, pos, arith, ltb, ◌==◌, if◌then◌else◌, length,
  length-append, length-replicate, length-set, get_elem?, get_elem?_total, get_elem?-lt,
  get_elem?_outside, get_elem?-set, set, replicate, ok, fails, Returns, out_of_bounds,
}
use hivedb.Disk.{page_size}
use hivedb.Mock.{MockFile, grow, read_page, write_page}

length-grow :
    (m : MockFile) (id : ℕ)
    → length (grow m id).pages
      ≡ (if ltb id (length m.pages) then length m.pages else length m.pages + 6)
unfolding grow
length-grow m id =
    let blank : List ℕ = replicate page_size 0 in
    ground (arith, length-append m.pages (replicate 6 blank), length-replicate 6 blank)

grow_again :
    (m : MockFile) (pages : List (List ℕ)) (j : ℕ)
    → j < length pages
    → grow (record m { pages = pages }) j ≡ record m { pages = pages }
unfolding grow
grow_again m pages j h = ground arith

read_inside :
    (m : MockFile) (j : ℕ) (buffer page : List ℕ)
    → j < length m.pages
    → get_elem? m.pages j ≡ some page
    → read_page m (pos j) buffer ≡ ok (m, page)
unfolding read_page grow
read_inside m j buffer page h e = ground arith

-- After a page was written whose id is at most five past the end of the file, the write returns, a
-- read of that page gives what was written, and a read of another page of the file gives what it gave
-- in the file before, grown for the write.
pub mock_reads_back :
    (m : MockFile) (id : ℕ) (buffer : List ℕ)
    → id < length m.pages + 6
    → Returns (write_page m (pos id) buffer) (λ m'.
      (j : ℕ) (old page : List ℕ)
      → get_elem? (grow m id).pages j ≡ some page
      → read_page m' (pos j) old ≡ ok (m', if id == j then buffer else page))
unfolding write_page
mock_reads_back m id buffer h =
    let inside : id < length (grow m id).pages = ground (arith, length-grow m id) in
    let found = get_elem?_total (grow m id).pages id inside in
    let after = set (grow m id).pages id buffer in
    simp (found.1) (λ j old page e.
      read_inside (record m { pages = after }) j old (if id == j then buffer else page)
        (omega
          (arith, length-set (grow m id).pages id buffer, get_elem?-lt (grow m id).pages j page e))
        (get_elem?-set (grow m id).pages id j buffer inside ∙ ground (arith, e)))

-- A page whose id is six or more past the end is outside the vector even after it has grown.
pub mock_out_of_bounds :
    (m : MockFile) (id : ℕ) (buffer : List ℕ)
    → length m.pages + 6 ≤ id
    → (read_page m (pos id) buffer ≡ fails out_of_bounds)
      × (write_page m (pos id) buffer ≡ fails out_of_bounds)
unfolding read_page write_page
mock_out_of_bounds m id buffer h =
    let outside : get_elem? (grow m id).pages id ≡ none =
      get_elem?_outside (grow m id).pages id (ground (arith, length-grow m id)) in
    (simp outside refl, simp outside refl)
