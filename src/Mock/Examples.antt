-- ===== src/Mock/Examples.antt =====
-- The theorems on the mock at an empty file.
use hivedb.Base.{
  ℕ, ◌≡◌, ◌==◌, if◌then◌else◌, arith, some, List, [], ◌∷◌, pos, get_elem?, ok, fails, Returns,
  out_of_bounds,
}
use hivedb.Mock.{MockFile, grow, read_page, write_page}
use hivedb.Mock.Pages.{mock_reads_back, mock_out_of_bounds}

abbrev empty_file : MockFile
empty_file = record { pages = [] }

abbrev new_page : List ℕ
new_page = 1 ∷ 2 ∷ 3 ∷ []

mock_reads_back_example : Returns (write_page empty_file (pos 5) new_page) (λ m'.
    (j : ℕ) (old page : List ℕ)
    → get_elem? (grow empty_file 5).pages j ≡ some page
    → read_page m' (pos j) old ≡ ok (m', if 5 == j then new_page else page))
mock_reads_back_example = mock_reads_back empty_file 5 new_page (omega arith)

mock_out_of_bounds_example :
    (read_page empty_file (pos 6) new_page ≡ fails out_of_bounds)
    × (write_page empty_file (pos 6) new_page ≡ fails out_of_bounds)
mock_out_of_bounds_example = mock_out_of_bounds empty_file 6 new_page (omega arith)
