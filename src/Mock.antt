-- ===== src/Mock.antt =====
-- include/disk/disk_manager_mock.hpp and src/disk/disk_manager_mock.cpp: the disk manager in memory.
-- A page is a list of bytes. The buffer of a read is an argument and a result.
pub mod Pages
mod Examples
use hivedb.Base.{
  ℕ, ◌+◌, Option, none, some, List, [], ◌++◌, ℤ, pos, negsuc, ltb, if◌then◌else◌, length, get_elem?,
  set, replicate, Outcome, ok, ◌>>=◌, or_fail, out_of_bounds,
}
use hivedb.Disk.{page_size}

pub record MockFile : Type 0 where
  pub pages : List (List ℕ)

-- `m_mock_file.resize(m_mock_file.size() + 6)` where the id is not in the file yet.
unfoldable pub grow : MockFile → ℕ → MockFile
grow m id =
    if ltb id (length m.pages)
    then m
    else record m { pages = m.pages ++ replicate 6 (replicate page_size 0) }

-- `m_mock_file[id]` outside the vector is undefined.
unfoldable pub read_page : MockFile → ℤ → List ℕ → Outcome (MockFile × List ℕ)
read_page m (negsuc n) buffer = ok (m, buffer)
read_page m (pos id) buffer = do
  page ← or_fail (get_elem? (grow m id).pages id) out_of_bounds
  ok (grow m id, page)

unfoldable pub write_page : MockFile → ℤ → List ℕ → Outcome MockFile
write_page m (negsuc n) buffer = ok m
write_page m (pos id) buffer = do
  _ ← or_fail (get_elem? (grow m id).pages id) out_of_bounds
  ok (record m { pages = set (grow m id).pages id buffer })
