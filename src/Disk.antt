-- ===== src/Disk.antt =====
-- include/disk/disk_manager.hpp and src/disk/disk_manager.cpp: pages in a database file.
-- The file is behind std::fstream, std::filesystem and stat, which are parameters; a page is a list of
-- bytes. Sizes and offsets are 64-bit, with their wrap-around written out.
pub mod Pages
mod Examples
use hivedb.Base.{
  ℕ, zero, suc, ◌+◌, ◌-◌, ◌*◌, ◌%◌, ◌^◌, Bool, true, false, Option, none, some, List, [], ◌∷◌, ◌++◌,
  ℤ, pos, negsuc, ltb, leb, if◌then◌else◌, length, replicate, Outcome, ok, fails, ◌>>=◌, ◌>>◌,
  require, or_fail, runtime_error, out_of_bounds, lookup, insert, assign, erase, not,
}

abbrev pub page_size : ℕ
page_size = 4096

abbrev pub default_number_of_pages : ℕ
default_number_of_pages = 16

-- The arithmetic of std::size_t.
abbrev pub times : ℕ → ℕ → ℕ
times a b = (a * b) % 2 ^ 64

-- What the code uses of the file: `read` gives the bytes from an offset on, at most a page of them,
-- and `write` fails where `bad()` holds after it.
pub record FileSystem (File : Type 0) : Type 0 where
  pub resize_file : File → ℕ → File
  pub get_file_size : File → ℕ
  pub read : File → ℕ → Option (List ℕ)
  pub write : File → ℕ → List ℕ → Option File

pub record DiskManager (File : Type 0) : Type 0 where
  pub current_pages : ℕ
  pub pages : List (ℕ × ℕ)
  pub free_offsets : List ℕ
  pub db_file : File

-- `m_pages[id] = offset`.
unfoldable pub store : ℕ → ℕ → List (ℕ × ℕ) → List (ℕ × ℕ)
store id offset pages = elim (lookup id pages) [
  | none ↦ insert id offset pages
  | some _ ↦ assign id offset pages
]

-- The bytes that were read, filled up with zeros to a page.
abbrev pub fill : List ℕ → List ℕ
fill bytes = bytes ++ replicate (page_size - length bytes) 0

-- `free_offsets.back()` is the head of the list here.
module _ {File : Type 0} (fs : FileSystem File) where
  -- The constructor, on the opened file.
  unfoldable pub make : File → DiskManager File
  make file = record {
    current_pages = default_number_of_pages;
    pages = [];
    free_offsets = [];
    db_file = fs.resize_file file (times (default_number_of_pages + 1) page_size);
  }

  -- `m_current_pages *= 2` and the new size of the file.
  grow : DiskManager File → DiskManager File
  grow m =
      if leb m.current_pages (length m.pages + 1)
      then record m {
        current_pages = times m.current_pages 2;
        db_file = fs.resize_file m.db_file (times (times m.current_pages 2 + 1) page_size);
      }
      else m

  allocate_from : DiskManager File → List ℕ → DiskManager File × ℕ
  unfolding grow
  allocate_from m (offset ∷ rest) = (record m { free_offsets = rest }, offset)
  allocate_from m [] = (grow m, times (length m.pages) page_size)

  unfoldable pub allocate_new_page : DiskManager File → DiskManager File × ℕ
  unfolding allocate_from
  allocate_new_page m = allocate_from m m.free_offsets

  -- The conditional in `write_page`: a page that is known is allocated anew, and `m_pages[id]` of one
  -- that is not inserts the offset 0.
  unfoldable pub write_offset : DiskManager File → ℕ → DiskManager File × ℕ
  write_offset m id = elim (lookup id m.pages) [
    | some _ ↦ allocate_new_page m
    | none ↦ (record m { pages = store id 0 m.pages }, 0)
  ]

  unfoldable pub write_page : DiskManager File → ℤ → List ℕ → Outcome (DiskManager File)
  write_page m (negsuc n) buffer = fails runtime_error
  write_page m (pos id) buffer = do
    let placed = write_offset m id
    file ← or_fail (fs.write (placed.0).db_file placed.1 buffer) runtime_error
    ok (record (placed.0) { pages = store id placed.1 (placed.0).pages; db_file = file })

  -- The conditional in `read_page`.
  unfoldable pub read_offset : DiskManager File → ℕ → DiskManager File × ℕ
  read_offset m id = elim (lookup id m.pages) [
    | some offset ↦ (m, offset)
    | none ↦ allocate_new_page m
  ]

  unfoldable pub read_page : DiskManager File → ℤ → Outcome (DiskManager File × List ℕ)
  read_page m (negsuc n) = fails runtime_error
  read_page m (pos id) = do
    let found = read_offset m id
    require (leb found.1 (fs.get_file_size (found.0).db_file)) runtime_error
    bytes ← or_fail (fs.read (found.0).db_file found.1) runtime_error
    ok (record (found.0) { pages = store id found.1 (found.0).pages }, fill bytes)

  -- The write of a page from a null pointer is undefined.
  unfoldable pub delete_page : DiskManager File → ℤ → Outcome (DiskManager File)
  delete_page m (negsuc n) = fails runtime_error
  delete_page m (pos id) = elim (lookup id m.pages) [
    | none ↦ fails runtime_error
    | some offset ↦ fails out_of_bounds
  ]
