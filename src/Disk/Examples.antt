-- ===== src/Disk/Examples.antt =====
-- The theorems on the disk manager with a file that is a size and the bytes written at each offset.
use hivedb.Base.{
  ℕ, ◌≡◌, ◌≢◌, ◌≤◌, ◌+◌, ◌==◌, if◌then◌else◌, arith, some, none, List, [], length, replicate,
  length-replicate, Returns, Ensures, ◌>>=◌, pos, refl, sym, ap, ◌∙◌, subst, ltb, lookup,
}
use hivedb.Disk.{FileSystem, DiskManager, page_size, write_page, read_page}
use hivedb.Disk.Pages.{KeepsPages, read_page-write_page, first_writes_collide}

record File : Type 0 where
  size : ℕ
  bytes_at : ℕ → List ℕ

abbrev files : FileSystem File
files = record {
  resize_file = λ file n. record file { size = n };
  get_file_size = λ file. file.size;
  read = λ file offset. some (file.bytes_at offset);
  write = λ file offset buffer. some (record {
    size = if ltb file.size (offset + length buffer) then offset + length buffer else file.size;
    bytes_at = λ other. if offset == other then buffer else file.bytes_at other;
  });
}

some_injective : {A : Type 0} (x y : A) → some x ≡ some y → x ≡ y
some_injective x y e = ground arith

files-KeepsPages : KeepsPages files
files-KeepsPages = record {
  read_back = λ file after offset buffer full wrote.
      let e = some_injective _ after wrote in
      (
        sym (ap (λ (f : File). some (f.bytes_at offset)) e) ∙ ground arith,
        subst (λ (f : File). offset ≤ f.size) e (ground arith),
      );
}

abbrev empty_file : File
empty_file = record { size = 0; bytes_at = λ offset. [] }

abbrev manager : DiskManager File
manager = record { current_pages = 16; pages = []; free_offsets = []; db_file = empty_file }

abbrev ones : List ℕ
ones = replicate page_size 1

abbrev twos : List ℕ
twos = replicate page_size 2

page_of_length : (byte : ℕ) → length (replicate page_size byte) ≡ page_size
page_of_length byte = length-replicate page_size byte

read_page-write_page_example :
    Ensures
      (write_page files manager (pos 3) ones)
      (λ m'. Returns (read_page files m' (pos 3)) (λ r. r.1 ≡ ones))
read_page-write_page_example =
    read_page-write_page files files-KeepsPages manager 3 ones (page_of_length 1)

manager_new : (id : ℕ) → lookup id manager.pages ≡ none
unfolding lookup
manager_new id = refl

three_is_not_four : ◌≢◌ {A = ℕ} 3 4
three_is_not_four e = omega arith

first_writes_collide_example :
    Ensures
      (do m' ← write_page files manager (pos 3) ones; write_page files m' (pos 4) twos)
      (λ m'. Returns (read_page files m' (pos 3)) (λ r. r.1 ≡ twos))
first_writes_collide_example =
    first_writes_collide files files-KeepsPages manager 3 4 ones twos (manager_new 3)
      (manager_new 4) three_is_not_four (page_of_length 1) (page_of_length 2)
