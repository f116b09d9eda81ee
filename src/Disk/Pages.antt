-- ===== src/Disk/Pages.antt =====
-- What disk_manager.cpp keeps of the pages written to it.
use hivedb.Base.{
  ℕ, ◌-◌, ◌≤◌, ◌≡◌, ◌≢◌, refl, ◌∙◌, sym, ap, true, none, some, List, ◌++◌, pos, negsuc, arith, leb,
  ◌==◌, if◌then◌else◌, length, replicate, fails, Returns, Ensures, Ensures-mono, Ensures-bind,
  ◌>>=◌, Option-cases, inl, inr, lookup, lookup-insert, lookup-assign, runtime_error,
}
use hivedb.Disk.{
  FileSystem, DiskManager, page_size, store, write_offset, write_page, read_offset, read_page, fill,
  delete_page,
}
use mathlib.Core.List.{append-nil}

-- The documented behaviour of a file: what was written at an offset is read there, and lies in it.
pub record KeepsPages {File : Type 0} (fs : FileSystem File) : Type 0 where
  pub read_back :
      (file after : File) (offset : ℕ) (buffer : List ℕ)
      → length buffer ≡ page_size
      → fs.write file offset buffer ≡ some after
      → (fs.read after offset ≡ some buffer) × (offset ≤ fs.get_file_size after)

pub lookup-store :
    (k j v : ℕ) (m : List (ℕ × ℕ))
    → lookup j (store k v m) ≡ (if k == j then some v else lookup j m)
unfolding store
lookup-store k j v m = elim (Option-cases (lookup k m)) [
  | inl e ↦ rw (e, store) (lookup-insert k j v m e)
  | inr (w, e) ↦ rw (e, store) (lookup-assign k j v w m e)
]

fill_full : (b : List ℕ) → length b ≡ page_size → fill b ≡ b
fill_full b e =
    let none_left : page_size - length b ≡ 0 = omega arith in
    ap (λ n. b ++ replicate n 0) none_left ∙ append-nil b

module _ {File : Type 0} (fs : FileSystem File) (keeps : KeepsPages fs) where
  -- What a successful write leaves: the page's offset, and the buffer in the file there.
  pub record Written (m : DiskManager File) (id : ℕ) (buffer : List ℕ) (m' : DiskManager File)
      : Type 0 where
    pub offset : ℕ
    pub place : (write_offset fs m id).1 ≡ offset
    pub pages : m'.pages ≡ store id offset (write_offset fs m id).0.pages
    pub bytes : fs.read m'.db_file offset ≡ some buffer
    pub inside : offset ≤ fs.get_file_size m'.db_file

  write_page-Written :
      (m : DiskManager File) (id : ℕ) (buffer : List ℕ)
      → length buffer ≡ page_size
      → Ensures (write_page fs m (pos id) buffer) (Written m id buffer)
  unfolding write_page
  write_page-Written m id buffer full =
      let at = write_offset fs m id in
      elim (Option-cases (fs.write at.0.db_file at.1 buffer)) [
        | inl failed ↦ rw failed tt
        | inr (file, wrote) ↦
            let kept = keeps.read_back at.0.db_file file at.1 buffer full wrote in
            rw wrote (record {
              offset = at.1;
              place = refl;
              pages = refl;
              bytes = kept.0;
              inside = kept.1;
            })
      ]

  -- A page whose offset holds a full buffer inside the file reads as that buffer.
  read_at :
      (m : DiskManager File) (id offset : ℕ) (buffer : List ℕ)
      → lookup id m.pages ≡ some offset
      → fs.read m.db_file offset ≡ some buffer
      → offset ≤ fs.get_file_size m.db_file
      → length buffer ≡ page_size
      → Returns (read_page fs m (pos id)) (λ r. r.1 ≡ buffer)
  unfolding read_page read_offset
  read_at m id offset buffer e bytes inside full =
      let check : leb offset (fs.get_file_size m.db_file) ≡ true = ground arith in
      ground (arith, fill_full buffer full)

  -- A page that was written successfully reads back at once, whichever offset it was given.
  pub read_page-write_page :
      (m : DiskManager File) (id : ℕ) (buffer : List ℕ)
      → length buffer ≡ page_size
      → Ensures
          (write_page fs m (pos id) buffer)
          (λ m'. Returns (read_page fs m' (pos id)) (λ r. r.1 ≡ buffer))
  read_page-write_page m id buffer full =
      Ensures-mono (Written m id buffer) _ (write_page fs m (pos id) buffer)
        (λ m' w.
          read_at m' id w.offset buffer
            (ap (lookup id) w.pages ∙ lookup-store id id w.offset _ ∙ ground arith) w.bytes w.inside
            full)
        (write_page-Written m id buffer full)

  write_offset_new :
      (m : DiskManager File) (id : ℕ)
      → lookup id m.pages ≡ none
      → write_offset fs m id ≡ (record m { pages = store id 0 m.pages }, 0)
  unfolding write_offset
  write_offset_new m id new = ground arith

  first_write :
      (m m' : DiskManager File) (id : ℕ) (buffer : List ℕ) (j : ℕ)
      → lookup id m.pages ≡ none
      → (w : Written m id buffer m')
      → (w.offset ≡ 0) × (lookup j m'.pages ≡ (if id == j then some 0 else lookup j m.pages))
  first_write m m' id buffer j new w =
      let at = write_offset_new m id new in
      let start : w.offset ≡ 0 = sym w.place ∙ ap (λ (x : DiskManager File × ℕ). x.1) at in
      let tables = ap (λ (x : DiskManager File × ℕ). x.0.pages) at in
      (
        start,
        ap (lookup j) w.pages
            ∙ lookup-store id j w.offset _
            ∙ ground (arith, start, ap (lookup j) tables, lookup-store id j 0 m.pages),
      )

  -- After a page `a` and then another page `b`, both unknown to the manager before, were written
  -- successfully, reading `a` gives what was written to `b`.
  pub first_writes_collide :
      (m : DiskManager File) (a b : ℕ) (buffer_a buffer_b : List ℕ)
      → lookup a m.pages ≡ none
      → lookup b m.pages ≡ none
      → a ≢ b
      → length buffer_a ≡ page_size
      → length buffer_b ≡ page_size
      → Ensures
          (do m' ← write_page fs m (pos a) buffer_a; write_page fs m' (pos b) buffer_b)
          (λ m'. Returns (read_page fs m' (pos a)) (λ r. r.1 ≡ buffer_b))
  first_writes_collide m a b buffer_a buffer_b new_a new_b ne full_a full_b =
      Ensures-bind (Written m a buffer_a) _ (write_page fs m (pos a) buffer_a)
        (λ m'. write_page fs m' (pos b) buffer_b) (write_page-Written m a buffer_a full_a)
        (λ m₁ w₁.
          let still_new : lookup b m₁.pages ≡ none =
            (first_write m m₁ a buffer_a b new_a w₁).1 ∙ ground (arith, new_b) in
          Ensures-mono (Written m₁ b buffer_b) _ (write_page fs m₁ (pos b) buffer_b)
            (λ m₂ w₂.
              read_at m₂ a w₂.offset buffer_b
                (ground (
                  arith,
                  first_write m₁ m₂ b buffer_b a still_new w₂,
                  first_write m m₁ a buffer_a a new_a w₁,
                ))
                w₂.bytes w₂.inside full_b)
            (write_page-Written m₁ b buffer_b full_b))

module _ {File : Type 0} (fs : FileSystem File) where
  -- Each operation refuses a negative page id, before it touches the file or the tables.
  pub negative_ids_refused :
      (m : DiskManager File) (n : ℕ) (buffer : List ℕ)
      → (write_page fs m (negsuc n) buffer ≡ fails runtime_error)
        × (read_page fs m (negsuc n) ≡ fails runtime_error)
        × (delete_page fs m (negsuc n) ≡ fails runtime_error)
  unfolding write_page read_page delete_page
  negative_ids_refused m n buffer = (refl, refl, refl)
