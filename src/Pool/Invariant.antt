-- ===== src/Pool/Invariant.antt =====
-- The pool's invariant, and the two ways in which the code moves a frame: out of the page table to the
-- end of the empty frames, and from their front into the page table.
use hivedb.Base.{
  ℕ, ◌+◌, ◌≤◌, ◌<◌, ◌≡◌, true, false, none, some, List, [], ◌∷◌, ◌++◌, arith, subst, ltb, ◌==◌,
  length, get_elem?, set, length-set, get_elem?-set, lookup, erase, one_if, ap, Bool-cases, inl,
  inr, length-append, ◌∙◌,
}
use hivedb.Lru.{LruK}
use hivedb.Lru.Invariant
use hivedb.Lru.Status.{ready, Stepped, Retired}
use hivedb.Pool.{blank}
use hivedb.Pool.Monad.{Pool, Frame}
use hivedb.Pool.Owners.{
  held, occurs, IsTable, occurs-append, held-erase, length-erase, held-lookup, erase-IsTable,
}

module _ {Page : Type 0} where
  -- The frame `f` carries its own index and a buffer.
  abbrev pub HoldsPage : ℕ → List (Frame Page) → Type 0
  HoldsPage f frames =
      (frame : Frame Page) × (get_elem? frames f ≡ some frame)
      × (frame.frame_id ≡ some f)
      × (buffer : Page) × (frame.contents ≡ some buffer)

-- Each frame is held by one page or is empty, once; frames that pages hold are loaded; and the
-- replacer makes no other frame a victim.
pub record IsValid {Disk Page : Type 0} (p : Pool Disk Page) : Type 0 where
  pub frame_count : length p.frames ≡ p.max_frames
  pub replacer : Invariant.IsValid p.frame_replacer
  pub replacer_size : p.frame_replacer.size ≡ p.max_frames
  pub replacer_k : 2 ≤ p.frame_replacer.k
  pub table : IsTable p.page_table
  pub total : length p.page_table + length p.empty_frames ≡ p.max_frames
  pub owned : (f : ℕ) → held f p.page_table + occurs f p.empty_frames ≡ one_if (ltb f p.max_frames)
  pub holds : (f : ℕ) → 1 ≤ held f p.page_table → HoldsPage f p.frames
  pub mapped : (f : ℕ) → ready f p.frame_replacer ≡ true → 1 ≤ held f p.page_table

module _ {Disk Page : Type 0} (p : Pool Disk Page) where
  -- The pool after `evict_page page`, which frees `f` and leaves the replacer `r`.
  abbrev pub evicted : ℕ → ℕ → LruK → Pool Disk Page
  evicted page f r = record p {
    frame_replacer = r;
    page_table = erase page p.page_table;
    frames = set p.frames f blank;
    empty_frames = p.empty_frames ++ f ∷ [];
  }

  -- The pool after the front `f` of the empty frames was given to the page `id`, with the frame
  -- `frame` and the replacer `r`.
  abbrev pub placed : ℕ → ℕ → List ℕ → Frame Page → LruK → Pool Disk Page
  placed id f rest frame r = record p {
    frame_replacer = r;
    page_table = (id, f) ∷ p.page_table;
    frames = set p.frames f frame;
    empty_frames = rest;
  }

module _ {Disk Page : Type 0} (p : Pool Disk Page) (v : IsValid p) where
  -- A frame that a page holds is a frame of the pool.
  pub held-lt : (f : ℕ) → 1 ≤ held f p.page_table → f < p.max_frames
  held-lt f h = ground (arith, v.owned f)

  pub evicted-IsValid :
      (page f : ℕ) (r : LruK)
      → lookup page p.page_table ≡ some f
      → Retired f p.frame_replacer r
      → IsValid (evicted p page f r)
  evicted-IsValid page f r e t =
      let here : f < length p.frames =
        omega (arith, v.frame_count, held-lt f (held-lookup f page p.page_table e)) in
      record {
        frame_count = length-set p.frames f blank ∙ v.frame_count;
        replacer = t.valid;
        replacer_size = t.same_size ∙ v.replacer_size;
        replacer_k = rw t.same_k v.replacer_k;
        table = erase-IsTable page p.page_table v.table;
        total = omega (
          arith,
          v.total,
          length-erase f page p.page_table e,
          length-append p.empty_frames (f ∷ []),
        );
        owned = λ g. omega (
          arith,
          v.owned g,
          held-erase g f page p.page_table e,
          occurs-append g f p.empty_frames,
        );
        holds = λ g h.
            let was = held-erase g f page p.page_table e in
            let old = v.holds g (omega arith) in
            (
              old.0,
              get_elem?-set p.frames f g blank here ∙ ground (arith, v.owned f, v.owned g, old.1),
              old.2,
              old.3,
              old.4,
            );
        mapped = λ g h. elim (Bool-cases (f == g)) [
          | inl same ↦
              let e' : f ≡ g = ground arith in
              let gone : ready g r ≡ false = subst (λ x. ready x r ≡ false) e' t.retired in
              cc (gone, h)
          | inr other ↦ omega (
            arith,
            v.mapped g (t.others g h),
            held-erase g f page p.page_table e,
            ap one_if other,
          )
        ];
      }

  pub front-lt : (f : ℕ) (rest : List ℕ) → p.empty_frames ≡ f ∷ rest → f < p.max_frames
  front-lt f rest e = ground (arith, v.owned f, ap (occurs f) e)

  pub placed-IsValid :
      (id f : ℕ) (rest : List ℕ) (frame : Frame Page) (buffer : Page) (r : LruK) {n : ℕ}
      → p.empty_frames ≡ f ∷ rest
      → lookup id p.page_table ≡ none
      → frame.frame_id ≡ some f
      → frame.contents ≡ some buffer
      → Stepped n f p.frame_replacer r
      → IsValid (placed p id f rest frame r)
  placed-IsValid id f rest frame buffer r e new own has t =
      let here : f < length p.frames = omega (arith, v.frame_count, front-lt f rest e) in
      record {
        frame_count = length-set p.frames f frame ∙ v.frame_count;
        replacer = t.valid;
        replacer_size = t.same_size ∙ v.replacer_size;
        replacer_k = rw t.same_k v.replacer_k;
        table = (new, v.table);
        total = omega (arith, v.total, ap length e);
        owned = λ g. omega (arith, v.owned g, ap (occurs g) e);
        holds = λ g h. elim (Bool-cases (f == g)) [
          | inl same ↦ (
            frame,
            get_elem?-set p.frames f g frame here ∙ rw same,
            own ∙ ground arith,
            buffer,
            has,
          )
          | inr other ↦
              let old = v.holds g (omega (arith, ap one_if other)) in
              (old.0, get_elem?-set p.frames f g frame here ∙ rw other old.1, old.2, old.3, old.4)
        ];
        mapped = λ g h. elim (Bool-cases (f == g)) [
          | inl same ↦ omega (arith, ap one_if same)
          | inr other ↦ omega (arith, v.mapped g (t.others g h (λ q. ground arith)))
        ];
      }

  -- A change of a frame that leaves its index and keeps a buffer.
  pub reframed-IsValid :
      (f : ℕ) (frame : Frame Page) (buffer : Page)
      → f < p.max_frames
      → frame.frame_id ≡ some f
      → frame.contents ≡ some buffer
      → IsValid (record p { frames = set p.frames f frame })
  reframed-IsValid f frame buffer h own has =
      let here : f < length p.frames = omega (arith, v.frame_count) in
      record {
        frame_count = length-set p.frames f frame ∙ v.frame_count;
        replacer = v.replacer;
        replacer_size = v.replacer_size;
        replacer_k = v.replacer_k;
        table = v.table;
        total = v.total;
        owned = v.owned;
        holds = λ g h. elim (Bool-cases (f == g)) [
          | inl same ↦ (
            frame,
            get_elem?-set p.frames f g frame here ∙ rw same,
            own ∙ ground arith,
            buffer,
            has,
          )
          | inr other ↦
              let old = v.holds g h in
              (old.0, get_elem?-set p.frames f g frame here ∙ rw other old.1, old.2, old.3, old.4)
        ];
        mapped = v.mapped;
      }

  -- A call of the replacer about a frame that a page holds.
  pub on_replacer-IsValid :
      (f : ℕ) (r : LruK) {n : ℕ}
      → 1 ≤ held f p.page_table
      → Stepped n f p.frame_replacer r
      → IsValid (record p { frame_replacer = r })
  on_replacer-IsValid f r h t = record {
    frame_count = v.frame_count;
    replacer = t.valid;
    replacer_size = t.same_size ∙ v.replacer_size;
    replacer_k = rw t.same_k v.replacer_k;
    table = v.table;
    total = v.total;
    owned = v.owned;
    holds = v.holds;
    mapped = λ g ready_g. elim (Bool-cases (f == g)) [
      | inl same ↦ let e : f ≡ g = ground arith in rw (← e) h
      | inr other ↦ v.mapped g (t.others g ready_g (λ q. ground arith))
    ];
  }

  pub ask_replacer-IsValid :
      (f : ℕ) (r : LruK) → Retired f p.frame_replacer r → IsValid (record p { frame_replacer = r })
  ask_replacer-IsValid f r t = record {
    frame_count = v.frame_count;
    replacer = t.valid;
    replacer_size = t.same_size ∙ v.replacer_size;
    replacer_k = rw t.same_k v.replacer_k;
    table = v.table;
    total = v.total;
    owned = v.owned;
    holds = v.holds;
    mapped = λ g h. v.mapped g (t.others g h);
  }

  -- The disk's state is no part of it.
  pub rescheduled-IsValid : (d : Disk) → IsValid (record p { scheduler = d })
  rescheduled-IsValid d = record {
    frame_count = v.frame_count;
    replacer = v.replacer;
    replacer_size = v.replacer_size;
    replacer_k = v.replacer_k;
    table = v.table;
    total = v.total;
    owned = v.owned;
    holds = v.holds;
    mapped = v.mapped;
  }
