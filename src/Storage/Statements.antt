-- ===== src/Storage/Statements.antt =====
-- `createTable` and `insertIntoTable` on the engine's tables.
use hivedb.Base.{
  ℕ, ◌+◌, ◌≡◌, refl, ap, ◌∙◌, sym, subst, false, same_text, if◌then◌else◌, Bool-cases, Option, none,
  some, List, [], ◌∷◌, ◌++◌, arith, ok, or_fail, require, invalid_argument, inl, inr,
}
use mathlib.Core.List.{append-nil}
use hivedb.DataTypes.{DataTypes, is_type_valid, from_string, find_offset}
use hivedb.Syntax.{Value, TableColumn}
use hivedb.Storage.{
  Heap, Table, StorageEngine, find, write, new_columns, add_table, create_table, insert_row,
  all_known, insert_into_table,
}
use hivedb.Storage.Fields.{bind-ok, then_ok}
use hivedb.Storage.Growth.{size_of_row}
use hivedb.Storage.Fetch.{ok_injective}
use hivedb.Storage.Entries.{same_text-eq, same_text_refl}
use hivedb.Storage.Rows.{
  Represents, RowsAt-Grows, Accepts, insert_row-Inserted, insert_row-Represents,
}

options_differ : {A : Type 0} {a : A} → ◌≡◌ {A = Option A} (some a) none → ⊥
options_differ e = cc

module _ {A : Type 0} (name : List ℕ) (a : A) where
  find_name-write :
      (tables : List (List ℕ × A)) (b : A)
      → find name tables ≡ some b
      → find name (write name a tables) ≡ some a
  find_name-write [] b e = cc
  find_name-write ((key, c) ∷ more) b e = elim (Bool-cases (same_text key name)) [
    | inl t ↦
        ap (λ q. find name (if q then (key, a) ∷ more else (key, c) ∷ write name a more)) t
        ∙ ap (λ q. if q then some a else find name more) t
    | inr f ↦
        let later : find name more ≡ some b =
          ap (λ q. if q then some c else find name more) (sym f) ∙ e in
        ap (λ q. find name (if q then (key, a) ∷ more else (key, c) ∷ write name a more)) f
        ∙ ap (λ q. if q then some c else find name (write name a more)) f
        ∙ find_name-write more b later
  ]

  find_other-write :
      (other : List ℕ) (tables : List (List ℕ × A))
      → same_text name other ≡ false
      → find other (write name a tables) ≡ find other tables
  find_other-write other [] d = refl
  find_other-write other ((key, c) ∷ more) d = elim (Bool-cases (same_text key name)) [
    | inl t ↦
        let elsewhere : same_text key other ≡ false =
          subst (λ k. same_text k other ≡ false) (sym (same_text-eq key name t)) d in
        ap (λ q. find other (if q then (key, a) ∷ more else (key, c) ∷ write name a more)) t
        ∙ ap (λ q. if q then some a else find other more) elsewhere
        ∙ sym (ap (λ q. if q then some c else find other more) elsewhere)
    | inr f ↦
        ap (λ q. find other (if q then (key, a) ∷ more else (key, c) ∷ write name a more)) f
        ∙ ap (λ o. if same_text key other then some c else o) (find_other-write other more d)
  ]

-- A table of the engine, and the rows that it holds.
pub record Holds (engine : StorageEngine) (name : List ℕ) (columns : List (List ℕ × DataTypes))
    (rows : List (List Value)) : Type 0 where
  pub table : Table
  pub there : find name engine.tables ≡ some table
  pub same_columns : table.columns ≡ columns
  pub same_size : table.row_size ≡ size_of_row columns
  pub represents : Represents columns (table.bytes, engine.heap) rows

module _ (allocate : Heap → ℕ) where
  -- An insertion into a table that accepts the values returns, and adds their row behind those that the
  -- table holds; every other table holds what it held.
  pub insert_into_table-Holds :
      (name : List ℕ) (names : List (List ℕ)) (values vs : List Value) (engine : StorageEngine)
      (columns : List (List ℕ × DataTypes)) (rows : List (List Value))
      → (h : Holds engine name columns rows) → all_known names columns ≡ ok tt
      → Accepts allocate names values columns (h.table.bytes, engine.heap) vs
      → (after : StorageEngine) × (insert_into_table allocate name names values engine ≡ ok after)
        × Holds after name columns (rows ++ vs ∷ [])
        × ((other : List ℕ) (columns' : List (List ℕ × DataTypes)) (rows' : List (List Value))
            → same_text name other ≡ false
            → Holds engine other columns' rows'
            → Holds after other columns' rows')
  unfolding insert_into_table
  insert_into_table-Holds name names values vs engine columns rows h known accepts =
      let before : List ℕ × Heap = (h.table.bytes, engine.heap) in
      let (row, run, i) = insert_row-Inserted allocate names values columns vs before accepts in
      let (row', run', rep) =
        insert_row-Represents allocate names values columns rows vs before h.represents accepts in
      let new : Table = record {
        columns = h.table.columns;
        bytes = row.0;
        row_size = h.table.row_size;
      } in
      let after : StorageEngine = record { tables = write name new engine.tables; heap = row.1 } in
      (
        after,
        then_ok (or_fail (find name engine.tables) invalid_argument) _ h.table after
            (ap (λ o. or_fail o invalid_argument) h.there)
            (then_ok (all_known names h.table.columns) _ tt after
              (ap (all_known names) h.same_columns ∙ known)
              (then_ok (insert_row allocate h.table.columns names values before) _ row after
                (ap (λ cs. insert_row allocate cs names values before) h.same_columns ∙ run) refl)),
        record {
          table = new;
          there = find_name-write name new engine.tables h.table h.there;
          same_columns = h.same_columns;
          same_size = h.same_size;
          represents =
              subst (λ r. Represents columns r (rows ++ vs ∷ []))
                (ok_injective row' row (sym run' ∙ run)) rep;
        },
        λ other columns' rows' d k. record {
          table = k.table;
          there = find_other-write name new other engine.tables d ∙ k.there;
          same_columns = k.same_columns;
          same_size = k.same_size;
          represents = (
            RowsAt-Grows columns' rows' 0 (k.table.bytes, engine.heap) (k.table.bytes, row.1)
                (record {
                  more = [];
                  split = sym (append-nil k.table.bytes);
                  keeps = i.grows.keeps;
                })
                k.represents.0,
            k.represents.1,
          );
        },
      )

-- The columns of a table are those that the statement declares, with the types that their names stand for.
abbrev pub Declares : List TableColumn → List (List ℕ × DataTypes) → Type 0
Declares [] [] = Unit {0}
Declares [] (d ∷ ds) = ⊥
Declares (c ∷ cs) [] = ⊥
Declares (c ∷ cs) ((name, dt) ∷ ds) =
    (name ≡ c.name) × (from_string c.type ≡ ok dt) × Declares cs ds

new_columns-Declares :
    (columns : List TableColumn) (made : List (List ℕ × DataTypes) × ℕ)
    → new_columns columns ≡ ok made
    → Declares columns made.0 × (made.1 ≡ size_of_row made.0)
unfolding new_columns
new_columns-Declares [] made e =
    subst (λ m. Declares [] m.0 × (m.1 ≡ size_of_row m.0)) (ok_injective _ made e) (tt, refl)
new_columns-Declares (c ∷ cs) made e =
    let (u, valid, e₁) = bind-ok (require (is_type_valid c.type) invalid_argument) _ made e in
    let (dt, type, e₂) = bind-ok (from_string c.type) _ made e₁ in
    let (rest, more, e₃) = bind-ok (new_columns cs) _ made e₂ in
    let (declared, size) = new_columns-Declares cs rest more in
    subst (λ m. Declares (c ∷ cs) m.0 × (m.1 ≡ size_of_row m.0)) (ok_injective _ made e₃)
      ((refl, type, declared), ap (λ n. find_offset dt + n) size)

find_name-append :
    {A : Type 0} (name : List ℕ) (a : A) (tables : List (List ℕ × A))
    → find name tables ≡ none
    → find name (tables ++ (name, a) ∷ []) ≡ some a
find_name-append name a [] e = ap (λ b. if b then some a else none) (same_text_refl name)
find_name-append name a ((key, c) ∷ more) e = elim (Bool-cases (same_text key name)) [
  | inl t ↦ absurd (options_differ (ap (λ b. if b then some c else find name more) (sym t) ∙ e))
  | inr f ↦
      ap (λ b. if b then some c else find name (more ++ (name, a) ∷ [])) f
      ∙ find_name-append name a more (ap (λ b. if b then some c else find name more) (sym f) ∙ e)
]

-- A statement that returns, on a name that no table has, makes a table with the declared columns and
-- without rows.
pub create_table-Holds :
    (name : List ℕ) (columns : List TableColumn) (engine after : StorageEngine)
    → find name engine.tables ≡ none
    → create_table name columns engine ≡ ok after
    → (cols : List (List ℕ × DataTypes)) × Declares columns cols × Holds after name cols []
unfolding create_table
create_table-Holds name columns engine after missing e =
    let (made, run, e') = bind-ok (new_columns columns) _ after e in
    let (declared, size) = new_columns-Declares columns made run in
    let table : Table = record { columns = made.0; bytes = []; row_size = made.1 } in
    let added : add_table name table engine.tables ≡ engine.tables ++ (name, table) ∷ [] =
      ap
        (λ o. elim o as (λ x. List (List ℕ × Table)) [
          | some old ↦ engine.tables
          | none ↦ engine.tables ++ (name, table) ∷ []
        ])
        missing in
    (
      made.0,
      declared,
      subst (λ a. Holds a name made.0 []) (ok_injective _ after e')
          (record {
            table = table;
            there = ap (find name) added ∙ find_name-append name table engine.tables missing;
            same_columns = refl;
            same_size = size;
            represents = (tt, omega arith);
          }),
    )
