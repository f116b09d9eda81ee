-- ===== src/Storage/Fetch.antt =====
-- `table::fetch`: what it finds for each column.
use hivedb.Base.{
  ℕ, zero, suc, ◌+◌, ◌*◌, ◌<◌, ◌≤◌, ◌≡◌, refl, ap, ◌∙◌, sym, false, ltb, lt→ltb, if◌then◌else◌,
  List, [], ◌∷◌, ◌++◌, length, arith, ok, ◌>>=◌, ◌>>◌, require, out_of_bounds,
}
use mathlib.Core.List.{append_assoc, append-nil}
use hivedb.Storage.{
  Table, ColumnToFetch, FetchedColumns, FetchedDataMap, append_fetched, fetch_row, fetch_loop,
  fetch,
}
use hivedb.Storage.Entries.{
  entries, fields_of, fields_of_rows, Inside, Columns, Columns-Inside, entries-append_fetched,
}

pub not_below : (a b : ℕ) → a ≡ b → ltb a b ≡ false
not_below a b h = ground arith

rows_le : (n s : ℕ) → 0 < s → n ≤ n * s
rows_le zero s h = omega arith
rows_le (suc n) s h = omega (arith, rows_le n s h)

module _ (name : List ℕ) where
  fetch_row-entries :
      (bytes : List ℕ) (idx : ℕ) (clms : List ColumnToFetch) (fetched : FetchedDataMap)
      → Inside bytes idx clms
      → (fetched' : FetchedDataMap) × (fetch_row bytes idx clms fetched ≡ ok fetched')
        × (entries name fetched' ≡ entries name fetched ++ fields_of name clms idx)
  unfolding fetch_row
  fetch_row-entries bytes idx [] fetched h =
      (fetched, refl, sym (append-nil (entries name fetched)))
  fetch_row-entries bytes idx (clm ∷ more) fetched (h, hs) =
      let x : FetchedColumns = record { ptr = idx + clm.offset; dt = clm.dt } in
      let next = append_fetched clm.name x fetched in
      let (fetched', run, found) = fetch_row-entries bytes idx more next hs in
      (
        fetched',
        ap (λ b. require b out_of_bounds >> fetch_row bytes idx more next)
              (lt→ltb (idx + clm.offset) (length bytes) h)
            ∙ run,
        found
            ∙ ap (λ ys. ys ++ fields_of name more idx)
                (entries-append_fetched name clm.name x fetched)
            ∙ append_assoc (entries name fetched) _ (fields_of name more idx),
      )

  fetch_loop-entries :
      (table : Table) (clms : List ColumnToFetch) (rows f idx : ℕ) (fetched : FetchedDataMap)
      → rows < f
      → idx + rows * table.row_size ≡ length table.bytes
      → 0 < table.row_size
      → Columns table.row_size clms
      → (fetched' : FetchedDataMap) × (fetch_loop f table clms idx fetched ≡ ok fetched')
        × (entries name fetched'
            ≡ entries name fetched ++ fields_of_rows name clms table.row_size rows idx)
  unfolding fetch_loop
  fetch_loop-entries table clms rows zero idx fetched l size wide offsets = absurd (omega arith)
  fetch_loop-entries table clms zero (suc f) idx fetched l size wide offsets =
      let no_more : ltb idx (length table.bytes) ≡ false =
        not_below idx (length table.bytes) (omega arith) in
      (
        fetched,
        ap
            (λ b.
              if b
              then (fetch_row table.bytes idx clms fetched
                  >>= fetch_loop f table clms (idx + table.row_size))
              else ok fetched)
            no_more,
        sym (append-nil (entries name fetched)),
      )
  fetch_loop-entries table clms (suc rows) (suc f) idx fetched l size wide offsets =
      let row_inside : idx + table.row_size ≤ length table.bytes = omega arith in
      let some_left : idx < length table.bytes = omega arith in
      let rest_size : (idx + table.row_size) + rows * table.row_size ≡ length table.bytes =
        omega arith in
      let fewer : rows < f = omega arith in
      let (next, run, found) =
        fetch_row-entries table.bytes idx clms fetched
          (Columns-Inside table.row_size clms table.bytes idx offsets row_inside) in
      let (fetched', run', found') =
        fetch_loop-entries table clms rows f (idx + table.row_size) next fewer rest_size wide
          offsets in
      (
        fetched',
        ap
              (λ b.
                if b
                then (fetch_row table.bytes idx clms fetched
                    >>= fetch_loop f table clms (idx + table.row_size))
                else ok fetched)
              (lt→ltb idx (length table.bytes) some_left)
            ∙ ap (λ o. o >>= fetch_loop f table clms (idx + table.row_size)) run
            ∙ run',
        found'
            ∙ ap (λ ys. ys ++ fields_of_rows name clms table.row_size rows (idx + table.row_size))
                found
            ∙ append_assoc (entries name fetched) (fields_of name clms idx) _,
      )

  fetch-entries_of :
      (table : Table) (clms : List ColumnToFetch) (rows : ℕ)
      → rows * table.row_size ≡ length table.bytes
      → 0 < table.row_size
      → Columns table.row_size clms
      → (fetched : FetchedDataMap) × (fetch table clms ≡ ok fetched)
        × (entries name fetched ≡ fields_of_rows name clms table.row_size rows 0)
  unfolding fetch
  fetch-entries_of table clms rows size wide offsets =
      fetch_loop-entries table clms rows (suc (length table.bytes)) 0 []
        (omega (arith, size, rows_le rows table.row_size wide)) (omega (arith, size)) wide offsets

pub ok_injective : {A : Type 0} (a b : A) → ok a ≡ ok b → a ≡ b
ok_injective a b e = cc

-- A table of some rows: `fetch` ends, and finds under each name the fields of the columns of that name,
-- row by row. A column that is asked for twice is found twice for each row.
pub fetch-entries :
    (table : Table) (clms : List ColumnToFetch) (rows : ℕ)
    → rows * table.row_size ≡ length table.bytes
    → 0 < table.row_size
    → Columns table.row_size clms
    → (fetched : FetchedDataMap) × (fetch table clms ≡ ok fetched)
      × ((name : List ℕ) → entries name fetched ≡ fields_of_rows name clms table.row_size rows 0)
fetch-entries table clms rows size wide offsets =
    let (fetched, run, first) = fetch-entries_of [] table clms rows size wide offsets in
    (
      fetched,
      run,
      λ name.
          let (fetched', run', found) = fetch-entries_of name table clms rows size wide offsets in
          ap (entries name) (ok_injective fetched fetched' (sym run ∙ run')) ∙ found,
    )
