-- ===== src/Row/Wrote.antt =====
-- What a call of Row::write (misfits/row.cc) leaves that ends: every entry has its values in the row.
use misfits.Prelude.{ℕ, ◌≡◌, refl, ap, sym, ◌∙◌, List, map, Every, Every-all, arith}
use mathlib.Core.Path.{subst}
use misfits.Cfitsio.{Cfitsio}
use misfits.Cfitsio.Laws.{MovesTo}
use misfits.Cfitsio.Cells.{StoresRows}
use misfits.Exception.{throw_if, modify}
use misfits.Exception.Gives.{Gives, bind-Gives, gets-Gives, zoom-Gives, Gives-intro, Keeps-Gives}
use misfits.Exception.Keeps.{Keeps-throw_if}
use misfits.Store.{Store, Hdu, ColumnInfo, fptr}
use misfits.Table.{set_table_as_chdu}
use misfits.Table.Reading.{Sees-weaken}
use misfits.Table.Added.{IsCurrent, set_table_as_chdu-IsCurrent}
use misfits.RowEntry.{Session}
use misfits.Row.{RowState, write, write_entries, auto_advanced, in_store, in_session}
use misfits.Row.Bound.{Bound, info_of, entry_of, Suits}
use misfits.Row.Written.{AllApart, Stored, Sits, write_entries-Stored}

module _ {W : Type 0} ⦃c : Cfitsio W⦄ where
  set_table_as_chdu-Gives :
      MovesTo c
      → (t : ℕ) (s : Store W)
      → let file = (s.hdus t).file in
        Gives (λ _ s'. IsCurrent t file (fptr file s) (s.hdus t).hdu_num s') (set_table_as_chdu t s)
  set_table_as_chdu-Gives moves t s =
      let s' = (set_table_as_chdu t s).1 in
      Gives-intro _ (set_table_as_chdu t) s
        λ _ e. set_table_as_chdu-IsCurrent moves t s s' (ap (λ r. (r, s')) e)

pub auto_advanced_frame :
    {W M : Type 0} (s : RowState W M)
    → ((auto_advanced s).session ≡ s.session)
      × ((auto_advanced s).row.table ≡ s.row.table)
      × ((auto_advanced s).row.entries ≡ s.row.entries)
auto_advanced_frame s = ground arith

module _ {W M : Type 0} (s : RowState W M) where
  -- The place of the row in CFITSIO
  abbrev pub row_hdu : Hdu
  row_hdu = s.session.store.hdus s.row.table

  abbrev pub row_fptr : ℕ
  row_fptr = fptr row_hdu.file s.session.store

module _ {W M : Type 0} ⦃c : Cfitsio W⦄ (s : RowState W M) (bs : List (Bound M))
    {IsColumn : ColumnInfo → Type 0} (law : StoresRows c (row_fptr s) IsColumn) where
  -- The row's HDU is the current one of the file, and D holds; the memory is that of s.
  abbrev pub Sat : (W → Type 0) → Session W M → Type 0
  Sat =
      let hdu = row_hdu s in
      Sits (row_fptr s) s.row.table hdu.file hdu.hdu_num s.row.idx s.session.memory law

  -- The same of the state that the methods of the row act on; the row is that of s.
  abbrev pub Rows : (W → Type 0) → RowState W M → Type 0
  Rows D s' = Sat D s'.session × (s'.row ≡ s.row)

  abbrev pub IsStored : Bound M → W → Type 0
  IsStored =
      let hdu = row_hdu s in
      Stored (row_fptr s) s.row.table hdu.file hdu.hdu_num s.row.idx s.session.memory law

  -- What is left of a call of `write`: the row is still one of the table, with the same entries.
  abbrev pub Wrote : RowState W M → Type 0
  Wrote s' =
      Rows (λ w. Every (λ b. IsStored b w) bs) (record s' { row = s.row })
      × (s'.row.table ≡ s.row.table)
      × (s'.row.entries ≡ s.row.entries)

  stepped_Wrote :
      (s' : RowState W M)
      → Rows (λ w. Unit × Every (λ b. IsStored b w) bs) s'
      → Gives (λ _ u. Wrote u) (modify auto_advanced s')
  unfolding modify
  stepped_Wrote s' ((memory, sees), same) =
      let (session, table, entries) = auto_advanced_frame s' in
      let sees' = Sees-weaken s'.session.store (λ w (here, (_, stored)). (here, stored)) sees in
      (
        (rw session (memory, sees'), refl),
        table ∙ ap (λ row. row.table) same,
        entries ∙ ap (λ row. row.entries) same,
      )

  pub write-Wrote :
      MovesTo c
      → s.row.entries ≡ map entry_of bs
      → Every (λ b. IsColumn (info_of b) × Suits b s.session.memory) bs
      → AllApart bs
      → Gives (λ _ s'. Wrote s') (write s)
  unfolding write
  write-Wrote moves bound columns apart =
      let hdu = row_hdu s in
      let f = row_fptr s in
      let t = s.row.table in
      gets-Gives _ _ _ s (
        bind-Gives (λ _ s'. Rows (λ _. Unit) s') _ (in_store (set_table_as_chdu t)) _ s
          (zoom-Gives _ _ _ _ _ s (λ _ v h. (h, refl))
            (zoom-Gives _ _ _ _ (set_table_as_chdu t) s.session
              (λ _ st h. (refl, Sees-weaken st (λ w e. (e, tt)) h))
              (set_table_as_chdu-Gives moves t s.session.store)))
          λ _ s₁ h₁.
            bind-Gives (λ _ s'. Rows (λ _. Unit) s') _ (throw_if _ _) _ s₁
              (Keeps-Gives _ s₁ (Keeps-throw_if _ _) h₁)
              λ _ s₂ h₂.
                bind-Gives (λ _ s'. Rows (λ w. Unit × Every (λ b. IsStored b w) bs) s') _
                  (in_session (write_entries t s.row.idx s.row.entries)) _ s₂
                  (zoom-Gives _ _ _ _ _ s₂ (λ _ v k. (k, h₂.1))
                    (subst
                      (λ entries.
                        Gives (λ _ v. Sat (λ w. Unit × Every (λ b. IsStored b w) bs) v)
                          (write_entries t s.row.idx entries s₂.session))
                      (sym bound)
                      (write_entries-Stored f t hdu.file hdu.hdu_num s.row.idx s.session.memory law
                        bs (λ _. Unit) s₂.session columns apart (Every-all bs (λ b w e d. tt))
                        h₂.0)))
                  λ _ s₃ h₃. stepped_Wrote s₃ h₃)
