-- ===== src/Row/ReadAgain.antt =====
-- Row::read (misfits/row.cc) on a row that holds values for every variable.
use misfits.Prelude.{
  ℕ, ◌≡◌, refl, sym, ap, true, false, List, map, length, ◌==◌, Every, Every-map, Every-all,
  Every-self,
}
use mathlib.Core.Path.{subst}
use misfits.Prelude.Int.{ℤ, pos, ◌<ℤ?◌}
use misfits.Cfitsio.{Cfitsio}
use misfits.Cfitsio.Columns
use misfits.Cfitsio.Cells.{Holds, HasRow, StoresRows}
use misfits.Exception.{throw_if, modify, pure, ◌>>◌}
use misfits.Exception.Returns.{
  Returns, bind-Returns, pure-Returns, gets-Returns, modify-Returns, zoom-Returns, throw_if-Returns,
}
use misfits.Store.{Store, ColumnInfo, check}
use misfits.Table.{num_rows, set_table_as_chdu}
use misfits.Table.Reading.{Sees, Sees-world, Sees-weaken, set_table_as_chdu-still}
use misfits.RowEntry.{set_store, on_store}
use misfits.Row.{RowState, set_session, read, read_entries, auto_advanced, in_store, in_session}
use misfits.Row.Bound.{Bound, entry_of, part_of, image}
use misfits.Row.Restore.{Fits, Restored}
use misfits.Row.Written.{AllApart}
use misfits.Row.ReadBack.{IsHeld, IsSound, read_entries-Restored}
use misfits.Row.Wrote.{auto_advanced_frame}

-- The HDU with the number n is the current one of the file f, it is a table with the row, and P holds.
abbrev pub ShowsRow : {W : Type 0} → Cfitsio W → ℕ → ℕ → ℤ → (W → Type 0) → W → Type 0
ShowsRow c f n row P w = (c.get_hdu_num f w ≡ n) × (HasRow c f row w × P w)

module _ {W : Type 0} ⦃c : Cfitsio W⦄ {P : W → Type 0} {t file f n : ℕ} (row : ℤ) where
  count_rows :
      (s : Store W)
      → Columns.Leaves P (c.get_num_rowsll f)
      → Sees (ShowsRow c f n row P) t file f n s
      → Returns
          (λ nrows s'. ((pos nrows <ℤ? row) ≡ false) × Sees P t file f n s')
          (check (c.get_num_rowsll f) s)
  unfolding check
  count_rows s keep h =
      let w = s.world in
      let w' = (c.get_num_rowsll f w).2 in
      let (here, ((ends, there), p)) = h.holds in rw ends (there, Sees-world w' s h (keep w p))

  num_rows-HasRow :
      (s : Store W)
      → Columns.Leaves P (c.get_num_rowsll f)
      → Sees (ShowsRow c f n row P) t file f n s
      → Returns (λ nrows s'. ((pos nrows <ℤ? row) ≡ false) × Sees P t file f n s') (num_rows t s)
  unfolding num_rows
  num_rows-HasRow s keep h =
      let still = set_table_as_chdu-still s (Sees-weaken s (λ w (here, _). here) h) in
      bind-Returns (λ _ s'. s' ≡ s) _ (set_table_as_chdu t) _ s (subst (Returns _) (sym still) refl)
        λ _ s' e.
          let h' = subst (Sees (ShowsRow c f n row P) t file f n) (sym e) h in
          gets-Returns _ _ _ s'
            (gets-Returns _ _ _ s' (rw (h'.in_file, h'.pointer) (count_rows s' keep h')))

-- The row holds what the memory m has for every binding.
abbrev pub AllHeld : {W M : Type 0} → Cfitsio W → ℕ → ℤ → M → List (Bound M) → W → Type 0
AllHeld c f row m bs w = Every (λ b. Holds c f row (part_of b) (image b m) w) bs

module _ {W M : Type 0} ⦃c : Cfitsio W⦄ (m : M) (bs : List (Bound M)) (t file f n : ℕ) (row : ℤ)
    {IsColumn : ColumnInfo → Type 0} (law : StoresRows c f IsColumn) where
  read_row :
      (u : RowState W M)
      → Every (IsSound m) bs
      → AllApart bs
      → Every (λ b. Fits b m u.session.memory) bs
      → Sees (AllHeld c f row m bs) t file f n u.session.store
      → Returns
          (λ found u'. (found ≡ true) × Every (λ b. Restored b m u'.session.memory) bs)
          ((do in_session (read_entries t row (map entry_of bs)); modify auto_advanced; pure true)
            u)
  read_row u sound apart fits sees =
      let held : Every (IsHeld f t file n row m (AllHeld c f row m bs)) bs =
        Every-map bs
          (λ b first. (
            first,
            λ w all. Every-map bs (λ x h. law.gets row (part_of b) (part_of x) (image x m) w h) all,
          ))
          (Every-self (λ b w. Holds c f row (part_of b) (image b m) w) bs) in
      bind-Returns (λ _ u'. Every (λ b. Restored b m u'.session.memory) bs) _
        (in_session (read_entries t row (map entry_of bs))) _ u
        (zoom-Returns _ _ _ _ _ u (λ _ v k. k.1)
          (read_entries-Restored f t file n row m (AllHeld c f row m bs) bs (λ _. Unit) u.session
            held sound apart fits (Every-all bs (λ b values mem e. tt)) tt sees))
        λ _ u' k. modify-Returns _ _ _ u' (
          pure-Returns _ true (auto_advanced u') (
            refl,
            subst (λ v. Every (λ b. Restored b m v.memory) bs) (sym (auto_advanced_frame u').0) k,
          ))

  still_current :
      (u : RowState W M)
      → Sees (ShowsRow c f n row (AllHeld c f row m bs)) t file f n u.session.store
      → Returns (λ _ u'. u' ≡ u) (in_store (set_table_as_chdu t) u)
  still_current u sees =
      let st = u.session.store in
      let still = set_table_as_chdu-still st (Sees-weaken st (λ w (here, _). here) sees) in
      zoom-Returns (λ _ v. v ≡ u.session) _ _ _ _ u (λ _ v e. ap (λ x. set_session x u) e)
        (zoom-Returns (λ _ x. x ≡ st) _ _ _ (set_table_as_chdu t) u.session
          (λ _ x e. ap (λ y. set_store y u.session) e) (subst (Returns _) (sym still) refl))

  count_at :
      (u u₂ : RowState W M)
      → u.row.table ≡ t
      → u₂ ≡ u
      → Sees (ShowsRow c f n row (AllHeld c f row m bs)) t file f n u.session.store
      → Returns
          (λ nrows u'.
            ((pos nrows <ℤ? row) ≡ false)
            × Sees (AllHeld c f row m bs) t file f n u'.session.store
            × (u'.session.memory ≡ u.session.memory))
          (in_store (num_rows u.row.table) u₂)
  count_at u u₂ table e sees =
      let sees₂ =
        subst (λ x. Sees (ShowsRow c f n row (AllHeld c f row m bs)) t file f n x.session.store)
          (sym e) sees in
      let keep : Columns.Leaves (AllHeld c f row m bs) (c.get_num_rowsll f) =
        λ w all. Every-map bs (λ b h. law.counts row (part_of b) (image b m) w h) all in
      let counted = num_rows-HasRow row u₂.session.store keep sees₂ in
      zoom-Returns
        (λ nrows v.
          ((pos nrows <ℤ? row) ≡ false)
          × Sees (AllHeld c f row m bs) t file f n v.store
          × (v.memory ≡ u.session.memory))
        _ _ _ (on_store (num_rows u.row.table)) u₂ (λ nrows v k. k)
        (zoom-Returns
          (λ nrows st. ((pos nrows <ℤ? row) ≡ false) × Sees (AllHeld c f row m bs) t file f n st) _
          _ _ (num_rows u.row.table) u₂.session
          (λ nrows st (there, sees'). (there, sees', ap (λ x. x.session.memory) e))
          (subst
            (λ k.
              Returns
                (λ nrows st.
                  ((pos nrows <ℤ? row) ≡ false) × Sees (AllHeld c f row m bs) t file f n st)
                (num_rows k u₂.session.store))
            (sym table) counted))

  pub read-Restored :
      (u : RowState W M)
      → u.row.table ≡ t
      → u.row.idx ≡ row
      → u.row.entries ≡ map entry_of bs
      → (length u.row.entries == 0) ≡ false
      → Every (IsSound m) bs
      → AllApart bs
      → Every (λ b. Fits b m u.session.memory) bs
      → Sees (ShowsRow c f n row (AllHeld c f row m bs)) t file f n u.session.store
      → Returns
          (λ found u'. (found ≡ true) × Every (λ b. Restored b m u'.session.memory) bs)
          (read u)
  unfolding read
  read-Restored u table idx entries some_entry sound apart fits sees = gets-Returns _ _ _ u (
      bind-Returns (λ _ u'. u' ≡ u) _ (in_store (set_table_as_chdu u.row.table)) _ u
        (subst (λ k. Returns (λ _ u'. u' ≡ u) (in_store (set_table_as_chdu k) u)) (sym table)
          (still_current u sees))
        λ _ u₁ e₁.
          bind-Returns (λ _ u'. u' ≡ u) _ (throw_if _ _) _ u₁
            (throw_if-Returns _ _ _ u₁ some_entry e₁)
            λ _ u₂ e₂.
              bind-Returns
                (λ nrows u'.
                  ((pos nrows <ℤ? row) ≡ false)
                  × Sees (AllHeld c f row m bs) t file f n u'.session.store
                  × (u'.session.memory ≡ u.session.memory))
                _ (in_store (num_rows u.row.table)) _ u₂ (count_at u u₂ table e₂ sees)
                λ nrows u₃ (there, sees₃, same).
                  rw (idx, table, entries, there) (read_row u₃ sound apart (rw same fits) sees₃))
