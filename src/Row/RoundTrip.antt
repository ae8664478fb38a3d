-- ===== src/Row/RoundTrip.antt =====
-- A row that is written (Row::write in misfits/row.cc) and read again (Row::read).
use misfits.Prelude.{
  ◌≡◌, refl, ap, ◌∙◌, Bool, true, false, List, [], ◌∷◌, map, length, ◌==◌, Every, Every-map,
  Every-zip, arith,
}
use misfits.Cfitsio.{Cfitsio}
use misfits.Cfitsio.Laws.{MovesTo}
use misfits.Cfitsio.Cells.{StoresRows}
use misfits.Exception.{Result, ok, throw, ◌>>=◌}
use misfits.Exception.Gives.{outcome-ok}
use misfits.Exception.Returns.{Returns, modify-Returns}
use misfits.Store.{ColumnInfo}
use misfits.Table.Reading.{Sees, Sees-weaken}
use misfits.Row.{RowState, set_idx, read_at, write}
use misfits.Row.Bound.{Bound, info_of, entry_of, HasRoom, Suits}
use misfits.Row.Restore.{IsPlace, IsClean, Fits, Restored}
use misfits.Row.Written.{AllApart}
use misfits.Row.ReadBack.{IsSound}
use misfits.Row.Wrote.{row_hdu, row_fptr, Wrote, write-Wrote}
use misfits.Row.ReadAgain.{ShowsRow, AllHeld, read-Restored}

-- The bindings are of columns of the row's table that take the types of the variables, none of them twice, and of
-- variables that share no memory.
pub record IsBound {W M : Type 0} ⦃c : Cfitsio W⦄ (IsColumn : ColumnInfo → Type 0)
    (s : RowState W M) (bs : List (Bound M)) : Type 0 where
  pub entries : s.row.entries ≡ map entry_of bs
  pub columns : Every (λ b. IsColumn (info_of b) × Suits b s.session.memory) bs
  pub apart : AllApart bs
  pub places : Every IsPlace bs

found_all :
    {S : Type 0} (Q : S → Type 0) (r : Result Bool) (s : S)
    → Returns (λ found u. (found ≡ true) × Q u) (r, s)
    → (r ≡ ok true) × Q s
found_all Q (ok b) s (e, q) = (ap ok e, q)
found_all Q (throw e) s h = cc

-- What each of some elements tells
some_Every :
    {A B H : Type 0} {P : A → Type 0} (f : A → B) (xs : List A)
    → (length (map f xs) == 0) ≡ false
    → ((x : A) → P x → H)
    → Every P xs
    → H
some_Every f [] some_entry tell h = cc
some_Every f (x ∷ xs) some_entry tell h = tell x h.0

module _ {W M : Type 0} ⦃c : Cfitsio W⦄ (s : RowState W M) (bs : List (Bound M))
    {IsColumn : ColumnInfo → Type 0} (law : StoresRows c (row_fptr s) IsColumn) where
  -- A call of `write` that ends has had entries to write.
  written_some : (write s).0 ≡ ok tt → (length s.row.entries == 0) ≡ false
  unfolding write ◌>>=◌
  written_some h = ground arith

  -- If CFITSIO moves to the HDU that it is told to and stores rows as documented, then the values of all variables
  -- that a row has written, of types that their columns take without a conversion, come back when that row is read
  -- into a memory that may hold anything meanwhile and has room for them: `read( row )` ends and gives back true, the
  -- numbers and the Boolean values are those that were written, a string is the whole cell, and a vector of strings
  -- has each of them cut at the width of its place. The entries are bound to different columns and to variables that
  -- share no memory, and the strings hold no null character.
  pub row_roundtrip :
      MovesTo c
      → (later : M) → IsBound IsColumn s bs
      → Every (λ b. IsClean b s.session.memory) bs
      → Every (λ b. Fits b s.session.memory later) bs
      → let (r, s') = write s in
        let (r₂, s₂) =
          read_at s.row.idx (record s' { session = record s'.session { memory = later } }) in
        r ≡ ok tt → (r₂ ≡ ok true) × Every (λ b. Restored b s.session.memory s₂.session.memory) bs
  unfolding read_at
  row_roundtrip moves later bound clean fits done =
      let m = s.session.memory in
      let f = row_fptr s in
      let hdu = row_hdu s in
      let (r, s') = write s in
      let u : RowState W M = record s' { session = record s'.session { memory = later } } in
      let (((memory, sees), _), table, entries) =
        outcome-ok (λ _ x. Wrote s bs law x) r s'
          (write-Wrote s bs law moves bound.entries bound.columns bound.apart) done in
      let some_entry = written_some done in
      let clear : Every (λ b. IsClean b m × HasRoom b m) bs =
        Every-zip bs (λ b k st. (k, st.0)) clean sees.holds.1 in
      let sound : Every (IsSound m) bs =
        Every-zip bs (λ b place k. (place, k.0, k.1)) bound.places clear in
      let sees' : Sees (ShowsRow c f hdu.hdu_num s.row.idx (AllHeld c f s.row.idx m bs)) s.row.table
          hdu.file f hdu.hdu_num s'.session.store =
        Sees-weaken s'.session.store
          (λ w (here, stored). (
            here,
            (
              some_Every entry_of bs (rw bound.entries at some_entry)
                  (λ b (room, held, there). there) stored,
              Every-map bs (λ b (room, held, there). held) stored,
            ),
          ))
          sees in
      found_all (λ v. Every (λ b. Restored b m v.session.memory) bs) _ _
        (modify-Returns _ _ _ u (
          read-Restored m bs s.row.table hdu.file f hdu.hdu_num s.row.idx law (set_idx s.row.idx u)
            table refl (entries ∙ bound.entries) (rw entries some_entry) sound bound.apart fits
            sees'))
