-- ===== src/Row/ReadBack.antt =====
-- The loop of Row::read (misfits/row.cc) sets every variable from the values that the row holds.
use misfits.Prelude.{ℕ, ◌≡◌, sym, ap, List, [], ◌∷◌, map, Every, Every-zip}
use mathlib.Core.Path.{subst}
use misfits.Prelude.Int.{ℤ}
use misfits.Cfitsio.{Cfitsio}
use misfits.Cfitsio.Columns
use misfits.Cfitsio.Cells.{get, Holds}
use misfits.Exception.Returns.{Returns, bind-Returns, pure-Returns, Returns-weaken}
use misfits.RowEntry.{Session, ColumnEntry}
use misfits.Table.Reading.{Sees, Sees-world, Sees-fptr}
use misfits.Row.{read_entries}
use misfits.Row.Bound.{Bound, entry_of, part_of, image, restore, HasRoom, read_bound}
use misfits.Row.Restore.{
  IsPlace, IsClean, Fits, Restored, restore-Restored, Fits-HasRoom, Unmoved-Restored, Unmoved-Fits,
}
use misfits.Row.Written.{AllApart}

module _ {M : Type 0} (m : M) where
  -- What is asked of a binding at the time of the write
  abbrev pub IsSound : Bound M → Type 0
  IsSound b = IsPlace b × IsClean b m × HasRoom b m

  -- Setting the variable of a binding leaves E.
  abbrev pub Ignores : (M → Type 0) → Bound M → Type 0
  Ignores E b = (values : List ℕ) (mem : M) → E mem → E (restore b values mem)

module _ {W M : Type 0} ⦃c : Cfitsio W⦄ (f t file n : ℕ) (row : ℤ) (m : M) (P : W → Type 0) where
  -- Where P holds, the row holds the values that the memory m has for the binding, and reading them leaves P.
  abbrev pub IsHeld : Bound M → Type 0
  IsHeld b =
      ((w : W) → P w → Holds c f row (part_of b) (image b m) w)
      × Columns.Leaves P (get c (part_of b) f row)

  read_one :
      (b : Bound M) (s : Session W M)
      → IsHeld b
      → HasRoom b s.memory
      → Sees P t file f n s.store
      → let entry : ColumnEntry W M = entry_of b in
        Returns
          (λ _ s'. (s'.memory ≡ restore b (image b m) s.memory) × Sees P t file f n s'.store)
          (entry.read t row s)
  read_one b s (held, keep) room sees =
      let w = s.store.world in
      let (ends, values) = held w sees.holds in
      let e =
        rw (Sees-fptr s.store sees) at
          (read_bound b t row s room (rw (Sees-fptr s.store sees) ends)) in
      let w' = (get c (part_of b) f row w).2 in
      subst (Returns _) (sym e)
        (ap (λ v. restore b v s.memory) values, Sees-world w' s.store sees (keep w sees.holds))

  pub read_entries-Restored :
      (bs : List (Bound M)) (E : M → Type 0) (s : Session W M)
      → Every IsHeld bs
      → Every (IsSound m) bs
      → AllApart bs
      → Every (λ b. Fits b m s.memory) bs
      → Every (Ignores m E) bs
      → E s.memory
      → Sees P t file f n s.store
      → Returns
          (λ _ s'. E s'.memory × Every (λ b. Restored b m s'.memory) bs)
          (read_entries t row (map entry_of bs) s)
  unfolding read_entries
  read_entries-Restored [] E s held sound apart fits ignores h sees = pure-Returns _ tt s (h, tt)
  read_entries-Restored (b ∷ bs) E s held sound apart fits ignores h sees =
      let entry : ColumnEntry W M = entry_of b in
      let (place, clean, room) = sound.0 in
      let E' : M → Type 0 = λ mem. E mem × Restored b m mem in
      let ignores' : Every (Ignores m E') bs =
        Every-zip bs
          (λ x keep far values mem (e, r). (
            keep values mem e,
            Unmoved-Restored b m mem (restore x values mem) (far.1 values mem) r,
          ))
          ignores.1 apart.0 in
      bind-Returns _ _ (entry.read t row) _ s
        (read_one b s held.0 (Fits-HasRoom b m s.memory room fits.0) sees)
        λ _ s' (e, sees').
          let fits' : Every (λ x. Fits x m s'.memory) bs = rw e (
            Every-zip bs
              (λ x fit far.
                Unmoved-Fits x m s.memory (restore b (image b m) s.memory)
                  (far.2 (image b m) s.memory) fit)
              fits.1 apart.0) in
          let now : E' s'.memory = rw e (
            ignores.0 (image b m) s.memory h,
            restore-Restored b m s.memory place clean room fits.0,
          ) in
          Returns-weaken _ _ (read_entries t row (map entry_of bs)) s'
            (λ _ s'' ((x, r), rest). (x, (r, rest)))
            (read_entries-Restored bs E' s' held.1 sound.1 apart.1 fits' ignores' now sees')
