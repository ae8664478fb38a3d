-- ===== src/Row/Restore.antt =====
-- Variables that are set from the values that were written for them (the entries in misfits/row_entry.hpp).
use misfits.Prelude.{◌≡◌, refl, ap, List, [], ◌∷◌, ◌++◌, map, length, take}
use mathlib.Core.Path.{◌∙◌}
use misfits.Prelude.Int.{to_size}
use misfits.Prelude.CText.{NullFree, AllNullFree}
use misfits.RowEntry.Strings.{fill_cell}
use misfits.RowEntry.StringColumns.{fill_cells_roundtrip, string_of_fill_cell}
use misfits.RowEntry.Columns.{first_axis, column_init}
use misfits.RowEntry.RoundTrip.{map_bools}
use misfits.RowEntry.Built.{Remembers}
use misfits.RowEntry.{column_base}
use misfits.Row.Bound.{Bound, numbers, bools, string, strings, image, restore, HasRoom}

module _ {M : Type 0} where
  abbrev pub IsPlace : Bound M → Type 0
  IsPlace (numbers T info base) = Remembers base
  IsPlace (bools info base) = Remembers base
  IsPlace (string info base) = Remembers base
  IsPlace (strings info base) = Remembers base

  -- Strings hold no null character.
  abbrev pub IsClean : Bound M → M → Type 0
  IsClean (string info base) m = NullFree (base.load m)
  IsClean (strings info base) m = AllNullFree (base.load m)
  IsClean _ m = Unit

  -- The variable has the same value in both memories.
  abbrev pub Unmoved : Bound M → M → M → Type 0
  Unmoved (numbers T info base) m m' = base.load m' ≡ base.load m
  Unmoved (bools info base) m m' = base.load m' ≡ base.load m
  Unmoved (string info base) m m' = base.load m' ≡ base.load m
  Unmoved (strings info base) m m' = base.load m' ≡ base.load m

  -- There is room in the memory `now` for what was written when the memory was `then`.
  abbrev pub Fits : Bound M → M → M → Type 0
  Fits (strings info base) before now = length (base.load now) ≡ length (base.load before)
  Fits b before now = HasRoom b now

  -- The variable has in the memory `now` what was written when the memory was `before`: as many numbers or Boolean
  -- values in front as the cell holds, the string as a whole cell, and the strings cut at the width of their places.
  abbrev pub Restored : Bound M → M → M → Type 0
  Restored (numbers T info base) before now =
      let values = take (to_size (column_init T info).natomic) (base.load before) in
      take (length values) (base.load now) ≡ values
  Restored (bools info base) before now =
      let values = take (to_size (column_base info).natomic) (base.load before) in
      take (length values) (base.load now) ≡ values
  Restored (string info base) before now =
      base.load now ≡ fill_cell (to_size info.nbytes) (base.load before)
  Restored (strings info base) before now =
      base.load now ≡ map (take (first_axis info.extent)) (base.load before)

take_append : {A : Type 0} (xs ys : List A) → take (length xs) (xs ++ ys) ≡ xs
take_append [] ys = refl
take_append (x ∷ xs) ys = ap (λ t. x ∷ t) (take_append xs ys)

module _ {M : Type 0} where
  pub restore-Restored :
      (b : Bound M) (before now : M)
      → IsPlace b
      → IsClean b before
      → HasRoom b before
      → Fits b before now
      → Restored b before (restore b (image b before) now)
  restore-Restored (numbers T info base) before now place clean room fits =
      rw (place _ now) (take_append _ _)
  restore-Restored (bools info base) before now place clean room fits =
      rw (place _ now, map_bools _) (take_append _ _)
  restore-Restored (string info base) before now place clean room fits =
      place _ now ∙ string_of_fill_cell (to_size info.nbytes) (base.load before) clean
  restore-Restored (strings info base) before now place clean room fits =
      let width = first_axis info.extent in
      place _ now
      ∙ rw fits (fill_cells_roundtrip (to_size info.nbytes) width (base.load before) room.1 clean).1

  pub Fits-HasRoom :
      (b : Bound M) (before now : M) → HasRoom b before → Fits b before now → HasRoom b now
  Fits-HasRoom (numbers T info base) before now room fits = fits
  Fits-HasRoom (bools info base) before now room fits = fits
  Fits-HasRoom (string info base) before now room fits = fits
  Fits-HasRoom (strings info base) before now room fits = rw fits room

  -- What is said of a variable holds as long as it has the same value.
  pub Unmoved-Restored :
      (b : Bound M) (before m m' : M) → Unmoved b m m' → Restored b before m → Restored b before m'
  Unmoved-Restored (numbers T info base) before m m' same h = rw same h
  Unmoved-Restored (bools info base) before m m' same h = rw same h
  Unmoved-Restored (string info base) before m m' same h = rw same h
  Unmoved-Restored (strings info base) before m m' same h = rw same h

  pub Unmoved-Fits :
      (b : Bound M) (before m m' : M) → Unmoved b m m' → Fits b before m → Fits b before m'
  Unmoved-Fits (numbers T info base) before m m' same h = rw same h
  Unmoved-Fits (bools info base) before m m' same h = rw same h
  Unmoved-Fits (string info base) before m m' same h = h
  Unmoved-Fits (strings info base) before m m' same h = rw same h
