-- ===== src/Row/Written.antt =====
-- The loop of Row::write (misfits/row.cc) leaves the values of every entry in the row.
use misfits.Prelude.{ℕ, ◌≡◌, ◌≢◌, refl, sym, ◌∙◌, arith, List, [], ◌∷◌, map, Every, Every-zip}
use misfits.Prelude.Int.{ℤ}
use mathlib.Core.Path.{subst}
use misfits.Cfitsio.{Cfitsio}
use misfits.Cfitsio.Cells.{IsOf, put, Holds, HasRow, StoresRows}
use misfits.Exception.Gives.{Gives, bind-Gives, pure-Gives, Gives-intro, Gives-weaken}
use misfits.Store.{ColumnInfo}
use misfits.RowEntry.{Session, ColumnEntry, column_base}
use misfits.RowEntry.Columns.{column_init}
use misfits.Table.Reading.{Sees, Sees-world, Sees-weaken, Sees-fptr}
use misfits.Row.{write_entries}
use misfits.Row.Bound.{
  Bound, numbers, bools, string, strings, info_of, entry_of, part_of, image, HasRoom, write_bound,
  Suits, Suits-IsTaken,
}
use misfits.Row.Restore.{Unmoved}
use misfits.Row.Bound.{restore}

part_of-IsOf : {M : Type 0} (b : Bound M) → IsOf (info_of b) (part_of b)
unfolding column_init column_base
part_of-IsOf (numbers T info base) = ground arith
part_of-IsOf (bools info base) = refl
part_of-IsOf (string info base) = (refl, refl)
part_of-IsOf (strings info base) = (refl, refl)

module _ {M : Type 0} where
  -- Setting the variable of the second binding leaves that of the first.
  abbrev pub Leaves : Bound M → Bound M → Type 0
  Leaves b b' = (values : List ℕ) (m : M) → Unmoved b m (restore b' values m)

  -- Two bindings are of different columns, and of variables that do not share memory.
  abbrev pub Apart : Bound M → Bound M → Type 0
  Apart b b' = ((info_of b).colnum ≢ (info_of b').colnum) × Leaves b b' × Leaves b' b

  abbrev pub AllApart : List (Bound M) → Type 0
  AllApart [] = Unit
  AllApart (b ∷ bs) = Every (Apart b) bs × AllApart bs

module _ {W M : Type 0} ⦃c : Cfitsio W⦄ (f t file n : ℕ) (row : ℤ) (m : M)
    {IsColumn : ColumnInfo → Type 0} (law : StoresRows c f IsColumn) where
  -- The row is there and holds the values that the memory m has for the binding.
  abbrev pub Stored : Bound M → W → Type 0
  Stored b w = HasRoom b m × Holds c f row (part_of b) (image b m) w × HasRow c f row w

  -- The binding is of a column of the table, which takes the values.
  abbrev pub IsFor : Bound M → Type 0
  IsFor b = IsColumn (info_of b) × Suits b m

  -- Writing the values of a binding, where it succeeds, leaves D.
  abbrev Spares : (W → Type 0) → Bound M → Type 0
  Spares D b =
      (w : W)
      → let (status, _, w') = put c (part_of b) f row (image b m) w in status ≡ 0 → D w → D w'

  Spares-Stored :
      (b : Bound M) (bs : List (Bound M))
      → IsFor b
      → Every IsFor bs
      → Every (Apart b) bs
      → Every (Spares (Stored b)) bs
  Spares-Stored b bs for_b columns apart =
      Every-zip bs
        (λ x is_for far w ends (room, held, there). (
          room,
          law.puts_apart row (part_of x) (part_of b) (info_of x) (info_of b) (image x m) (image b m)
              w is_for.0 for_b.0 (part_of-IsOf x) (part_of-IsOf b) (λ e. far.0 (sym e)) ends held,
          (law.puts row (part_of x) (info_of x) (image x m) w is_for.0 (part_of-IsOf x)
              (Suits-IsTaken x m is_for.1) ends).1,
        ))
        columns apart

  -- The memory is m, and D holds of the file's state, in which the table's HDU is the current one.
  abbrev pub Sits : (W → Type 0) → Session W M → Type 0
  Sits D s = (s.memory ≡ m) × Sees (λ w. (c.get_hdu_num f w ≡ n) × D w) t file f n s.store

  write_one :
      (b : Bound M) (D : W → Type 0) (s : Session W M)
      → IsFor b
      → Spares D b
      → Sits D s
      → let entry : ColumnEntry W M = entry_of b in
        Gives (λ _ s'. Sits (λ w. D w × Stored b w) s') (entry.write t row s)
  write_one b D s is_for spares (memory, sees) =
      let entry : ColumnEntry W M = entry_of b in
      Gives-intro _ (entry.write t row) s λ _ e.
        let w = s.store.world in
        let w' = (put c (part_of b) f row (image b s.memory) w).2 in
        let (room, ends, e') = rw (Sees-fptr s.store sees) at (write_bound b t row s e) in
        let ends' = rw memory at ends in
        let room' = rw memory at room in
        let (held, there, here) =
          law.puts row (part_of b) (info_of b) (image b m) w is_for.0 (part_of-IsOf b)
            (Suits-IsTaken b m is_for.1) ends' in
        let (current, d) = sees.holds in
        let facts : (c.get_hdu_num f w' ≡ n) × (D w' × Stored b w') =
          rw memory (here ∙ current, (spares w ends' d, (room', held, there))) in
        subst (Sits (λ w. D w × Stored b w)) (sym e') (memory, Sees-world w' s.store sees facts)

  -- Every binding is stored when the loop ends, and what writing spares is still so.
  pub write_entries-Stored :
      (bs : List (Bound M)) (D : W → Type 0) (s : Session W M)
      → Every IsFor bs
      → AllApart bs
      → Every (Spares D) bs
      → Sits D s
      → Gives
          (λ _ s'. Sits (λ w. D w × Every (λ b. Stored b w) bs) s')
          (write_entries t row (map entry_of bs) s)
  unfolding write_entries
  write_entries-Stored [] D s columns apart spares h =
      pure-Gives _ tt s (h.0, Sees-weaken s.store (λ w (current, d). (current, (d, tt))) h.1)
  write_entries-Stored (b ∷ bs) D s columns apart spares h =
      let entry : ColumnEntry W M = entry_of b in
      let D' : W → Type 0 = λ w. D w × Stored b w in
      let spares' =
        Every-zip bs (λ x keep keep' w ends (d, st). (keep w ends d, keep' w ends st)) spares.1
          (Spares-Stored b bs columns.0 columns.1 apart.0) in
      bind-Gives (λ _ s'. Sits D' s') _ (entry.write t row) _ s
        (write_one b D s columns.0 spares.0 h)
        λ _ s' h'.
          Gives-weaken _ _ (write_entries t row (map entry_of bs)) s'
            (λ _ s'' k. (
              k.0,
              Sees-weaken s''.store (λ w (current, ((d, st), rest)). (current, (d, (st, rest))))
                  k.1,
            ))
            (write_entries-Stored bs D' s' columns.1 apart.1 spares' h')
