-- ===== src/Row/Moves.antt =====
-- How a row moves (Row::read and Row::write in misfits/row.cc).
use misfits.Prelude.{ℕ, ◌≡◌, Bool, true, false, arith, inl, inr, if◌then◌else◌}
use misfits.Prelude.Int.{ℤ, pos, ◌+ℤ◌, ◌<ℤ?◌}
use misfits.Cfitsio.{⊤, Cfitsio}
use misfits.Exception.{Result, ok, throw, Result-cases, ◌>>=◌}
use misfits.Table.{num_rows, set_table_as_chdu}
use misfits.Row.{Row, RowState, read, write}

abbrev pub next_idx : {W M : Type 0} → Row W M → ℤ
next_idx row = if row.auto_advance then row.idx +ℤ pos 1 else row.idx

-- How a call of `read` on a row may end: past the last row it changes neither the row nor the memory; at a row
-- of the table it steps on, if it is to; and if it throws the row stays where it is.
abbrev pub ReadOutcome : {W M : Type 0} → RowState W M → Result Bool × RowState W M → Type 0
ReadOutcome s (ok true, s') = s'.row ≡ record s.row { idx = next_idx s.row }
ReadOutcome s (ok false, s') = (s'.row ≡ s.row) × (s'.session.memory ≡ s.session.memory)
ReadOutcome s (throw e, s') = s'.row ≡ s.row

abbrev pub WriteOutcome : {W M : Type 0} → RowState W M → Result ⊤ × RowState W M → Type 0
WriteOutcome s (ok _, s') = s'.row ≡ record s.row { idx = next_idx s.row }
WriteOutcome s (throw e, s') = s'.row ≡ s.row

module _ {W M : Type 0} ⦃c : Cfitsio W⦄ where
  -- Whatever the entries do, a call of `read` ends in one of three ways. It gives back true, and the row has stepped on
  -- by one if it advances by itself and has stayed if not; or false, and neither the row nor the program's
  -- memory has changed; or it throws, and the row is as it was.
  pub read_outcome : (s : RowState W M) → ReadOutcome s (read s)
  unfolding read ◌>>=◌
  read_outcome s = ground arith

  -- Whatever the entries do, a call of `write` either ends, and then the row has stepped on by one if it advances by
  -- itself and has stayed if not; or it throws, and the row is as it was.
  pub write_outcome : (s : RowState W M) → WriteOutcome s (write s)
  unfolding write ◌>>=◌
  write_outcome s = ground arith

  -- `read` gives back true only at a row that the table has: CFITSIO reported a number of rows that is
  -- not below the row's place.
  read_within :
      (s : RowState W M)
      → (read s).0 ≡ ok true
      → let u = (set_table_as_chdu s.row.table s.session.store).1 in
        (n : ℕ) × ((num_rows s.row.table u).0 ≡ ok n) × ((pos n <ℤ? s.row.idx) ≡ false)
  unfolding read ◌>>=◌
  read_within s h =
      let u = (set_table_as_chdu s.row.table s.session.store).1 in
      elim (Result-cases (num_rows s.row.table u).0) [
        | inl (n, e) ↦ (n, e, ground arith)
        | inr (x, e) ↦ absurd (ground arith)
      ]
