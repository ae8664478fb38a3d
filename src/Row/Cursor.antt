-- ===== src/Row/Cursor.antt =====
-- What a client may rely on of the place of a Row (misfits/row.hpp, misfits/row.cc): a cursor whose moves follow from the
-- calls and from what they gave back, whatever CFITSIO and the entries do.
use misfits.Prelude.{sym, Bool, true, false, List, [], ◌∷◌, if◌then◌else◌}
use misfits.Prelude.Int.{ℤ, pos, ◌+ℤ◌}
use mathlib.Core.Path.{subst}
use misfits.Cfitsio.{⊤, Cfitsio}
use misfits.Exception.{Exception, Result, ok, throw, ◌>>=◌}
use misfits.Row.{Row, RowState, read, read_at, write, write_at, set_idx, set_auto_advance, advance}
use misfits.Row.Moves.{ReadOutcome, WriteOutcome, read_outcome, write_outcome}

pub record Cursor : Type 0 where
  pub idx : ℤ
  pub auto_advance : Bool

-- The methods that move a row or stop it from moving
pub data Call : Type 0 where
  places advances : ℤ → Call
  sets_auto_advance : Bool → Call
  reads writes : Call
  reads_at writes_at : ℤ → Call

-- What a call gives back
pub data Reply : Type 0 where
  done : Reply
  found : Bool → Reply
  failed : Exception → Reply

abbrev pub at_place : ℤ → Cursor → Cursor
at_place idx c = record c { idx = idx }

abbrev pub stepped : Cursor → Cursor
stepped c = at_place (if c.auto_advance then c.idx +ℤ pos 1 else c.idx) c

-- The moves of a cursor. A call that places the row leaves it there also if what it does next fails.
pub data Moves : Cursor → Call → Reply → Cursor → Type 0 where
  placed : {c : Cursor} {idx : ℤ} → Moves c (places idx) done (at_place idx c)
  advanced : {c : Cursor} {n : ℤ} → Moves c (advances n) done (at_place (c.idx +ℤ n) c)
  set :
      {c : Cursor} {flag : Bool}
      → Moves c (sets_auto_advance flag) done (record c { auto_advance = flag })
  read_row : {c : Cursor} → Moves c reads (found true) (stepped c)
  read_none : {c : Cursor} → Moves c reads (found false) c
  read_failed : {c : Cursor} {e : Exception} → Moves c reads (failed e) c
  wrote_row : {c : Cursor} → Moves c writes done (stepped c)
  write_failed : {c : Cursor} {e : Exception} → Moves c writes (failed e) c
  read_there :
      {c d : Cursor} {idx : ℤ} {r : Reply}
      → Moves (at_place idx c) reads r d
      → Moves c (reads_at idx) r d
  wrote_there :
      {c d : Cursor} {idx : ℤ} {r : Reply}
      → Moves (at_place idx c) writes r d
      → Moves c (writes_at idx) r d

-- A sequence of calls, with their replies
pub data Runs : Cursor → List Call → List Reply → Cursor → Type 0 where
  stays : {c : Cursor} → Runs c [] [] c
  goes :
      {c d e : Cursor} {call : Call} {reply : Reply} {calls : List Call} {replies : List Reply}
      → Moves c call reply d
      → Runs d calls replies e
      → Runs c (call ∷ calls) (reply ∷ replies) e

abbrev pub cursor_of : {W M : Type 0} → Row W M → Cursor
cursor_of row = record { idx = row.idx; auto_advance = row.auto_advance }

abbrev pub cursor : {W M : Type 0} → RowState W M → Cursor
cursor s = cursor_of s.row

abbrev read_reply : Result Bool → Reply
read_reply (ok b) = found b
read_reply (throw e) = failed e

abbrev write_reply : {A : Type 0} → Result A → Reply
write_reply (ok a) = done
write_reply (throw e) = failed e

module _ {W M : Type 0} ⦃c : Cfitsio W⦄ where
  abbrev pub reply_to : Call → RowState W M → Reply × RowState W M
  reply_to (places idx) s = (done, set_idx idx s)
  reply_to (advances n) s = (done, advance n s)
  reply_to (sets_auto_advance flag) s = (done, set_auto_advance flag s)
  reply_to reads s = let (r, s') = read s in (read_reply r, s')
  reply_to writes s = let (r, s') = write s in (write_reply r, s')
  reply_to (reads_at idx) s = let (r, s') = read_at idx s in (read_reply r, s')
  reply_to (writes_at idx) s = let (r, s') = write_at idx s in (write_reply r, s')

  -- A client that goes on after an exception
  abbrev pub replies_to : List Call → RowState W M → List Reply × RowState W M
  replies_to [] s = ([], s)
  replies_to (call ∷ calls) s =
      let (reply, s') = reply_to call s in
      let (replies, s₂) = replies_to calls s' in (reply ∷ replies, s₂)

  -- An outcome as Moves.antt describes it is a move of the cursor.
  ReadOutcome-Moves :
      (s : RowState W M) (r : Result Bool) (s' : RowState W M)
      → ReadOutcome s (r, s')
      → Moves (cursor s) reads (read_reply r) (cursor s')
  ReadOutcome-Moves s (ok true) s' h =
      subst (λ row. Moves (cursor s) reads (found true) (cursor_of row)) (sym h) read_row
  ReadOutcome-Moves s (ok false) s' h =
      subst (λ row. Moves (cursor s) reads (found false) (cursor_of row)) (sym h.0) read_none
  ReadOutcome-Moves s (throw e) s' h =
      subst (λ row. Moves (cursor s) reads (failed e) (cursor_of row)) (sym h) read_failed

  WriteOutcome-Moves :
      (s : RowState W M) (r : Result ⊤) (s' : RowState W M)
      → WriteOutcome s (r, s')
      → Moves (cursor s) writes (write_reply r) (cursor s')
  WriteOutcome-Moves s (ok a) s' h =
      subst (λ row. Moves (cursor s) writes done (cursor_of row)) (sym h) wrote_row
  WriteOutcome-Moves s (throw e) s' h =
      subst (λ row. Moves (cursor s) writes (failed e) (cursor_of row)) (sym h) write_failed

  read-Moves :
      (s : RowState W M) → let (r, s') = read s in Moves (cursor s) reads (read_reply r) (cursor s')
  read-Moves s = let (r, s') = read s in ReadOutcome-Moves s r s' (read_outcome s)

  write-Moves :
      (s : RowState W M)
      → let (r, s') = write s in Moves (cursor s) writes (write_reply r) (cursor s')
  write-Moves s = let (r, s') = write s in WriteOutcome-Moves s r s' (write_outcome s)

  reply_to-Moves :
      (call : Call) (s : RowState W M)
      → let (reply, s') = reply_to call s in Moves (cursor s) call reply (cursor s')
  unfolding read_at write_at ◌>>=◌
  reply_to-Moves (places idx) s = placed
  reply_to-Moves (advances n) s = advanced
  reply_to-Moves (sets_auto_advance flag) s = set
  reply_to-Moves reads s = read-Moves s
  reply_to-Moves writes s = write-Moves s
  reply_to-Moves (reads_at idx) s = read_there (read-Moves (set_idx idx s))
  reply_to-Moves (writes_at idx) s = wrote_there (write-Moves (set_idx idx s))

  -- Whatever calls a client makes and whichever of them throw, the place of the row and whether it advances by itself are
  -- those of the cursor that has made the same moves.
  pub replies_to-Runs :
      (calls : List Call) (s : RowState W M)
      → let (replies, s') = replies_to calls s in Runs (cursor s) calls replies (cursor s')
  replies_to-Runs [] s = stays
  replies_to-Runs (call ∷ calls) s =
      let (reply, s') = reply_to call s in goes (reply_to-Moves call s) (replies_to-Runs calls s')
