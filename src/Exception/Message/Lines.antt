-- ===== src/Exception/Message/Lines.antt =====
-- The text of Exception::CFITSIO (misfits/exception.cc), and when the buffer has room for it.
use misfits.Prelude.{
  ℕ, zero, suc, ◌+◌, ◌-◌, ◌*◌, ◌≡◌, ◌≤◌, ◌<◌, refl, sym, ap, ◌∙◌, List, [], ◌∷◌, ◌++◌, length, drop,
  length-append, length-drop, arith,
}
use mathlib.Core.List.{append_assoc}
use native.Mathlib.Decide.{dec_le}
use misfits.Prelude.Text.{Text, text}
use misfits.Prelude.CText.{until_null-append, NullFree, AllNullFree, NullFree-append}
use misfits.Cfitsio.{MessageStack}
use misfits.Cfitsio.Laws.{KeepsMessages}
use misfits.Exception.{undefined, Result, ok, throw, bind_result, bind_result_assoc}
use misfits.Exception.Message.{
  CfitsioException, error_size, put_line, collect, cfitsio_exception, what,
}
use misfits.Exception.Message.Buffer.{put_line-fits, put_line-overruns}

-- Each message on a line of its own, and an empty line
abbrev pub lines : List Text → Text
lines [] = text "\n"
lines (message ∷ messages) = (message ++ text "\n") ++ lines messages

length-messages : (messages : List Text) → length messages < length (lines messages)
length-messages [] = omega arith
length-messages (m ∷ ms) = omega (
  arith,
  length-append (m ++ text "\n") (lines ms),
  length-append m (text "\n"),
  length-messages ms,
)

NullFree-lines : (messages : List Text) → AllNullFree messages → NullFree (lines messages)
NullFree-lines [] h = (omega arith, tt)
NullFree-lines (m ∷ ms) h =
    NullFree-append (m ++ text "\n") (lines ms)
      (NullFree-append m (text "\n") h.0 (omega arith, tt)) (NullFree-lines ms h.1)

-- No message is longer than 80 characters.
abbrev pub AllShort : List Text → Type 0
AllShort [] = Unit {0}
AllShort (m ∷ ms) = (length m ≤ 80) × AllShort ms

length-lines :
    (messages : List Text) → AllShort messages → length (lines messages) ≤ length messages * 81 + 1
length-lines [] h = omega arith
length-lines (m ∷ ms) h = omega (
  arith,
  length-append (m ++ text "\n") (lines ms),
  length-append m (text "\n"),
  length-lines ms h.1,
  h.0,
)

-- All that the constructor writes
abbrev pub error_text : Text → List Text → Text
error_text title messages = (title ++ text "\n") ++ lines messages

module _ {E : Type 0} ⦃c : MessageStack E⦄ (messages : E → List Text) where
  -- The exception holds the status and the text, and the messages are off the stack.
  abbrev pub Reported : ℕ → E → Result (CfitsioException × E) → Type 0
  Reported status errors outcome =
      (x : CfitsioException) × (errors' : E) × (outcome ≡ ok (x, errors'))
      × (what x ≡ error_text (c.get_errstatus status) (messages errors))
      × (x.status ≡ status)
      × (messages errors' ≡ [])

module _ {E : Type 0} ⦃c : MessageStack E⦄ (messages : E → List Text) where
  -- How it ends to write lines behind `front` over `junk`, if there are rounds `enough`
  abbrev Collected : Type 0 → Text → Text → List Text → Result (Text × E) → Type 0
  Collected enough front junk ms outcome =
      (enough
        → length (lines ms) < length junk
        → (errors : E) × (rest : Text) × (outcome ≡ ok (front ++ (lines ms ++ (0 ∷ rest)), errors))
          × (messages errors ≡ []))
      × (length junk ≤ length (lines ms) → outcome ≡ throw undefined)

  -- A line, and then others
  line-Collected :
      {enough enough' : Type 0} (front s junk : Text) (ms : List Text)
      (next : ℕ × Text → Result (Text × E))
      → NullFree s
      → (enough' → enough)
      → (let line = front ++ (s ++ text "\n") in
          let junk' = 0 ∷ drop (length s + 2) junk in
          Collected enough line junk' ms (next (length line, line ++ junk')))
      → Collected enough' front junk
          (s ∷ ms)
          (bind_result (put_line (length front) s (front ++ junk)) next)
  line-Collected front s junk ms next clean rounds later =
      let line = s ++ text "\n" in
      let whole : length (lines (s ∷ ms)) ≡ length s + 1 + length (lines ms) =
        rw (length-append line (lines ms), length-append s (text "\n")) refl in
      let size : length (0 ∷ drop (length s + 2) junk) ≡ suc (length junk - (length s + 2)) =
        ap suc (length-drop (length s + 2) junk) in
      (
        λ enough room.
            let (errors, rest, done, none_left) =
              later.0 (rounds enough) (omega (arith, size, whole)) in
            let fits =
              put_line-fits front s junk clean (omega (arith, whole, length-messages ms)) in
            let text =
              append_assoc front line (lines ms ++ (0 ∷ rest))
              ∙ ap (λ t. front ++ t) (sym (append_assoc line (lines ms) (0 ∷ rest))) in
            (errors, rest, rw (fits, done, text) refl, none_left),
        λ full. elim (dec_le (length junk) (length s + 1)) [
          | yes no_room ↦ rw (put_line-overruns front s junk clean no_room) refl
          | no room ↦
              rw
                (
                  put_line-fits front s junk clean (omega arith),
                  later.1 (omega (arith, size, whole)),
                )
                refl
        ],
      )

  -- What the constructor does at its end
  abbrev finish : ℕ → Text × E → Result (CfitsioException × E)
  finish status text = ok (record { error = text.0; status = status }, text.1)

  module _ (law : KeepsMessages c messages) where
    collect-Collected :
        (fuel : ℕ) (front junk : Text) (errors : E) (ms : List Text)
        → messages errors ≡ ms
        → AllNullFree ms
        → Collected
            (length ms < fuel)
            front
            junk
            ms
            (collect fuel (length front) (front ++ junk) errors)
    unfolding collect
    collect-Collected zero front junk errors ms e clean =
        (λ enough. absurd (omega arith), λ full. refl)
    collect-Collected (suc fuel) front junk errors [] e clean =
        let (last, nothing, left) = law.no_message errors e in
        (
          λ enough room. (
            (c.read_errmsg errors).2,
            drop 2 junk,
            rw
                (
                  last,
                  nothing,
                  put_line-fits front [] junk tt room,
                  append_assoc front (text "\n") (0 ∷ drop 2 junk),
                )
                refl,
            left,
          ),
          λ full. rw (nothing, put_line-overruns front [] junk tt full) refl,
        )
    collect-Collected (suc fuel) front junk errors (m ∷ ms) e clean =
        let (more, first, left) = law.next_message errors m ms e in
        let rest = (c.read_errmsg errors).2 in
        rw (more, first)
          (line-Collected front m junk ms (λ line. collect fuel line.0 line.1 rest) clean.0
            (λ h. omega arith)
            (collect-Collected fuel (front ++ (m ++ text "\n")) _ rest ms left clean.1))

    -- If the error stack works as documented, then where the buffer is longer than the text the constructor writes
    -- what CFITSIO says of the status, the messages on the stack and an empty line, each with its end of line, and
    -- leaves the stack empty; and where the buffer is not longer, the constructor leaves the buffer.
    pub cfitsio_exception_lem :
        (status : ℕ) (buffer : Text) (errors : E)
        → let size = length (error_text (c.get_errstatus status) (messages errors)) in
          (size < length buffer
            → Reported messages status errors (cfitsio_exception status buffer errors))
          × (length buffer ≤ size → cfitsio_exception status buffer errors ≡ throw undefined)
    unfolding cfitsio_exception what
    cfitsio_exception_lem status buffer errors =
        let ms = messages errors in
        let title = c.get_errstatus status in
        let rounds = length buffer in
        let (fits, overruns) =
          line-Collected [] title buffer ms (λ line. collect rounds line.0 line.1 errors)
            (law.status_clean status) (λ h. h)
            (collect-Collected rounds (title ++ text "\n") _ errors ms refl
              (law.messages_clean errors)) in
        let in_order =
          bind_result_assoc (put_line 0 title buffer) (λ line. collect rounds line.0 line.1 errors)
            (finish status) in
        (
          λ room.
              let (errors', rest, done, none_left) =
                fits
                  (omega (arith, length-append (title ++ text "\n") (lines ms), length-messages ms))
                  room in
              (
                record { error = lines (title ∷ ms) ++ (0 ∷ rest); status = status },
                errors',
                sym in_order ∙ ap (λ r. bind_result r (finish status)) done,
                until_null-append (lines (title ∷ ms)) rest (
                    NullFree-lines (title ∷ ms)
                      (law.status_clean status, law.messages_clean errors)),
                refl,
                none_left,
              ),
          λ full. sym in_order ∙ ap (λ r. bind_result r (finish status)) (overruns full),
        )

    -- If the error stack works as documented and holds no more than 25 messages of at most 80 characters, and what
    -- CFITSIO says of a status has at most 30, the buffer of 26 * 82 characters is long enough, whatever it holds at
    -- first.
    pub error_size_enough :
        (status : ℕ) (buffer : Text) (errors : E)
        → length buffer ≡ error_size
        → length (c.get_errstatus status) ≤ 30
        → length (messages errors) ≤ 25
        → AllShort (messages errors)
        → Reported messages status errors (cfitsio_exception status buffer errors)
    error_size_enough status buffer errors full title few short =
        (cfitsio_exception_lem status buffer errors).0 (
          omega (
            arith,
            length-append (c.get_errstatus status ++ text "\n") (lines (messages errors)),
            length-append (c.get_errstatus status) (text "\n"),
            length-lines (messages errors) short,
          ))
