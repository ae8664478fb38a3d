-- ===== src/Tests/Errors.antt =====
-- The text of an exception, with an error stack that is a list of messages.
use misfits.Prelude.{
  ℕ, ◌≡◌, ◌≤◌, ◌<◌, refl, arith, true, false, Bool, List, [], ◌∷◌, length, length-replicate,
  replicate,
}
use misfits.Prelude.Text.{Text, text}
use misfits.Prelude.CText.{until_null, AllNullFree}
use misfits.Cfitsio.{MessageStack}
use misfits.Cfitsio.Laws.{KeepsMessages}
use misfits.Exception.{ok, throw, undefined, bind_result}
use misfits.Exception.Message.{
  error_size, cfitsio_exception, put_line, put_string, string_end, collect, what,
}
use misfits.Exception.Message.Lines.{Reported, cfitsio_exception_lem, error_size_enough, error_text}

abbrev Clean : Type 0
Clean = (messages : List Text) × AllNullFree messages

abbrev pop : Clean → Bool × Text × Clean
pop ([], h) = (false, [], ([], tt))
pop (m ∷ ms, h) = (true, m, (ms, h.1))

abbrev stack : MessageStack Clean
stack = record { get_errstatus = λ status. text "not found"; read_errmsg = pop }

abbrev messages : Clean → List Text
messages errors = errors.0

no_message :
    (errors : Clean)
    → messages errors ≡ []
    → let (more, message, errors') = pop errors in
      (more ≡ false) × (message ≡ []) × (messages errors' ≡ [])
no_message ([], h) e = (refl, refl, refl)
no_message (m ∷ ms, h) e = cc

next_message :
    (errors : Clean) (first : Text) (others : List Text)
    → messages errors ≡ first ∷ others
    → let (more, message, errors') = pop errors in
      (more ≡ true) × (message ≡ first) × (messages errors' ≡ others)
next_message ([], h) first others e = cc
next_message (m ∷ ms, h) first others e = (refl, cc, cc)

stack-KeepsMessages : KeepsMessages stack messages
stack-KeepsMessages = record {
  status_clean = λ status. ground arith;
  messages_clean = λ errors. errors.1;
  no_message = no_message;
  next_message = next_message;
}

abbrev two_messages : List Text
two_messages = text "no such file" ∷ text "open failed" ∷ []

two_messages-AllNullFree : AllNullFree two_messages
two_messages-AllNullFree = ground arith

abbrev two_errors : Clean
two_errors = (two_messages, two_messages-AllNullFree)

error_size_enough_example :
    Reported ⦃c = stack⦄ messages 104 two_errors
      (cfitsio_exception ⦃c = stack⦄ 104 (replicate error_size 1) two_errors)
error_size_enough_example =
    error_size_enough ⦃c = stack⦄ messages stack-KeepsMessages 104 (replicate error_size 1)
      two_errors (length-replicate {A = ℕ} error_size 1) (omega arith) (omega arith)
      (omega arith, (omega arith, tt))

cfitsio_exception_lem_example :
    let size = length (error_text (text "not found") (messages two_errors)) in
    (size < 36
      → Reported ⦃c = stack⦄ messages 104 two_errors
          (cfitsio_exception ⦃c = stack⦄ 104 (replicate 36 1) two_errors))
    × (36 ≤ size → cfitsio_exception ⦃c = stack⦄ 104 (replicate 36 1) two_errors ≡ throw undefined)
cfitsio_exception_lem_example =
    cfitsio_exception_lem ⦃c = stack⦄ messages stack-KeepsMessages 104 (replicate 36 1) two_errors

-- The text has 36 characters, so that 37 hold it and 36 do not.
ran :
    (bind_result
        (cfitsio_exception ⦃c = stack⦄ 104 (replicate 37 1) two_errors)
        (λ x. ok (what x.0))
      ≡ ok (text "not found\nno such file\nopen failed\n\n"))
    × (cfitsio_exception ⦃c = stack⦄ 104 (replicate 36 1) two_errors ≡ throw undefined)
unfolding cfitsio_exception collect put_line put_string string_end what until_null
ran = (refl, refl)
