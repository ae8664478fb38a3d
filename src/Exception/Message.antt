-- ===== src/Exception/Message.antt =====
-- Exception::CFITSIO::CFITSIO and what (misfits/exception.cc): how the text of the exception is put together, in a
-- buffer of fixed size, out of what CFITSIO says of a status and of the messages on its error stack.
pub mod Buffer
pub mod Lines
use misfits.Prelude.{
  ℕ, zero, suc, ◌+◌, ◌*◌, ◌≡◌, Bool, List, [], ◌∷◌, ◌++◌, ltb, if◌then◌else◌, length, take, drop,
}
use misfits.Prelude.Text.{Text, text}
use misfits.Prelude.CText.{until_null}
use misfits.Cfitsio.{MessageStack}
use misfits.Exception.{undefined, Result, ok, throw, bind_result}

-- `char error[26*82]`
abbrev pub error_size : ℕ
error_size = 26 * 82

-- class Exception::CFITSIO
pub record CfitsioException : Type 0 where
  pub error : Text
  pub status : ℕ

-- A string is written at a place of the buffer, with the null character behind it.
unfoldable pub put_string : ℕ → Text → Text → Result Text
put_string place s buffer =
    if ltb (place + length s) (length buffer)
    then ok (take place buffer ++ (s ++ (0 ∷ drop (place + length s + 1) buffer)))
    else throw undefined

-- `ptr + strlen( ptr )`
unfoldable pub string_end : ℕ → Text → ℕ
unfolding until_null
string_end place buffer = place + length (until_null (drop place buffer))

-- A routine of CFITSIO writes a string at `ptr`; then `ptr += strlen( ptr )`, `*ptr = '\n'` and `*(++ptr) = '\0'`. The
-- new place is given back, and the buffer.
unfoldable pub put_line : ℕ → Text → Text → Result (ℕ × Text)
put_line ptr s buffer = bind_result (put_string ptr s buffer) λ filled.
    let end = string_end ptr filled in
    bind_result (put_string end (text "\n") filled) λ ended. ok (end + 1, ended)

module _ {E : Type 0} ⦃c : MessageStack E⦄ where
  -- The loop. Each round writes a character at least and moves behind it, so a run of more rounds than the buffer has
  -- characters has left the buffer.
  unfoldable pub collect : ℕ → ℕ → Text → E → Result (Text × E)
  collect zero ptr buffer errors = throw undefined
  collect (suc fuel) ptr buffer errors =
      let (more, message, rest) = c.read_errmsg errors in
      bind_result (put_line ptr message buffer) λ line.
        let later = collect fuel line.0 line.1 rest in if more then later else ok (line.1, rest)

  -- The constructor, on a buffer that holds anything
  unfoldable pub cfitsio_exception : ℕ → Text → E → Result (CfitsioException × E)
  cfitsio_exception status buffer errors =
      bind_result (put_line 0 (c.get_errstatus status) buffer) λ line.
        bind_result (collect (length buffer) line.0 line.1 errors)
          λ text. ok (record { error = text.0; status = status }, text.1)

unfoldable pub what : CfitsioException → Text
unfolding until_null
what e = until_null e.error
