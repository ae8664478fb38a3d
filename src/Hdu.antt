-- ===== src/Hdu.antt =====
-- class HDU (misfits/hdu.hpp, misfits/hdu.cc), its keywords, and KeywordIterator (misfits/keyword.hpp,
-- misfits/keyword.cc). A const method takes the HDU's members; one that assigns to them takes the address.
-- The value of a keyword that is no string is an integer, or the bit pattern of a value of its type. The names of keywords
-- are taken to hold no null character; values and comments are cut at one where `c_str` is passed.
pub mod Keywords
pub mod Strings
pub mod Iterator
pub mod Dump
use misfits.Prelude.{
  ℕ, zero, suc, ◌+◌, ◌-◌, Bool, true, false, ◌&&◌, ◌||◌, List, [], ◌∷◌, ◌++◌, ltb, ◌==◌, length,
  take, replicate, if◌then◌else◌,
}
use misfits.Prelude.Int.{ℤ, pos}
use misfits.Prelude.Text.{Text, text}
use misfits.Prelude.CText.{until_null}
use misfits.Cfitsio.{
  ⊤, Call, Cfitsio, HduType, any, key_no_exist, value_undefined, flen_value, flen_comment,
}
use misfits.Exception.{
  cfitsio, undefined, zoom, Action, pure, raise, gets, modify, throw_if, ◌>>=◌, ◌>>◌,
}
use misfits.Types.{Native, int, storage_code}
use misfits.Store.{Store, Hdu, call, check, fptr, set_hdu, new_hdu}
use misfits.File.{hdu_num, move_to, move_to_name, open_memory}

-- struct Keyword
pub record Keyword (V : Type 0) : Type 0 where
  pub keyname : Text
  pub value : V
  pub comment : Text
  pub is_defined : Bool

-- The function `keyword`, with the defaults of its last arguments left to the caller.
abbrev pub keyword : {V : Type 0} → Text → V → Text → Bool → Keyword V
keyword name v comment is_defined = record {
  keyname = name;
  value = v;
  comment = comment;
  is_defined = is_defined;
}

-- `make_keyword`: where the status is not zero the default stands for the value.
abbrev pub make_keyword : {V : Type 0} → Text → V → V → Text → ℕ → Keyword V
make_keyword keyname value default_value comment status =
    keyword keyname (if status == 0 then value else default_value) comment (status == 0)

-- `value.assign( &v_value[0], length )`, where a string was written into v_value, of length + 1 null characters
unfoldable pub assigned : ℕ → Text → Text
assigned len value = take len (value ++ replicate (len + 1 - length value) 0)

-- A status that says that a keyword is absent or has no value, which the getters accept.
abbrev pub is_missing : ℕ → Bool
is_missing status = status == value_undefined || status == key_no_exist

module _ {W : Type 0} where
  -- The macro RETURN_KEYWORD, after its CFITSIO call
  abbrev pub return_keyword : {V : Type 0} → Text → V → V → Text → ℕ → Action (Store W) (Keyword V)
  return_keyword keyname value default_value comment status =
      if status == 0 || is_missing status
      then pure (make_keyword keyname value default_value comment status)
      else raise (cfitsio status)

  -- A CFITSIO routine that is called with a status above zero returns at once: of two calls in one
  -- misFITS_CHECK_CFITSIO_EXPR the second is made only if the first succeeds.
  abbrev pub then_call : Call W ⊤ → Call W ⊤ → Call W ⊤
  then_call first second w =
      let (status, _, w') = first w in
      let next = second w' in if status == 0 then next else (status, tt, w')

  -- The switch of `has_keyword`
  abbrev pub card_found : ℕ → Action (Store W) Bool
  card_found status =
      if status == 0
      then pure true
      else if status == value_undefined
      then pure true
      else if status == key_no_exist
      then pure false
      else raise (cfitsio status)

module _ {W : Type 0} ⦃c : Cfitsio W⦄ where
  -- `set_as_chdu`
  unfoldable pub set_as_chdu : Hdu → Action (Store W) ⊤
  set_as_chdu hdu = move_to hdu.file hdu.hdu_num

  unfoldable pub get_hdrpos : Hdu → Action (Store W) (ℕ × ℕ)
  get_hdrpos hdu = do set_as_chdu hdu; fitsptr ← gets (fptr hdu.file); check (c.get_hdrpos fitsptr)

  -- `has_keyword` does not call `set_as_chdu`.
  unfoldable pub has_keyword : Hdu → Text → Action (Store W) Bool
  has_keyword hdu keyname = do
    fitsptr ← gets (fptr hdu.file)
    (status, _) ← call (c.read_card fitsptr keyname)
    card_found status

  unfoldable pub read_keyn : Hdu → ℕ → Text → Action (Store W) (Keyword Text)
  read_keyn hdu keynum default_value = do
    set_as_chdu hdu
    fitsptr ← gets (fptr hdu.file)
    (status, (keyname, value, comment)) ← call (c.read_keyn fitsptr keynum)
    return_keyword keyname value default_value comment status

  -- `get_keyword<std::string>` asks for the length, and reads the value if there is one, into a buffer of length + 1
  -- characters, and the comment into one of FLEN_COMMENT + 1. What does not fit into them is undefined.
  unfoldable pub read_string : Hdu → Text → Text → ℕ → Action (Store W) (Keyword Text)
  read_string hdu keyname default_value len = do
    fitsptr ← gets (fptr hdu.file)
    (status, (value, comment)) ← call (c.read_string_key fitsptr keyname 1 len)
    throw_if (ltb len (length value)) undefined
    throw_if (ltb flen_comment (length comment)) undefined
    return_keyword keyname (assigned len value) default_value comment status

  unfoldable pub get_keyword_string : Hdu → Text → Text → Action (Store W) (Keyword Text)
  get_keyword_string hdu keyname default_value = do
    set_as_chdu hdu
    fitsptr ← gets (fptr hdu.file)
    (status, len) ← call (c.get_key_strlen fitsptr keyname)
    let value = read_string hdu keyname default_value len
    if status == 0 then value else return_keyword keyname [] default_value [] status

  -- `get_keyword<T>`: the comment is read into a buffer of FLEN_COMMENT + 1 characters.
  unfoldable pub get_keyword : Native → Hdu → Text → ℤ → Action (Store W) (Keyword ℤ)
  get_keyword T hdu keyname default_value = do
    set_as_chdu hdu
    fitsptr ← gets (fptr hdu.file)
    (status, (value, comment)) ← call (c.read_key fitsptr (storage_code T) keyname)
    throw_if (ltb flen_comment (length comment)) undefined
    return_keyword keyname value default_value comment status

  -- `set_keyword<std::string>`
  unfoldable pub write_string : ℕ → Keyword Text → Call W ⊤
  write_string fitsptr kw =
      if ltb flen_value (length kw.value)
      then then_call (c.write_key_longwarn fitsptr)
          (c.update_key_longstr fitsptr kw.keyname (until_null kw.value) (until_null kw.comment))
      else c.update_key_str fitsptr kw.keyname (until_null kw.value) (until_null kw.comment)

  unfoldable pub set_keyword_string : Hdu → Keyword Text → Action (Store W) ⊤
  set_keyword_string hdu kw = do
    set_as_chdu hdu
    fitsptr ← gets (fptr hdu.file)
    check (write_string fitsptr kw)

  -- `set_keyword<T>`
  unfoldable pub set_keyword : Native → Hdu → Keyword ℤ → Action (Store W) ⊤
  set_keyword T hdu kw = do
    set_as_chdu hdu
    fitsptr ← gets (fptr hdu.file)
    check (c.update_key fitsptr (storage_code T) kw.keyname kw.value (until_null kw.comment))

  unfoldable pub delete_keyword : Hdu → Text → Action (Store W) ⊤
  delete_keyword hdu keyname = do
    set_as_chdu hdu
    fitsptr ← gets (fptr hdu.file)
    check (c.delete_key fitsptr keyname)

  unfoldable pub add_history : Hdu → Text → Action (Store W) ⊤
  add_history hdu history = do
    set_as_chdu hdu
    fitsptr ← gets (fptr hdu.file)
    check (c.write_history fitsptr history)

  unfoldable pub add_comment : Hdu → Text → Action (Store W) ⊤
  add_comment hdu comment = do
    set_as_chdu hdu
    fitsptr ← gets (fptr hdu.file)
    check (c.write_comment fitsptr comment)

  -- `HDU::refresh`, of the object at address t
  unfoldable pub hdu_refresh : ℕ → Action (Store W) ⊤
  hdu_refresh t = do
    hdu ← gets (λ s. s.hdus t)
    set_as_chdu hdu
    name ← get_keyword_string hdu (text "EXTNAME") []
    modify (set_hdu t (record hdu { extname = name.value }))
    ver ← get_keyword int hdu (text "EXTVER") (pos 1)
    modify (set_hdu t (record hdu { extname = name.value; extver = ver.value }))

  -- The constructors of an HDU of a file. The first takes a number, zero for the current HDU; the second a
  -- name and a version. What a constructor leaves unset is empty or zero here until `refresh` sets it.
  unfoldable pub hdu_at : ℕ → ℕ → Action (Store W) ℕ
  hdu_at file hdu_num_ = do
    here ← gets (hdu_num file)
    t ← new_hdu (record {
      file = file;
      extname = [];
      extver = pos 0;
      hdu_num = if hdu_num_ == 0 then here else hdu_num_;
    })
    hdu_refresh t
    pure t

  unfoldable pub hdu_named : ℕ → Text → ℤ → Action (Store W) ℕ
  hdu_named file extname extver = do
    move_to_name file extname extver any
    here ← gets (hdu_num file)
    t ← new_hdu (record { file = file; extname = extname; extver = extver; hdu_num = here })
    hdu_refresh t
    pure t

  -- `HDU::HDU()`: the first HDU of a new file in memory
  unfoldable pub hdu_in_memory : Action (Store W) ℕ
  hdu_in_memory = do
    fp ← open_memory
    new_hdu (record { file = fp; extname = []; extver = pos 0; hdu_num = 1 })

-- class KeywordIterator. Its `hdup_` is the HDU at an address.
pub record KeywordIterator : Type 0 where
  pub hdup : ℕ
  pub keynum : ℕ
  pub nkeys : ℕ

-- What operator () of keyword_output writes to the stream
abbrev pub keyword_line : Keyword Text → Text
keyword_line kw = kw.keyname ++ (text " = " ++ (kw.value ++ text "\n"))

-- operator == of KeywordIterator
abbrev pub iterator_eq : KeywordIterator → KeywordIterator → Bool
iterator_eq self other = other.hdup == self.hdup && other.keynum == self.keynum

module _ {W : Type 0} ⦃c : Cfitsio W⦄ where
  unfoldable pub keyword_iterator : ℕ → ℕ → Action (Store W) KeywordIterator
  keyword_iterator hdup keynum = do
    hdu ← gets (λ s. s.hdus hdup)
    (keysexist, _) ← get_hdrpos hdu
    pure (record { hdup = hdup; keynum = keynum; nkeys = keysexist })

  unfoldable pub current : KeywordIterator → Action (Store W) (Keyword Text)
  current it = do hdu ← gets (λ s. s.hdus it.hdup); read_keyn hdu it.keynum []

  -- operator ++ gives back the keyword at the new place. In the postfix form the dummy argument of the
  -- language is added to the place, and it is zero.
  unfoldable pub advance_by :
      ℕ → KeywordIterator → Action (Store W) (KeywordIterator × Keyword Text)
  advance_by inc it = do
    let it' : KeywordIterator = record it { keynum = it.keynum + inc }
    kw ← current it'
    pure (it', kw)

  abbrev pub increment : KeywordIterator → Action (Store W) (KeywordIterator × Keyword Text)
  increment = advance_by 1

  abbrev pub post_increment : KeywordIterator → Action (Store W) (KeywordIterator × Keyword Text)
  post_increment = advance_by 0

  -- `end`: one past the last keyword
  unfoldable pub end_of : KeywordIterator → Action (Store W) KeywordIterator
  end_of it = keyword_iterator it.hdup (it.nkeys + 1)

  -- `dump_keywords` acts on the stream too. Its loop, `for_each`, runs from the first iterator up to the second; on
  -- fuel, which runs out only if the second is not met.
  abbrev pub to_hdu : {A : Type 0} → Action (Store W) A → Action (Store W × Text) A
  to_hdu = zoom (λ s. s.0) (λ st s. (st, s.1))

  unfoldable pub dump_between : ℕ → KeywordIterator → KeywordIterator → Action (Store W × Text) ⊤
  dump_between zero start finish = if iterator_eq start finish then pure tt else raise undefined
  dump_between (suc fuel) start finish = if iterator_eq start finish then pure tt else do
    kw ← to_hdu (current start)
    modify (λ s. (s.0, s.1 ++ keyword_line kw))
    (next, _) ← to_hdu (increment start)
    dump_between fuel next finish

  unfoldable pub dump_keywords : ℕ → ℕ → Action (Store W × Text) ⊤
  dump_keywords hdup keynum = do
    start ← to_hdu (keyword_iterator hdup keynum)
    finish ← to_hdu (end_of start)
    dump_between (finish.keynum - start.keynum) start finish
