-- ===== src/Cfitsio/Laws.antt =====
-- What the documentation of CFITSIO says of single routines, as predicates on an implementation. The
-- theorems that rely on one take it as a hypothesis.
use misfits.Prelude.{
  ℕ, ◌+◌, ◌<◌, ◌≤◌, ◌^◌, ◌≡◌, Bool, true, false, ◌||◌, List, [], ◌∷◌, ltb, ◌==◌, length, Every,
  if◌then◌else◌,
}
use misfits.Types.{Spec}
use misfits.Prelude.Int.{ℤ, pos, negsuc}
use misfits.Prelude.Text.{Text}
use misfits.Cfitsio.{Cfitsio, MessageStack, key_no_exist, value_undefined, flen_comment}
use misfits.Prelude.CText.{NullFree, AllNullFree}

-- A string value in a card: each quote is written twice.
abbrev pub card_length : Text → ℕ
card_length [] = 0
card_length (b ∷ value) = card_length value + (if b == b'\'' then 2 else 1)

-- A string value that fits one card, as fits_update_key_str takes it: at most 68 characters, each quote counted twice
abbrev pub fits_card : Text → Bool
fits_card value = ltb (card_length value) 69

-- Trailing spaces of a string value are not significant.
abbrev pub ends_in_space : Text → Bool
ends_in_space [] = false
ends_in_space (b ∷ []) = b == b' '
ends_in_space (b ∷ d ∷ value) = ends_in_space (d ∷ value)

-- The codes of the integer types. CFITSIO refuses a value of one of them that does not fit a column of integers.
abbrev pub is_whole : ℕ → Bool
is_whole datatype =
    datatype == 11
    || (datatype == 20
        || (datatype == 21
            || (datatype == 30
                || (datatype == 31 || (datatype == 40 || (datatype == 41 || datatype == 81))))))

-- The types of values that a column which is not scaled takes as they are: from the others, such as double in a column
-- of integers, CFITSIO converts. A column of bits takes bytes.
abbrev pub takes : Spec → ℕ → Bool
takes Spec.bit datatype = datatype == 11
takes Spec.logical datatype = datatype == 14
takes Spec.string datatype = false
takes Spec.float datatype = datatype == 42
takes Spec.double datatype = datatype == 82
takes _ datatype = is_whole datatype

-- The bits of an element of a type, in the memory of a program; a logical value is zero or one.
abbrev pub element_bits : ℕ → ℕ
element_bits datatype =
    if datatype == 14
    then 1
    else if datatype == 11
    then 8
    else if datatype == 20 || datatype == 21
    then 16
    else if datatype == 30 || (datatype == 31 || datatype == 42)
    then 32
    else 64

-- The values are bit patterns of the type.
abbrev pub AreOf : ℕ → List ℕ → Type 0
AreOf datatype values = Every (λ v. v < 2 ^ element_bits datatype) values

abbrev unsigned_in : ℕ → ℤ → Bool
unsigned_in bits (pos n) = ltb n (2 ^ bits)
unsigned_in bits (negsuc n) = false

-- n stands for - n - 1 in negsuc n.
abbrev signed_in : ℕ → ℤ → Bool
signed_in bits (pos n) = ltb n (2 ^ bits)
signed_in bits (negsuc n) = ltb n (2 ^ bits)

-- The value is in the range of an integer type whose values are written to a keyword digit by digit: not of unsigned
-- int and unsigned long, which go through a double, of a floating-point type, or of a logical value.
abbrev pub keeps_digits : ℕ → ℤ → Bool
keeps_digits datatype value =
    if datatype == 11
    then unsigned_in 8 value
    else if datatype == 20
    then unsigned_in 16 value
    else if datatype == 21
    then signed_in 15 value
    else if datatype == 31
    then signed_in 31 value
    else if datatype == 41 || datatype == 81
    then signed_in 63 value
    else false

module _ {W : Type 0} (c : Cfitsio W) where
  -- fits_movabs_hdu, when it succeeds, makes the HDU with the given number the current one.
  abbrev pub MovesTo : Type 0
  MovesTo =
      (f n : ℕ) (w : W)
      → let (status, _, w') = c.movabs_hdu f n w in status ≡ 0 → c.get_hdu_num f w' ≡ n

  -- fits_update_key, when it succeeds, leaves the current HDU, and a fits_read_key of the same keyword and type then
  -- succeeds and gives back an integer; and a comment, which may be cut to the room in the card.
  abbrev pub UpdatesKey : Type 0
  UpdatesKey =
      (f datatype : ℕ) (key : Text) (value : ℤ) (comment : Text) (w : W)
      → let (status, _, w') = c.update_key f datatype key value comment w in
        let (status', (value', comment'), _) = c.read_key f datatype key w' in
        status ≡ 0
        → keeps_digits datatype value ≡ true
        → (c.get_hdu_num f w' ≡ c.get_hdu_num f w)
          × (status' ≡ 0)
          × (value' ≡ value)
          × (length comment' ≤ flen_comment)

  -- The column of the file f is of the type spec and not scaled. What fits_write_col has written to it of a type that
  -- it takes without a conversion, a fits_read_col of that type from the same place gives back.
  abbrev pub ReadsBack : ℕ → ℕ → Spec → Type 0
  ReadsBack f colnum spec =
      (datatype : ℕ) (row : ℤ) (first : ℕ) (n : ℤ) (values : List ℕ) (w : W)
      → let (status, _, w') = c.write_col f datatype colnum row first n values w in
        let (status', values', _) = c.read_col f datatype colnum row first n w' in
        status ≡ 0
        → takes spec datatype ≡ true
        → AreOf datatype values
        → (status' ≡ 0) × (values' ≡ values)

  -- What fits_write_tblbytes has written, a fits_read_tblbytes of the same bytes of the row gives back.
  abbrev pub ReadsBackBytes : Type 0
  ReadsBackBytes =
      (f : ℕ) (row first n : ℤ) (bytes : List ℕ) (w : W)
      → let (status, _, w') = c.write_tblbytes f row first n bytes w in
        let (status', bytes', _) = c.read_tblbytes f row first n w' in
        status ≡ 0 → (status' ≡ 0) × (bytes' ≡ bytes)

  -- fits_get_key_strlen tells the length of a string value, and then fits_read_string_key gives it back, with a
  -- comment, which may be cut to the room in the card.
  abbrev pub HoldsString : ℕ → Text → Text → W → Type 0
  HoldsString f key value w =
      let (status, len, w') = c.get_key_strlen f key w in
      let (status', (value', comment'), _) = c.read_string_key f key 1 len w' in
      (status ≡ 0)
      × (len ≡ length value)
      × (status' ≡ 0)
      × (value' ≡ value)
      × (length comment' ≤ flen_comment)

  -- fits_update_key_str for values of one card, and fits_update_key_longstr for any, leave the current HDU, and the
  -- value can be read afterwards, unless it ends in a space or holds a null character; fits_write_key_longwarn leaves
  -- the current HDU.
  pub record UpdatesStrings : Type 0 where
    pub one_card :
        (f : ℕ) (key value comment : Text) (w : W)
        → let (status, _, w') = c.update_key_str f key value comment w in
          status ≡ 0
          → fits_card value ≡ true
          → ends_in_space value ≡ false
          → NullFree value
          → (c.get_hdu_num f w' ≡ c.get_hdu_num f w) × HoldsString f key value w'
    pub long :
        (f : ℕ) (key value comment : Text) (w : W)
        → let (status, _, w') = c.update_key_longstr f key value comment w in
          status ≡ 0
          → ends_in_space value ≡ false
          → NullFree value
          → (c.get_hdu_num f w' ≡ c.get_hdu_num f w) × HoldsString f key value w'
    pub warns :
        (f : ℕ) (w : W)
        → let (status, _, w') = c.write_key_longwarn f w in
          status ≡ 0 → c.get_hdu_num f w' ≡ c.get_hdu_num f w

-- In the HDU with the given number of the file f there are n keywords, and the k-th is `cards k`: name, value and comment.
-- Moving to the HDU and reading its keywords does not change that, which is so in the states that have `P`.
pub record ListsKeywords {W : Type 0} (c : Cfitsio W) (P : W → Type 0) (f hdu_num : ℕ)
    (cards : ℕ → Text × Text × Text) (n : ℕ) : Type 0 where
  pub moves : (w : W) → P w → let (status, _, w') = c.movabs_hdu f hdu_num w in P w'
  pub counts :
      (w : W)
      → P w
      → c.get_hdu_num f w ≡ hdu_num
      → let (status, (keysexist, _), w') = c.get_hdrpos f w in (status ≡ 0 → keysexist ≡ n) × P w'
  pub reads :
      (k : ℕ) (w : W)
      → P w
      → c.get_hdu_num f w ≡ hdu_num
      → let (status, card, w') = c.read_keyn f k w in
        (status ≡ 0 → card ≡ cards k)
        × ((status == key_no_exist) ≡ false)
        × ((status == value_undefined) ≡ false)
        × P w'

-- The error stack holds messages, which fits_read_errmsg takes off it in turn; it gives back zero and an empty string
-- when there is none. No string that CFITSIO gives holds a null character.
pub record KeepsMessages {E : Type 0} (c : MessageStack E) (messages : E → List Text) : Type 0 where
  pub status_clean : (status : ℕ) → NullFree (c.get_errstatus status)
  pub messages_clean : (errors : E) → AllNullFree (messages errors)
  pub no_message :
      (errors : E)
      → messages errors ≡ []
      → let (more, message, errors') = c.read_errmsg errors in
        (more ≡ false) × (message ≡ []) × (messages errors' ≡ [])
  pub next_message :
      (errors : E) (first : Text) (others : List Text)
      → messages errors ≡ first ∷ others
      → let (more, message, errors') = c.read_errmsg errors in
        (more ≡ true) × (message ≡ first) × (messages errors' ≡ others)
