-- ===== src/Cfitsio/Columns.antt =====
-- What the documentation of CFITSIO and the FITS standard say of the description of a column in the header.
use misfits.Prelude.{
  ℕ, suc, ltb, ◌+◌, ◌-◌, ◌*◌, ◌≤◌, ◌≡◌, true, false, Bool, List, [], ◌∷◌, Option, none, some,
  length, if◌then◌else◌,
}
use misfits.Prelude.Int.{ℤ, pos}
use misfits.Prelude.Text.{Text, text_eq}
use misfits.Prelude.Decimal.{is_digit}
use misfits.Types.{Spec, spec_id, spec_code}
use misfits.Cfitsio.{Call, Cfitsio, binary_table}

-- The value of TFORM is a count and a letter; `n` is what has been read of the count.
abbrev pub letter_after : ℕ → Text → Option (ℕ × ℕ)
letter_after n [] = none
letter_after n (b ∷ bs) =
    let count = letter_after (n * 10 + (b - b'0')) bs in
    if is_digit b then count else if text_eq bs [] then some (n, b) else none

-- A count that is left out is one.
abbrev pub tform_parts : Text → Option (ℕ × ℕ)
tform_parts [] = none
tform_parts (b ∷ bs) =
    let count = letter_after 0 (b ∷ bs) in
    if is_digit b then count else if text_eq bs [] then some (1, b) else none

-- The types of numbers and bits whose cells CFITSIO describes by the code of their letter. Unsigned integers are described
-- as signed ones, and strings have rules of their own.
abbrev pub is_plain : Spec → Bool
is_plain Spec.string = false
is_plain Spec.ushort = false
is_plain Spec.ulong = false
is_plain _ = true

-- A routine that leaves P
abbrev pub Leaves : {W : Type 0} → {A : Type 0} → (W → Type 0) → Call W A → Type 0
Leaves {W = W} P routine = (w : W) → P w → P (routine w).2

-- The number that the n-th column had before the column with the number colnum was deleted
abbrev pub before_deletion : ℕ → ℕ → ℕ
before_deletion colnum n = if ltb n colnum then n else suc n

module _ {W : Type 0} (c : Cfitsio W) where
  -- The answers of CFITSIO, in this order, to the questions about a column of a binary table
  unfoldable pub HoldsColumn : ℕ → ℕ → Text → Spec → ℤ → List ℤ → W → Type 0
  HoldsColumn f colnum ttype spec repeat axes w =
      let (s₁, kind, w₁) = c.get_hdu_type f w in
      let (s₂, (name, unit), w₂) = c.get_bcolparmsll f colnum w₁ in
      let (s₃, (code, count, width), w₃) = c.get_coltypell f colnum w₂ in
      let (s₄, (naxis, _), w₄) = c.read_tdimll f colnum 0 w₃ in
      let (s₅, (_, dims), _) = c.read_tdimll f colnum naxis w₄ in
      ((s₁ ≡ 0) × (kind ≡ binary_table))
      × ((s₂ ≡ 0) × (name ≡ ttype))
      × ((s₃ ≡ 0) × (code ≡ spec_id spec) × (count ≡ repeat))
      × ((s₄ ≡ 0) × (naxis ≡ length axes))
      × ((s₅ ≡ 0) × (dims ≡ axes))

  -- A number that a new column may have
  abbrev pub HasPlace : ℕ → ℕ → W → Type 0
  HasPlace f colnum w =
      let (status, ncols, _) = c.get_num_cols f w in
      (status ≡ 0) × (1 ≤ colnum) × (colnum ≤ ncols + 1)

  -- fits_insert_col, when it succeeds, makes a column of the type and count that TFORM says, with one axis;
  -- fits_write_tdim, when it succeeds, gives the column its axes.
  pub record DescribesColumns : Type 0 where
    pub inserts :
        (f colnum : ℕ) (ttype tform : Text) (spec : Spec) (n : ℕ) (w : W)
        → let (status, _, w') = c.insert_col f colnum ttype tform w in
          status ≡ 0
          → HasPlace f colnum w
          → is_plain spec ≡ true
          → tform_parts tform ≡ some (n, spec_code spec)
          → HoldsColumn f colnum ttype spec (pos n) (pos n ∷ []) w'
    pub shapes :
        (f colnum : ℕ) (ttype : Text) (spec : Spec) (n : ℕ) (axes : List ℤ) (w : W)
        → let (status, _, w') = c.write_tdimll f colnum (length axes) axes w in
          status ≡ 0
          → HoldsColumn f colnum ttype spec (pos n) (pos n ∷ []) w
          → HoldsColumn f colnum ttype spec (pos n) axes w'

  -- Reading the keywords of an HDU and the description of its columns leaves P, in whatever file.
  pub record QuietReads (P : W → Type 0) : Type 0 where
    pub kind : (f : ℕ) → Leaves P (c.get_hdu_type f)
    pub counts : (f : ℕ) → Leaves P (c.get_num_cols f)
    pub string_lengths : (f : ℕ) (key : Text) → Leaves P (c.get_key_strlen f key)
    pub strings : (f : ℕ) (key : Text) (first n : ℕ) → Leaves P (c.read_string_key f key first n)
    pub keys : (f datatype : ℕ) (key : Text) → Leaves P (c.read_key f datatype key)
    pub parms : (f colnum : ℕ) → Leaves P (c.get_bcolparmsll f colnum)
    pub types : (f colnum : ℕ) → Leaves P (c.get_coltypell f colnum)
    pub dims : (f colnum n : ℕ) → Leaves P (c.read_tdimll f colnum n)

  -- So does moving to the HDU with the number hdu_num.
  pub record Reading (P : W → Type 0) (hdu_num : ℕ) : Type 0 where
    pub moves : (f : ℕ) → Leaves P (c.movabs_hdu f hdu_num)
    pub quiet : QuietReads P

  -- The current HDU of the file f has the number hdu_num, and it holds a column as described.
  abbrev pub Shows : ℕ → ℕ → ℕ → Text → Spec → ℤ → List ℤ → W → Type 0
  Shows f hdu_num colnum ttype spec repeat axes w =
      (c.get_hdu_num f w ≡ hdu_num) × HoldsColumn f colnum ttype spec repeat axes w

  -- Reading an HDU changes neither which HDU is current nor what is said of its columns; making a column and giving
  -- it its axes, where they succeed, leave the current HDU; and no column has a number above the number of columns.
  pub record KeepsDescriptions : Type 0 where
    pub current : (f hdu_num : ℕ) → Reading (λ w. c.get_hdu_num f w ≡ hdu_num) hdu_num
    pub described :
        (f hdu_num colnum : ℕ) (ttype : Text) (spec : Spec) (repeat : ℤ) (axes : List ℤ)
        → Reading (Shows f hdu_num colnum ttype spec repeat axes) hdu_num
    pub inserts :
        (f colnum : ℕ) (ttype tform : Text) (w : W)
        → let (status, _, w') = c.insert_col f colnum ttype tform w in
          status ≡ 0 → c.get_hdu_num f w' ≡ c.get_hdu_num f w
    pub shapes :
        (f colnum naxis : ℕ) (axes : List ℤ) (w : W)
        → let (status, _, w') = c.write_tdimll f colnum naxis axes w in
          status ≡ 0 → c.get_hdu_num f w' ≡ c.get_hdu_num f w
    pub numbers :
        (f colnum : ℕ) (ttype : Text) (spec : Spec) (repeat : ℤ) (axes : List ℤ) (w : W)
        → HoldsColumn f colnum ttype spec repeat axes w
        → let (status, ncols, _) = c.get_num_cols f w in status ≡ 0 → colnum ≤ ncols

  -- fits_delete_col, when it succeeds, leaves the current HDU and the descriptions of the other columns, of which those
  -- behind the deleted one have then a number less by one.
  abbrev pub DeletesColumns : Type 0
  DeletesColumns =
      (f colnum n : ℕ) (ttype : Text) (spec : Spec) (repeat : ℤ) (axes : List ℤ) (w : W)
      → let (status, _, w') = c.delete_col f colnum w in
        status ≡ 0
        → HoldsColumn f (before_deletion colnum (suc n)) ttype spec repeat axes w
        → (c.get_hdu_num f w' ≡ c.get_hdu_num f w) × HoldsColumn f (suc n) ttype spec repeat axes w'
