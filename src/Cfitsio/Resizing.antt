-- ===== src/Cfitsio/Resizing.antt =====
-- What the documentation of CFITSIO says of columns that get another number of elements, and of their TDIM keywords.
use misfits.Prelude.{ℕ, ◌≡◌, true, List, [], ◌∷◌, ◌++◌, map, some}
use misfits.Prelude.Int.{pos}
use misfits.Prelude.Text.{Text, text, show_nat}
use misfits.Types.{Spec, spec_id}
use misfits.Extent.Nelem.{product}
use misfits.Extent.Print.{parse_axes}
use misfits.Cfitsio.{Cfitsio, key_no_exist, binary_table}
use misfits.Cfitsio.Laws.{fits_card}
use misfits.Cfitsio.Columns.{Leaves, Reading, Shows}

-- The keyword with the axes of the column that has the number
abbrev pub tdim_key : ℕ → Text
tdim_key colnum = text "TDIM" ++ show_nat colnum

module _ {W : Type 0} (c : Cfitsio W) where
  -- The current HDU of f has the number hdu_num, and its column with the number has the name, the type and so many elements,
  -- whatever its TDIM keyword says.
  unfoldable pub HasElements : ℕ → ℕ → ℕ → Text → Spec → ℕ → W → Type 0
  HasElements f hdu_num colnum ttype spec count w =
      let (s₁, kind, w₁) = c.get_hdu_type f w in
      let (s₂, (name, unit), w₂) = c.get_bcolparmsll f colnum w₁ in
      let (s₃, (code, repeat, width), _) = c.get_coltypell f colnum w₂ in
      (c.get_hdu_num f w ≡ hdu_num)
      × ((s₁ ≡ 0) × (kind ≡ binary_table))
      × ((s₂ ≡ 0) × (name ≡ ttype))
      × ((s₃ ≡ 0) × (code ≡ spec_id spec) × (repeat ≡ pos count))

  -- fits_modify_vector_len, when it succeeds, gives a column another number of elements. With no TDIM keyword, and
  -- when one has been deleted, the column has one axis; when the keyword has been given a value that lists axes with
  -- so many elements, it has those. Looking for a keyword, and reading the HDU, leave the column.
  pub record ResizesColumns : Type 0 where
    pub reading :
        (f hdu_num colnum : ℕ) (ttype : Text) (spec : Spec) (count : ℕ)
        → Reading c (HasElements f hdu_num colnum ttype spec count) hdu_num
    pub looks :
        (f hdu_num colnum : ℕ) (ttype : Text) (spec : Spec) (count : ℕ) (key : Text)
        → Leaves (HasElements f hdu_num colnum ttype spec count) (c.read_card f key)
    pub warns :
        (f hdu_num colnum : ℕ) (ttype : Text) (spec : Spec) (count : ℕ)
        → Leaves (HasElements f hdu_num colnum ttype spec count) (c.write_key_longwarn f)
    pub modifies :
        (f hdu_num colnum : ℕ) (ttype : Text) (spec : Spec) (old count : ℕ) (w : W)
        → let (status, _, w') = c.modify_vector_len f colnum (pos count) w in
          status ≡ 0
          → HasElements f hdu_num colnum ttype spec old w
          → HasElements f hdu_num colnum ttype spec count w'
    pub absent :
        (f hdu_num colnum : ℕ) (ttype : Text) (spec : Spec) (count : ℕ) (w : W)
        → let (status, _, w') = c.read_card f (tdim_key colnum) w in
          status ≡ key_no_exist
          → HasElements f hdu_num colnum ttype spec count w
          → Shows c f hdu_num colnum ttype spec (pos count) (pos count ∷ []) w'
    pub deletes :
        (f hdu_num colnum : ℕ) (ttype : Text) (spec : Spec) (count : ℕ) (w : W)
        → let (status, _, w') = c.delete_key f (tdim_key colnum) w in
          status ≡ 0
          → HasElements f hdu_num colnum ttype spec count w
          → Shows c f hdu_num colnum ttype spec (pos count) (pos count ∷ []) w'
    pub one_card :
        (f hdu_num colnum : ℕ) (ttype : Text) (spec : Spec) (ns : List ℕ) (value comment : Text)
        (w : W)
        → let (status, _, w') = c.update_key_str f (tdim_key colnum) value comment w in
          status ≡ 0
          → fits_card value ≡ true
          → parse_axes value ≡ some ns
          → HasElements f hdu_num colnum ttype spec (product ns) w
          → Shows c f hdu_num colnum ttype spec (pos (product ns)) (map pos ns) w'
    pub long :
        (f hdu_num colnum : ℕ) (ttype : Text) (spec : Spec) (ns : List ℕ) (value comment : Text)
        (w : W)
        → let (status, _, w') = c.update_key_longstr f (tdim_key colnum) value comment w in
          status ≡ 0
          → parse_axes value ≡ some ns
          → HasElements f hdu_num colnum ttype spec (product ns) w
          → Shows c f hdu_num colnum ttype spec (pos (product ns)) (map pos ns) w'
