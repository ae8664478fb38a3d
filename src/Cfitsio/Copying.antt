-- ===== src/Cfitsio/Copying.antt =====
-- What the documentation of CFITSIO says of fits_copy_col, which copies the cells of a column.
use misfits.Prelude.{ℕ, ◌≡◌, ◌≢◌, false}
use misfits.Prelude.Text.{Text}
use misfits.Cfitsio.{Call, Cfitsio}
use misfits.Cfitsio.Columns.{Leaves}

-- The column with the number is the one that a name means, in the current HDU of the file f.
abbrev pub Names : {W : Type 0} → Cfitsio W → ℕ → Text → ℕ → W → Type 0
Names c f name n w = let (status, n', _) = c.get_colnum f false name w in (status ≡ 0) × (n' ≡ n)

module _ {W C : Type 0} (c : Cfitsio W) (content : ℕ → ℕ → W → C) where
  -- `content f n` is what the cells of the column n of the current HDU of the file f hold, and `Made k v v'` says that
  -- v' is what fits_copy_col may make of v in the column k of the second of two files f and g: it converts the values
  -- to the type of the column, and it copies as many rows as it finds. It leaves every other column, the names of the
  -- columns and the current HDU of the second. fits_get_colnum leaves all that too.
  pub record CopiesColumns (Made : ℕ → C → C → Type 0) (f g : ℕ) : Type 0 where
    pub copies :
        (n k : ℕ) (w : W)
        → let (status, _, w') = c.copy_col f g n k false w in
          status ≡ 0 → Made k (content f n w) (content g k w')
    pub spares :
        (n k : ℕ) (w : W)
        → let (status, _, w') = c.copy_col f g n k false w in
          status ≡ 0
          → ((j : ℕ) → content f j w' ≡ content f j w)
            × ((j : ℕ) → k ≢ j → content g j w' ≡ content g j w)
            × ((name : Text) (j : ℕ) → Names c g name j w → Names c g name j w')
            × (c.get_hdu_num g w' ≡ c.get_hdu_num g w)
    pub finds :
        (name : Text) (w : W)
        → let (_, _, w') = c.get_colnum g false name w in
          ((j : ℕ) → content f j w' ≡ content f j w)
          × ((j : ℕ) → content g j w' ≡ content g j w)
          × ((other : Text) (j : ℕ) → Names c g other j w → Names c g other j w')
          × (c.get_hdu_num g w' ≡ c.get_hdu_num g w)

  -- A routine that leaves what the columns of the file f hold, the names of the columns of f and g, and their current HDUs,
  -- whatever its status
  pub record Spares {A : Type 0} (f g : ℕ) (routine : Call W A) : Type 0 where
    pub source : (j : ℕ) (v : C) → Leaves (λ w. content f j w ≡ v) routine
    pub from : (name : Text) (j : ℕ) → Leaves (Names c f name j) routine
    pub to : (name : Text) (j : ℕ) → Leaves (Names c g name j) routine
    pub here : (n : ℕ) → Leaves (λ w. c.get_hdu_num f w ≡ n) routine
    pub there : (n : ℕ) → Leaves (λ w. c.get_hdu_num g w ≡ n) routine

  -- Finding a column, counting the rows, and reading keywords and the descriptions of columns do that in whatever file, and
  -- adding rows does in the file g, which is another than f.
  pub record SparesColumns (f g : ℕ) : Type 0 where
    pub finds : (h : ℕ) (name : Text) → Spares f g (c.get_colnum h false name)
    pub rows : (h : ℕ) → Spares f g (c.get_num_rowsll h)
    pub extends : (after count : ℕ) → Spares f g (c.insert_rows g after count)
    pub kind : (h : ℕ) → Spares f g (c.get_hdu_type h)
    pub counts : (h : ℕ) → Spares f g (c.get_num_cols h)
    pub string_lengths : (h : ℕ) (key : Text) → Spares f g (c.get_key_strlen h key)
    pub strings : (h : ℕ) (key : Text) (first n : ℕ) → Spares f g (c.read_string_key h key first n)
    pub keys : (h datatype : ℕ) (key : Text) → Spares f g (c.read_key h datatype key)
    pub parms : (h colnum : ℕ) → Spares f g (c.get_bcolparmsll h colnum)
    pub types : (h colnum : ℕ) → Spares f g (c.get_coltypell h colnum)
    pub dims : (h colnum n : ℕ) → Spares f g (c.read_tdimll h colnum n)
