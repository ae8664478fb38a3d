-- ===== src/ColumnInfo/Bytes.antt =====
-- The two ways in which the size of a cell is computed: from the header (ColumnInfo::init in misfits/columninfo.cc)
-- and from a description (Spec::width in misfits/types.cc, used by the constructor of ColumnInfo).
use misfits.Prelude.{ℕ, ◌*◌, ◌^◌, ◌<◌, ◌≡◌, arith, [], ◌∷◌, true, inl, inr}
use misfits.Prelude.Int.{ℤ, pos, to_size, signed64}
use misfits.Prelude.Text.{Text}
use misfits.Extent.{Extent, nelem}
use misfits.Exception.{ok, bind_result, Result-cases}
use misfits.Types.{Spec, is_string, spec_code, width, bit_width, spec_from_id}
use misfits.Store.{ColumnInfo}
use misfits.ColumnInfo.{cell_bytes, column_described}

module _ (binary_tformll : Text → ℕ × ℤ) where
  product_below : (n w : ℕ) → n < 2 ^ 31 → w < 2 ^ 31 → n * w < 2 ^ 62
  product_below n w small narrow = grind arith

  width-cell_bytes :
      (spec : Spec) (extent : Extent) (n w : ℕ)
      → nelem extent ≡ pos n
      → binary_tformll (spec_code spec ∷ []) ≡ (0, pos w)
      → (is_string spec ≡ true → w ≡ 1)
      → n < 2 ^ 31
      → w < 2 ^ 31
      → bind_result
          (width binary_tformll spec (to_size (nelem extent)))
          (λ bytes. ok (signed64 bytes))
        ≡ ok (cell_bytes spec extent (pos w))
  unfolding width cell_bytes bit_width
  width-cell_bytes spec extent n w count one string small narrow =
      ground (arith, product_below n w small narrow)

  -- A column that is described for insertion has the size that `init` computes for it from the header: for a cell of n
  -- elements, where CFITSIO reports w bytes for one element of the type, which is one byte for strings, and n and w are
  -- below 2 ^ 31.
  pub column_described-cell_bytes :
      (type : Text) (id : ℤ) (unit : Text) (extent : Extent) (colnum : ℕ) (ci : ColumnInfo)
      (n w : ℕ)
      → column_described binary_tformll type id unit extent colnum ≡ ok ci
      → nelem extent ≡ pos n
      → binary_tformll (spec_code ci.column_type ∷ []) ≡ (0, pos w)
      → (is_string ci.column_type ≡ true → w ≡ 1)
      → n < 2 ^ 31
      → w < 2 ^ 31
      → ci.nbytes ≡ cell_bytes ci.column_type extent (pos w)
  unfolding column_described
  column_described-cell_bytes type id unit extent colnum ci n w h count one string small narrow =
      elim (Result-cases (spec_from_id id)) [
        | inl (spec, e) ↦ ground (arith, width-cell_bytes spec extent n w count)
        | inr (x, e) ↦ absurd (ground arith)
      ]
