-- ===== src/RowEntry/BitSetColumn.antt =====
-- Column<BitSet> (misfits/row_entry.cc, misfits/row_entry.hpp). A BitSet is a boost::dynamic_bitset of bytes, which is
-- not in the repository: its operations are a record, of which nothing is assumed here.
use misfits.Prelude.{◌==◌, ℕ, zero, suc, ◌+◌, ◌*◌, Bool, List, [], ◌∷◌, ltb, length}
use misfits.Prelude.Int.{pos, ◌<ℤ?◌, to_size}
use misfits.Prelude.Text.{text}
use misfits.Cfitsio.{Cfitsio}
use misfits.Exception.{assert, undefined, Action, pure, raise, gets, modify, ◌>>=◌, ◌>>◌, throw_if}
use misfits.Types.{Spec, bit, logical}
use misfits.Store.{ColumnInfo}
use misfits.BitSet.{ByteIterator, copy_in, copy_out}
use misfits.Table.Cells.{read_col, write_col}
use misfits.RowEntry.{
  Place, Session, on_store, save_at, load_at, ColumnEntry, ColumnBase, column_base,
}
use misfits.RowEntry.Columns.{resized, written_over, to_bool, of_bool}

-- boost::dynamic_bitset<byte_t>: `size`, `resize`, `num_blocks`, the blocks that to_block_range writes, the bit set
-- after from_block_range has read blocks, and the two uses of operator [].
pub record DynamicBitset (B : Type 0) : Type 0 where
  pub size : B → ℕ
  pub resize : ℕ → B → B
  pub num_blocks : B → ℕ
  pub blocks : B → List ℕ
  pub from_blocks : List ℕ → B → B
  pub test : B → ℕ → Bool
  pub assign : B → ℕ → Bool → B

-- The members `natomic_` and `max_bits_`, beside those of the base
pub record BitSetColumn : Type 0 where
  pub base : ColumnBase
  pub max_bits : ℕ

-- What the entry does with the two column types that its constructor accepts
abbrev pub by_type : {A : Type 0} → Spec → A → A → A → A
by_type bit bits logicals neither = bits
by_type logical bits logicals neither = logicals
by_type _ bits logicals neither = neither

abbrev pub at_start : List ℕ → ByteIterator
at_start buffer = record { buffer = buffer; place = 0 }

module _ {B : Type 0} (bits : DynamicBitset B) where
  -- The loop of `read` for logical columns, from a bit on
  unfoldable pub assign_from : ℕ → List ℕ → B → B
  assign_from idx [] b = b
  assign_from idx (v ∷ buffer) b = assign_from (idx + 1) buffer (bits.assign b idx (to_bool v))

  -- The loop of `write` for logical columns, for as many bits
  unfoldable pub test_from : ℕ → ℕ → B → List ℕ
  test_from zero idx b = []
  test_from (suc count) idx b = of_bool (bits.test b idx) ∷ test_from count (idx + 1) b

  -- `read`, once the buffer is filled. A bit behind the end of the bit set is not there to be assigned to.
  unfoldable pub take_bits : BitSetColumn → List ℕ → B → B
  take_bits col buffer b =
      let fresh = bits.resize col.max_bits b in
      bits.resize (to_size col.base.nelem)
        (bits.from_blocks (copy_in (length buffer) (at_start buffer)) fresh)

module _ {W M B : Type 0} (bits : DynamicBitset B) ⦃c : Cfitsio W⦄ where
  -- `buffer` is the place of the entry's buffer, which keeps its bytes between the calls; `&buffer[0]` is undefined
  -- where it is empty.
  unfoldable pub bitset_entry : BitSetColumn → Place M B → Place M (List ℕ) → ColumnEntry W M
  bitset_entry col base buffer = record {
    read = λ table firstrow. do
      old ← gets (load_at buffer)
      throw_if (length old == 0) undefined
      values ← on_store (read_col table 11 col.base.colnum firstrow 1 (pos (length old)))
      let filled = written_over values old
      modify (save_at buffer filled)
      b ← gets (load_at base)
      let assign_bools = do
        throw_if (pos (bits.size b) <ℤ? col.base.natomic) undefined
        modify (save_at base (assign_from bits 0 filled b))
      by_type col.base.id (modify (save_at base (take_bits bits col filled b))) assign_bools
          (raise (assert (text "internal error")));
    write = λ table firstrow. do
      b ← gets (load_at base)
      old ← gets (load_at buffer)
      let blocks_out = do
        throw_if (ltb (length old) (bits.num_blocks b)) undefined
        modify (save_at buffer (copy_out (bits.blocks b) (at_start old)).buffer)
      let bools_out = do
        throw_if (pos (bits.size b) <ℤ? col.base.natomic) undefined
        modify (save_at buffer (test_from bits (to_size col.base.natomic) 0 b))
      by_type col.base.id blocks_out bools_out (raise (assert (text "internal error")))
      filled ← gets (load_at buffer)
      throw_if (length filled == 0) undefined
      on_store (write_col table 11 col.base.colnum firstrow 1 col.base.natomic filled);
  }

  unfoldable pub bitset_column :
      ColumnInfo → Place M B → Place M (List ℕ) → Action (Session W M) (ColumnEntry W M)
  bitset_column info base buffer = do
    let col = column_base info
    old ← gets (load_at base)
    modify (save_at base (bits.resize (to_size col.nelem) old))
    b ← gets (load_at base)
    natomic ← by_type col.id (pure (pos (bits.num_blocks b))) (pure col.nelem) (
        raise (
          assert
            (text "can't only use a misFITS::BitSet object with BIT and LOGICAL FITS columns")))
    modify (save_at buffer (resized (to_size natomic) 0 []))
    let counted : ColumnBase = record col { natomic = natomic }
    pure (bitset_entry (record { base = counted; max_bits = to_size natomic * 8 }) base buffer)
