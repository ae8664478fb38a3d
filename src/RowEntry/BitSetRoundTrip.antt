-- ===== src/RowEntry/BitSetRoundTrip.antt =====
-- A row entry that writes a bit set to a bit column, and later reads the same row (Column<BitSet> in
-- misfits/row_entry.cc).
use misfits.Prelude.{ℕ, ◌*◌, ◌≡◌, refl, sym, ◌∙◌, arith, zero, suc, drop, List, [], ◌∷◌, length}
use misfits.Prelude.Int.{ℤ, pos, to_size}
use misfits.Cfitsio.{Cfitsio}
use misfits.Cfitsio.Laws.{ReadsBack, AreOf}
use misfits.Exception.{ok, ◌>>=◌}
use misfits.Types.{bit}
use misfits.Store.{check, fptr}
use misfits.BitSet.{copy_in, copy_out}
use misfits.BitSet.Reverse.{AllBytes, length-copy_out, copy_in-copy_out}
use misfits.RowEntry.Columns.{written_over}
use mathlib.Core.List.{append-nil}
use mathlib.Core.Path.{subst}
use misfits.Table.Cells.{read_col, write_col}
use misfits.RowEntry.{Place, Session, ColumnEntry, load_at}
use misfits.RowEntry.BitSetColumn.{DynamicBitset, BitSetColumn, bitset_entry, take_bits, at_start}

drop_all : (n : ℕ) (xs : List ℕ) → length xs ≡ n → drop n xs ≡ []
drop_all zero [] h = refl
drop_all zero (x ∷ xs) h = absurd (omega arith)
drop_all (suc n) [] h = refl
drop_all (suc n) (x ∷ xs) h = drop_all n xs (omega arith)

module _ {B : Type 0} (bits : DynamicBitset B) where
  -- What boost documents of to_block_range and from_block_range, at one bit set: there are num_blocks() blocks, each of them
  -- a byte, and a bit set with as many blocks that reads them, and is then cut to the size, is the first bit set.
  abbrev pub RestoresBlocks : B → Type 0
  RestoresBlocks b =
      (length (bits.blocks b) ≡ bits.num_blocks b)
      × AllBytes (bits.blocks b)
      × ((x : B)
          → bits.resize (bits.size b)
              (bits.from_blocks (bits.blocks b) (bits.resize (bits.num_blocks b * 8) x))
            ≡ b)

  -- The buffer holds the reversed bytes of a bit set of the column's size; what `read` makes of them.
  take_bits_lem :
      (col : BitSetColumn) (old : List ℕ) (b x : B)
      → RestoresBlocks b
      → length old ≡ bits.num_blocks b
      → col.max_bits ≡ bits.num_blocks b * 8
      → to_size col.base.nelem ≡ bits.size b
      → take_bits bits col (copy_out (bits.blocks b) (at_start old)).buffer x ≡ b
  unfolding take_bits
  take_bits_lem col old b x h room full size =
      let blocks = bits.blocks b in
      let it = at_start old in
      let count : length (copy_out blocks it).buffer ≡ length blocks =
        length-copy_out blocks it ∙ room ∙ sym h.0 in
      let back = copy_in-copy_out blocks it h.1 (omega (arith, room, h.0)) in
      let filled = (copy_out blocks it).buffer in
      let read_back : copy_in (length filled) (at_start filled) ≡ blocks =
        subst (λ n. copy_in n (at_start filled) ≡ blocks) (sym count) back in
      ground (arith, read_back, h.2 x)

written_over-all :
    (values old : List ℕ) → length old ≡ length values → written_over values old ≡ values
written_over-all values old e = rw (drop_all (length values) old e) (append-nil values)

module _ {W M B : Type 0} (bits : DynamicBitset B) ⦃c : Cfitsio W⦄ where
  -- If CFITSIO reads back the bytes that it has written to the column of bits, and the blocks of bit sets are as boost
  -- documents them, then the bit set that an entry of a bit column has written comes back from it, whatever bit set is
  -- there meanwhile, if the bit set that is written has the size of the column, which is what the members of the entry
  -- were set for, and nothing but the entry changes the length of its buffer.
  pub bitset_entry_roundtrip :
      (col : BitSetColumn) (base : Place M B) (buffer : Place M (List ℕ)) (table : ℕ) (row : ℤ)
      (s : Session W M) (later : M)
      → let b = load_at base s in
        let entry : ColumnEntry W M = bitset_entry bits col base buffer in
        let (r, s') = entry.write table row s in
        let (r₂, s₂) = entry.read table row (record s' { memory = later }) in
        let filled = (copy_out (bits.blocks b) (at_start (load_at buffer s))).buffer in
        ReadsBack c (fptr (s.store.hdus table).file s.store) col.base.colnum bit
        → AreOf 11 filled
        → RestoresBlocks bits b
        → ((v : List ℕ) (m : M) → buffer.load (buffer.save v m) ≡ v)
        → col.base.id ≡ bit
        → col.base.natomic ≡ pos (bits.num_blocks b)
        → col.max_bits ≡ bits.num_blocks b * 8
        → to_size col.base.nelem ≡ bits.size b
        → length (load_at buffer s) ≡ bits.num_blocks b
        → length (buffer.load later) ≡ bits.num_blocks b
        → r ≡ ok tt
        → (r₂ ≡ ok tt) × (s₂.memory ≡ base.save b (buffer.save filled later))
  unfolding bitset_entry read_col write_col check ◌>>=◌
  bitset_entry_roundtrip col base buffer table row s later reads are blocks place id natomic full
        size room room₂ h =
      let b = load_at base s in
      let old = load_at buffer s in
      let filled = (copy_out (bits.blocks b) (at_start old)).buffer in
      let count : length (buffer.load later) ≡ length filled =
        room₂ ∙ sym room ∙ sym (length-copy_out (bits.blocks b) (at_start old)) in
      ground (
        arith,
        place filled s.memory,
        count,
        written_over-all filled (buffer.load later) count,
        take_bits_lem bits col old b (base.load (buffer.save filled later)) blocks room full size,
        reads 11 row 1 (pos (bits.num_blocks b)) filled s.store.world,
      )
