-- ===== src/Tests/Bits.antt =====
-- Row entries of bit sets.
use misfits.Prelude.{
  ℕ, ◌+◌, ◌-◌, ◌*◌, ◌/◌, ◌%◌, ◌^◌, ◌≡◌, ◌==◌, refl, arith, Bool, List, [], ◌∷◌, length, get_or, set,
  if◌then◌else◌,
}
use misfits.Prelude.Int.{pos}
use misfits.Exception.{ok, throw, undefined, ◌>>=◌}
use misfits.Types.{Spec}
use misfits.Store.{check}
use misfits.BitSet.{copy_out, put, reverse_bits}
use misfits.Table.Cells.{write_col}
use misfits.RowEntry.{Place, Session, ColumnEntry}
use misfits.RowEntry.Columns.{resized}
use misfits.RowEntry.BitSetColumn.{DynamicBitset, BitSetColumn, bitset_entry}
use misfits.RowEntry.BitSetRoundTrip.{RestoresBlocks, bitset_entry_roundtrip}
use misfits.Cfitsio.Laws.{AreOf}
use misfits.Tests.Sim.{Sim, sim, start, sim-ReadsBack}

-- A bit set as its number of bits and its blocks
record Bits : Type 0 where
  bits : ℕ
  bytes : List ℕ

abbrev block_bit : ℕ → ℕ → Bool
block_bit byte i = (byte / 2 ^ i % 2) == 1

abbrev bits_ops : DynamicBitset Bits
bits_ops = record {
  size = λ b. b.bits;
  resize = λ n b. record { bits = n; bytes = resized ((n + 7) / 8) 0 b.bytes };
  num_blocks = λ b. length b.bytes;
  blocks = λ b. b.bytes;
  from_blocks = λ bytes b. record b { bytes = bytes };
  test = λ b i. block_bit (get_or b.bytes (i / 8) 0) (i % 8);
  assign = λ b i v.
      let byte = get_or b.bytes (i / 8) 0 in
      let without = byte - byte / 2 ^ (i % 8) % 2 * 2 ^ (i % 8) in
      record b { bytes = set b.bytes (i / 8) (if v then without + 2 ^ (i % 8) else without) };
}

record BitMemory : Type 0 where
  flags : Bits
  buffer : List ℕ

abbrev flags_at : Place BitMemory Bits
flags_at = record { load = λ m. m.flags; save = λ v m. record m { flags = v } }

abbrev buffer_at : Place BitMemory (List ℕ)
buffer_at = record { load = λ m. m.buffer; save = λ v m. record m { buffer = v } }

-- A column of twelve bits, which take two bytes
abbrev twelve_bits : BitSetColumn
twelve_bits = record {
  base = record { colnum = 4; nelem = pos 12; natomic = pos 2; id = Spec.bit };
  max_bits = 16;
}

abbrev pattern_bits : Bits
pattern_bits = record { bits = 12; bytes = 0xA1 ∷ 0x03 ∷ [] }

abbrev session : Session Sim BitMemory
session = record { store = start; memory = record { flags = pattern_bits; buffer = 0 ∷ 0 ∷ [] } }

abbrev later : BitMemory
later = record { flags = record { bits = 0; bytes = [] }; buffer = 9 ∷ 9 ∷ [] }

pattern_restored : RestoresBlocks bits_ops pattern_bits
pattern_restored = (refl, (omega arith, (omega arith, tt)), λ x. refl)

bits_written :
    ((bitset_entry bits_ops ⦃c = sim⦄ twelve_bits flags_at buffer_at).write 1 (pos 2) session).0
    ≡ ok tt
unfolding bitset_entry write_col copy_out put check ◌>>=◌
bits_written = refl

two_bytes : AreOf 11 (0x85 ∷ 0xC0 ∷ [])
two_bytes = (omega arith, (omega arith, tt))

bitset_entry_roundtrip_example :
    let entry : ColumnEntry Sim BitMemory =
      bitset_entry bits_ops ⦃c = sim⦄ twelve_bits flags_at buffer_at in
    let s' = (entry.write 1 (pos 2) session).1 in
    let (r, s₂) = entry.read 1 (pos 2) (record s' { memory = later }) in
    (r ≡ ok tt) × (s₂.memory ≡ record { flags = pattern_bits; buffer = 0x85 ∷ 0xC0 ∷ [] })
unfolding copy_out put reverse_bits
bitset_entry_roundtrip_example =
    bitset_entry_roundtrip bits_ops ⦃c = sim⦄ twelve_bits flags_at buffer_at 1 (pos 2) session later
      (sim-ReadsBack 9 4 Spec.bit) two_bytes pattern_restored (λ v m. refl) refl refl refl refl refl
      refl bits_written

-- A bit set that the program has made larger does not fit into the buffer.
abbrev larger : Session Sim BitMemory
larger = record session {
  memory = record { flags = record { bits = 24; bytes = 1 ∷ 2 ∷ 3 ∷ [] }; buffer = 0 ∷ 0 ∷ [] };
}

larger_overruns :
    ((bitset_entry bits_ops ⦃c = sim⦄ twelve_bits flags_at buffer_at).write 1 (pos 2) larger).0
    ≡ throw undefined
unfolding bitset_entry write_col check ◌>>=◌
larger_overruns = refl
