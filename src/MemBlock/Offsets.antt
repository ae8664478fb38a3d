-- ===== src/MemBlock/Offsets.antt =====
-- Blocks within blocks (MemBlock::add in misfits/memblock.cc, Row::add in misfits/row.hpp).
use misfits.Prelude.{◌≡◌, refl, ap, sym, ◌∙◌, List, [], ◌∷◌, ◌++◌}
use mathlib.Core.Path.{fun_ext, ap₂}
use misfits.Prelude.Int.{ℤ, ◌+ℤ◌, ◌-ℤ◌, +ℤ_assoc, +ℤ_comm, +ℤ-cancel}
use misfits.Prelude.Text.{Text}
use misfits.Cfitsio.{Cfitsio}
use misfits.Exception.{◌>>◌, pure-bind, bind-pure_unit, bind_assoc}
use misfits.Store.{ColumnInfo}
use misfits.MemBlock.{
  MemEntry, MemBlock, MakeColumn, entry_column, moved_entries, add_block, add_entry, add_address,
}
use misfits.Row
use misfits.Row.{RowState, add_entries}

module _ {W M : Type 0} where
  entry_column-moved :
      (entry : MemEntry W M) (offset base : ℤ) (ci : ColumnInfo)
      → entry_column (record entry { offset = entry.offset +ℤ offset }) ci base
        ≡ entry_column entry ci (base +ℤ offset)
  unfolding entry_column
  entry_column-moved entry offset base ci =
      ap (entry.make ci) (
        ap (λ z. base +ℤ z) (+ℤ_comm entry.offset offset) ∙ sym (+ℤ_assoc base offset entry.offset))

module _ {W M : Type 0} ⦃c : Cfitsio W⦄ where
  add_entries-moved :
      (offset base : ℤ) (entries : List (MemEntry W M))
      → add_entries base (moved_entries offset entries) ≡ add_entries (base +ℤ offset) entries
  unfolding add_entries moved_entries
  add_entries-moved offset base [] = refl
  add_entries-moved offset base (entry ∷ entries) =
      ap₂ (λ make rest. Row.add entry.name make >> rest)
        (fun_ext (entry_column-moved entry offset base)) (add_entries-moved offset base entries)

  add_entries-append :
      (base : ℤ) (xs ys : List (MemEntry W M))
      → add_entries base (xs ++ ys) ≡ (add_entries base xs >> add_entries base ys)
  unfolding add_entries
  add_entries-append base [] ys = sym (pure-bind tt (λ _. add_entries base ys))
  add_entries-append base (x ∷ xs) ys =
      let first = Row.add x.name (λ ci. entry_column x ci base) in
      ap (λ rest. first >> rest) (add_entries-append base xs ys) ∙ sym (bind_assoc first _ _)

  -- Adding to a row a block that has another one built in at an offset does what adding the block itself does, and then
  -- adding the other one at the address moved by the offset: the same columns, in the same order, bound to the same
  -- addresses, and the same exceptions.
  pub add_block-nested :
      (base offset : ℤ) (block self : MemBlock W M)
      → Row.add_block base (add_block offset block self)
        ≡ (Row.add_block base self >> Row.add_block (base +ℤ offset) block)
  unfolding Row.add_block add_block
  add_block-nested base offset block self =
      add_entries-append base self.entries (moved_entries offset block.entries)
      ∙ ap (λ m. add_entries base self.entries >> m) (add_entries-moved offset base block.entries)

  -- An entry that is added by the address of a value, to a block at `base`, is bound to that address when a row takes
  -- the block in at `base`; it comes after the block's other entries.
  pub add_block-add_address :
      (base addr : ℤ) (name : Text) (make : MakeColumn W M) (self : MemBlock W M)
      → Row.add_block base (add_address base name addr make self)
        ≡ (Row.add_block base self >> Row.add name (λ ci. make ci addr))
  unfolding Row.add_block add_address add_entry
  add_block-add_address base addr name make self =
      let entry : MemEntry W M = record { name = name; offset = addr -ℤ base; make = make } in
      add_entries-append base self.entries (entry ∷ [])
      ∙ ap (λ m. add_entries base self.entries >> m)
          (add_one entry ∙ ap (Row.add name) (fun_ext at_addr))
    where
      at_addr : (ci : ColumnInfo) → make ci (base +ℤ (addr -ℤ base)) ≡ make ci addr
      at_addr ci = ap (make ci) (+ℤ-cancel base addr)

      add_one :
          (entry : MemEntry W M)
          → add_entries base (entry ∷ [])
            ≡ Row.add entry.name (λ ci. entry.make ci (base +ℤ entry.offset))
      add_one entry = unfold add_entries entry_column in bind-pure_unit _
