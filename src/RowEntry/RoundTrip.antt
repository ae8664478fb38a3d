-- ===== src/RowEntry/RoundTrip.antt =====
-- A row entry that writes values, and later reads the same row (Column<T> and ColumnVector in
-- misfits/row_entry.hpp).
use misfits.Prelude.{
  ℕ, ◌≡◌, refl, arith, List, [], ◌∷◌, map, ap, length, take, Bool, true, false, ◌==◌,
}
use misfits.Prelude.Int.{ℤ, pos, ◌<ℤ?◌, to_size}
use misfits.Cfitsio.{Cfitsio}
use misfits.Cfitsio.Laws.{ReadsBack, AreOf, takes}
use misfits.Exception.{ok, ◌>>=◌}
use misfits.Types.{Native, storage_code}
use misfits.Store.{check, fptr}
use misfits.Table.Cells.{read_col, write_col}
use misfits.RowEntry.{Place, Session, ColumnBase, ColumnEntry, load_at}
use misfits.RowEntry.Columns.{values_entry, written_over, to_bool, of_bool}

pub map_bools : (bs : List Bool) → map to_bool (map of_bool bs) ≡ bs
map_bools [] = refl
map_bools (true ∷ bs) = ap (λ t. true ∷ t) (map_bools bs)
map_bools (false ∷ bs) = ap (λ t. false ∷ t) (map_bools bs)

module _ {W M : Type 0} ⦃c : Cfitsio W⦄ where
  -- If CFITSIO reads back from the column what it has written to it without a conversion, and the type T is one that
  -- the column's type takes without one, then the values of T that an entry has written to a row come back from it,
  -- into memory that may hold anything meanwhile, is not empty and has room for them: the first elements of the
  -- variable are the values, and the others stay.
  pub values_entry_roundtrip :
      (T : Native) (col : ColumnBase) (base : Place M (List ℕ)) (table : ℕ) (row : ℤ)
      (s : Session W M) (later : M)
      → ReadsBack c (fptr (s.store.hdus table).file s.store) col.colnum col.id
      → takes col.id (storage_code T) ≡ true
      → AreOf (storage_code T) (take (to_size col.natomic) (load_at base s))
      → let entry : ColumnEntry W M = values_entry T col base in
        let (r, s') = entry.write table row s in
        let (r₂, s₂) = entry.read table row (record s' { memory = later }) in
        let values = take (to_size col.natomic) (load_at base s) in
        r ≡ ok tt
        → (length (base.load later) == 0) ≡ false
        → (pos (length (base.load later)) <ℤ? col.natomic) ≡ false
        → (r₂ ≡ ok tt) × (s₂.memory ≡ base.save (written_over values (base.load later)) later)
  unfolding values_entry read_col write_col check ◌>>=◌
  values_entry_roundtrip T col base table row s later reads takes are h some_there room = ground (
    arith,
    reads (storage_code T) row 1 col.natomic (take (to_size col.natomic) (load_at base s))
        s.store.world,
  )
