-- ===== src/Tests/Strings.antt =====
-- Row entries of strings.
use misfits.Prelude.{◌≡◌, refl, arith, List, [], ◌∷◌}
use misfits.Prelude.Int.{pos}
use misfits.Prelude.Text.{Text, text}
use misfits.Exception.{ok, ◌>>=◌}
use misfits.Types.{Spec}
use misfits.Store.{ColumnInfo, check}
use misfits.Table.Cells.{write_bytes}
use misfits.RowEntry.{Place, Session, ColumnEntry}
use misfits.RowEntry.Columns.{strings_entry, string_column, string_column_vector}
use misfits.RowEntry.Built.{IsUsable, string_columns-IsUsable}
use misfits.Exception.Gives.{Gives}
use misfits.Extent.{nelem}
use misfits.RowEntry.StringRoundTrip.{strings_entry_roundtrip}
use misfits.Tests.Sim.{Sim, sim, start, sim-ReadsBackBytes}

-- The memory of the program: two variables
record Labels : Type 0 where
  names : List Text
  label : Text

abbrev names_at : Place Labels (List Text)
names_at = record { load = λ m. m.names; save = λ v m. record m { names = v } }

abbrev label_at : Place Labels Text
label_at = record { load = λ m. m.label; save = λ v m. record m { label = v } }

-- A column of twelve characters, in strings of three
abbrev twelve_bytes : ColumnInfo
twelve_bytes = record {
  ttype = text "NAMES";
  tunit = [];
  column_type = Spec.string;
  offset = pos 5;
  nbytes = pos 12;
  extent = pos 3 ∷ pos 4 ∷ [];
  colnum = 3;
}

abbrev labels : Labels
labels = record { names = text "AB" ∷ text "CDE" ∷ text "FGHIJ" ∷ []; label = text "M31" }

abbrev session : Session Sim Labels
session = record { store = start; memory = labels }

abbrev later : Labels
later = record { names = [] ∷ text "X" ∷ [] ∷ []; label = text "M33" }

strings_written :
    ((strings_entry ⦃c = sim⦄ twelve_bytes 3 names_at).write 1 (pos 2) session).0 ≡ ok tt
unfolding strings_entry write_bytes check ◌>>=◌
strings_written = refl

strings_entry_roundtrip_example :
    let entry : ColumnEntry Sim Labels = strings_entry ⦃c = sim⦄ twelve_bytes 3 names_at in
    let s' = (entry.write 1 (pos 2) session).1 in
    let (r, s₂) = entry.read 1 (pos 2) (record s' { memory = later }) in
    (r ≡ ok tt) × (s₂.memory ≡ record later { names = text "AB" ∷ text "CDE" ∷ text "FGH" ∷ [] })
strings_entry_roundtrip_example =
    strings_entry_roundtrip ⦃c = sim⦄ sim-ReadsBackBytes twelve_bytes 3 names_at 1 (pos 2) session
      later strings_written (ground arith) refl

cell_size : pos 12 ≡ nelem (pos 3 ∷ pos 4 ∷ [])
unfolding nelem
cell_size = refl

string_columns-IsUsable_example :
    Gives (IsUsable {W = Sim}) (string_column ⦃c = sim⦄ twelve_bytes label_at session)
    × Gives (IsUsable {W = Sim}) (string_column_vector ⦃c = sim⦄ twelve_bytes names_at session)
string_columns-IsUsable_example =
    string_columns-IsUsable ⦃c = sim⦄ twelve_bytes label_at names_at session (λ v m. refl) cell_size
      refl
