-- ===== src/Tests/WholeRow.antt =====
-- A row of numbers, Boolean values and strings that is written and read again.
use misfits.Prelude.{
  ℕ, ◌*◌, ◌≡◌, ◌≢◌, refl, true, false, Bool, List, [], ◌∷◌, ◌==◌, ltb, ◌&&◌, if◌then◌else◌, Every,
  map, arith,
}
use misfits.Prelude.Int.{ℤ, pos, negsuc, ◌<ℤ?◌, ◌==ℤ◌, ==ℤ_refl}
use misfits.Prelude.Text.{Text, text}
use misfits.Cfitsio.{⊤, Call, Cfitsio}
use misfits.Cfitsio.Laws.{MovesTo, AreOf}
use misfits.Cfitsio.Cells.{Access, cells, bytes, put, get, IsOf, Holds, HasRow, StoresRows}
use misfits.Exception.{ok, ◌>>=◌}
use misfits.Types.{Spec, int, storage_code}
use misfits.Extent.{nelem}
use misfits.Store.{ColumnInfo, check}
use misfits.File.{move_to}
use misfits.Hdu.{set_as_chdu}
use misfits.Table.Cells.{write_col, write_bytes}
use misfits.RowEntry.{Place, column_base}
use misfits.RowEntry.Columns.{column_init, values_entry, bools_entry, string_entry, strings_entry}
use misfits.Row.{RowState, write, write_entries, read_at}
use misfits.Row.Bound.{Bound, numbers, bools, string, strings, entry_of}
use misfits.Row.Restore.{Restored}
use misfits.Row.RoundTrip.{IsBound, row_roundtrip}
use misfits.Tests.Sim.{Sim, sim, start, sim-MovesTo}

-- The rows there are once a row has been written
abbrev extended : ℤ → ℕ → ℕ
extended (pos k) rows = if ltb rows k then k else rows
extended (negsuc k) rows = rows

abbrev write_cells : ℕ → ℤ → List ℕ → Call Sim ⊤
write_cells colnum row values w = (
  0,
  tt,
  record w {
    rows = extended row w.rows;
    cells = λ k r. if (k == colnum) && (r ==ℤ row) then values else w.cells k r;
  },
)

abbrev write_part : ℤ → ℤ → List ℕ → Call Sim ⊤
write_part row offset values w = (
  0,
  tt,
  record w {
    rows = extended row w.rows;
    bytes = λ r o. if (r ==ℤ row) && (o ==ℤ offset) then values else w.bytes r o;
  },
)

-- A CFITSIO whose tables get the rows that are written to
abbrev row_sim : Cfitsio Sim
row_sim = record sim {
  write_col = λ f datatype colnum row first n. write_cells colnum row;
  write_tblbytes = λ f row offset n. write_part row offset;
}

-- Ten bytes of the row for each column
abbrev IsColumn : ColumnInfo → Type 0
IsColumn info = info.offset ≡ pos (info.colnum * 10)

extended_enough : (row : ℤ) (rows : ℕ) → (pos (extended row rows) <ℤ? row) ≡ false
extended_enough (pos k) rows = ground arith
extended_enough (negsuc k) rows = refl

get_still : (part : Access) (row : ℤ) (w : Sim) → (get row_sim part 9 row w).2 ≡ w
get_still (cells datatype colnum n) row w = refl
get_still (bytes offset n) row w = refl

put_Holds :
    (row : ℤ) (part : Access) (values : List ℕ) (w : Sim)
    → let w' = (put row_sim part 9 row values w).2 in
      Holds row_sim 9 row part values w' × HasRow row_sim 9 row w' × (w'.chdu ≡ w.chdu)
put_Holds row (cells datatype colnum n) values w =
    let self : (colnum == colnum) ≡ true = ground arith in
    ((refl, rw (self, ==ℤ_refl row) refl), (refl, extended_enough row w.rows), refl)
put_Holds row (bytes offset n) values w =
    ((refl, rw (==ℤ_refl row, ==ℤ_refl offset) refl), (refl, extended_enough row w.rows), refl)

-- Two columns have their bytes at different offsets.
offsets_apart :
    (info other : ColumnInfo)
    → IsColumn info
    → IsColumn other
    → info.colnum ≢ other.colnum
    → (other.offset ==ℤ info.offset) ≡ false
offsets_apart info other here there far = rw (here, there) (ground arith)

put_apart :
    (row : ℤ) (part other : Access) (info other_info : ColumnInfo) (values kept : List ℕ) (w : Sim)
    → IsColumn info
    → IsColumn other_info
    → IsOf info part
    → IsOf other_info other
    → info.colnum ≢ other_info.colnum
    → Holds row_sim 9 row other kept w
    → Holds row_sim 9 row other kept (put row_sim part 9 row values w).2
put_apart row (cells d n k) (cells d' n' k') info info' values kept w col col' of of' far h =
    let other : (n' == n) ≡ false = ground arith in (refl, rw other h.1)
put_apart row (cells d n k) (bytes o' k') info info' values kept w col col' of of' far h = h
put_apart row (bytes o k) (cells d' n' k') info info' values kept w col col' of of' far h = h
put_apart row (bytes o k) (bytes o' k') info info' values kept w col col' of of' far h =
    let other : (o' ==ℤ o) ≡ false = rw (of.0, of'.0) (offsets_apart info info' col col' far) in
    (refl, rw (==ℤ_refl row, other) h.1)

row_sim-StoresRows : StoresRows row_sim 9 IsColumn
row_sim-StoresRows = record {
  puts = λ row part info values w col of taken ends. put_Holds row part values w;
  puts_apart = λ row part other info info' values kept w col col' of of' far h.
      put_apart row part other info info' values kept w col col' of of' far;
  gets = λ row part other kept w h. rw (get_still part row w) h;
  counts = λ row other kept w h. h;
}

-- The memory of the program: an array of counts, a vector of flags, a name and a vector of words
record Memory : Type 0 where
  counts : List ℕ
  flags : List Bool
  name : Text
  words : List Text

abbrev counts_at : Place Memory (List ℕ)
counts_at = record { load = λ m. m.counts; save = λ v m. record m { counts = v } }

abbrev flags_at : Place Memory (List Bool)
flags_at = record { load = λ m. m.flags; save = λ v m. record m { flags = v } }

abbrev name_at : Place Memory Text
name_at = record { load = λ m. m.name; save = λ v m. record m { name = v } }

abbrev words_at : Place Memory (List Text)
words_at = record { load = λ m. m.words; save = λ v m. record m { words = v } }

abbrev column : ℕ → Spec → ℤ → List ℤ → ColumnInfo
column colnum spec nbytes extent = record {
  ttype = [];
  tunit = [];
  column_type = spec;
  offset = pos (colnum * 10);
  nbytes = nbytes;
  extent = extent;
  colnum = colnum;
}

abbrev bound : List (Bound Memory)
bound =
    numbers int (column 1 Spec.long (pos 8) (pos 2 ∷ [])) counts_at
    ∷ bools (column 2 Spec.logical (pos 2) (pos 2 ∷ [])) flags_at
    ∷ string (column 3 Spec.string (pos 4) (pos 4 ∷ [])) name_at
    ∷ strings (column 4 Spec.string (pos 6) (pos 3 ∷ pos 2 ∷ [])) words_at
    ∷ []

abbrev written : RowState Sim Memory
written = record {
  session = record {
    store = start;
    memory = record {
      counts = 5 ∷ 6 ∷ 7 ∷ [];
      flags = true ∷ false ∷ [];
      name = text "GRB";
      words = text "on" ∷ text "offs" ∷ [];
    };
  };
  row = record {
    table = 1;
    idx = pos 4;
    auto_advance = true;
    entries = map (entry_of ⦃c = row_sim⦄) bound;
  };
}

abbrev later : Memory
later = record {
  counts = 0 ∷ 0 ∷ 9 ∷ [];
  flags = false ∷ false ∷ true ∷ [];
  name = [];
  words = [] ∷ [] ∷ [];
}

row_sim-MovesTo : MovesTo row_sim
row_sim-MovesTo f n w h = sim-MovesTo f n w h

two_numbers : AreOf 31 (5 ∷ 6 ∷ [])
two_numbers = (omega arith, (omega arith, tt))

bound-IsBound : IsBound ⦃c = row_sim⦄ IsColumn written bound
unfolding storage_code column_init
bound-IsBound = record {
  entries = refl;
  columns = ((refl, (refl, two_numbers)), ((refl, refl), ((refl, tt), ((refl, tt), tt))));
  apart = (
    (
      (((λ e. absurd (omega arith)), (λ v m. refl), (λ v m. refl))),
      (
        (((λ e. absurd (omega arith)), (λ v m. refl), (λ v m. refl))),
        ((((λ e. absurd (omega arith)), (λ v m. refl), (λ v m. refl))), tt),
      ),
    ),
    (
      (
        (((λ e. absurd (omega arith)), (λ v m. refl), (λ v m. refl))),
        ((((λ e. absurd (omega arith)), (λ v m. refl), (λ v m. refl))), tt),
      ),
      (((((λ e. absurd (omega arith)), (λ v m. refl), (λ v m. refl))), tt), (tt, tt)),
    ),
  );
  places = ((λ v m. refl), ((λ v m. refl), ((λ v m. refl), ((λ v m. refl), tt))));
}

row_written : (write ⦃c = row_sim⦄ written).0 ≡ ok tt
unfolding write write_entries values_entry bools_entry string_entry strings_entry column_init
    column_base write_col write_bytes set_as_chdu move_to check ◌>>=◌
row_written = refl

row_roundtrip_example :
    let (r, s') = write ⦃c = row_sim⦄ written in
    let (r₂, s₂) =
      read_at ⦃c = row_sim⦄
        (pos 4)
        (record s' { session = record s'.session { memory = later } }) in
    (r₂ ≡ ok true) × Every (λ b. Restored b written.session.memory s₂.session.memory) bound
unfolding column_init column_base nelem
row_roundtrip_example =
    row_roundtrip ⦃c = row_sim⦄ written bound row_sim-StoresRows row_sim-MovesTo later bound-IsBound
      (
        tt,
        (
          tt,
          (
            (
              (λ e. absurd (omega arith)),
              ((λ e. absurd (omega arith)), ((λ e. absurd (omega arith)), tt)),
            ),
            (
              (
                ((λ e. absurd (omega arith)), ((λ e. absurd (omega arith)), tt)),
                (
                  (
                    (λ e. absurd (omega arith)),
                    (
                      (λ e. absurd (omega arith)),
                      ((λ e. absurd (omega arith)), ((λ e. absurd (omega arith)), tt)),
                    ),
                  ),
                  tt,
                ),
              ),
              tt,
            ),
          ),
        ),
      )
      ((refl, refl), ((refl, refl), (refl, (refl, tt)))) row_written
