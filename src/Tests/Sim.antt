-- ===== src/Tests/Sim.antt =====
-- A CFITSIO that keeps one file of three HDUs, all of them the same binary table of columns of four-byte integers, which
-- answers what the methods of Table, Row and HDU ask. It is data for tests.
use misfits.Prelude.{
  ℕ, zero, suc, ◌+◌, ◌-◌, ◌≡◌, refl, Bool, true, ◌&&◌, List, [], ◌∷◌, ◌++◌, Option, none, some, ltb,
  ◌==◌, length, length-take, ◌≤◌, get_elem?, take, drop, if◌then◌else◌, arith,
}
use misfits.Prelude.Int.{ℤ, pos, ◌==ℤ◌, ==ℤ_refl}
use misfits.Prelude.Text.{Text, text, text_eq, text_eq_refl}
use misfits.Cfitsio.{⊤, Call, Cfitsio, HduType, any, binary_table, flen_comment}
use misfits.Types.{OpenMode, Spec}
use misfits.Store.{Store}
use misfits.Cfitsio.Laws.{MovesTo, UpdatesKey, UpdatesStrings, ReadsBack, ReadsBackBytes}

-- A column as a table describes it: its name, the code of its type, its count of elements and its axes
pub record Made : Type 0 where
  pub ttype : Text
  pub code : ℤ
  pub repeat : ℤ
  pub axes : List ℤ

pub record Sim : Type 0 where
  pub chdu : ℕ
  pub keys : Text → Option (ℤ × Text)
  pub texts : Text → Option (Text × Text)
  pub columns : List (Text × ℤ)
  pub rows : ℕ
  pub cells : ℕ → ℤ → List ℕ
  pub bytes : ℤ → ℤ → List ℕ
  pub made : ℕ → Made

abbrev pub sim_world : Sim
sim_world = record {
  chdu = 1;
  keys = λ key. none;
  texts = λ key. none;
  columns = (text "TIME", pos 1) ∷ (text "COUNTS", pos 3) ∷ [];
  rows = 2;
  cells = λ colnum row. 7 ∷ [];
  bytes = λ row first. [];
  made = λ n. record { ttype = []; code = pos 0; repeat = pos 0; axes = [] };
}

abbrev done : {A : Type 0} → A → Call Sim A
done a w = (0, a, w)

abbrev refused : {A : Type 0} → ℕ → A → Call Sim A
refused status a w = (status, a, w)

abbrev write_key : ℕ → ℕ → Text → ℤ → Text → Call Sim ⊤
write_key f datatype key value comment w = (
  0,
  tt,
  record w {
    keys = λ k. if text_eq k key then some (value, take flen_comment comment) else w.keys k;
  },
)

abbrev found_key : Option (ℤ × Text) → ℕ × (ℤ × Text)
found_key none = (202, (pos 0, []))
found_key (some entry) = (0, entry)

abbrev read_key : ℕ → ℕ → Text → Call Sim (ℤ × Text)
read_key f datatype key w = let (status, entry) = found_key (w.keys key) in (status, entry, w)

-- The value is kept as it is, however long; the comment is cut.
abbrev write_text : ℕ → Text → Text → Text → Call Sim ⊤
write_text f key value comment w = (
  0,
  tt,
  record w {
    texts = λ k. if text_eq k key then some (value, take flen_comment comment) else w.texts k;
  },
)

abbrev found_text : Option (Text × Text) → ℕ × (Text × Text)
found_text none = (202, ([], []))
found_text (some entry) = (0, entry)

abbrev move : ℕ → ℕ → Call Sim HduType
move f n w = if ltb 0 n && ltb n 4 then (0, binary_table, record w { chdu = n }) else (301, any, w)

abbrev number_of : Text → List (Text × ℤ) → ℕ → ℕ × ℕ
number_of name [] n = (219, 0)
number_of name ((ttype, repeat) ∷ cs) n =
    let later = number_of name cs (n + 1) in if text_eq ttype name then (0, n) else later

abbrev find_column : ℕ → Bool → Text → Call Sim ℕ
find_column f casesen name w = let (status, n) = number_of name w.columns 1 in (status, n, w)

abbrev column_at : ℕ → Sim → Text × ℤ
column_at zero w = ([], pos 0)
column_at (suc n) w = elim (get_elem? w.columns n) [ none ↦ ([], pos 0) | some col ↦ col ]

abbrev put_cells : ℕ → ℕ → ℕ → ℤ → ℕ → ℤ → List ℕ → Call Sim ⊤
put_cells f datatype colnum row first n values w = (
  0,
  tt,
  record w { cells = λ col r. if (col == colnum) && (r ==ℤ row) then values else w.cells col r },
)

abbrev put_columns : List (Text × ℤ) → Sim → ℕ × ⊤ × Sim
put_columns cols w = (0, tt, record w { columns = cols })

abbrev pub sim : Cfitsio Sim
sim = record {
  open_file = λ name mode. if mode == 0 then done 9 else refused 104 0;
  open_diskfile = λ name mode. done 9;
  open_data = λ name mode. done 9;
  open_table = λ name mode. done 9;
  open_image = λ name mode. done 9;
  create_file = λ name. done 9;
  create_diskfile = λ name. done 9;
  close_file = λ f. refused 115 tt;
  flush_file = λ f. done tt;
  flush_buffer = λ f. done tt;
  reopen_file = λ f. done 9;
  movrel_hdu = λ f n. refused 301 any;
  movabs_hdu = move;
  movnam_hdu = λ f type name ver. refused 301 tt;
  get_num_hdus = λ f. done 3;
  get_hdu_num = λ f w. w.chdu;
  get_hdu_type = λ f. done binary_table;
  copy_header = λ from to. done tt;
  copy_hdu = λ from to more. done tt;
  copy_file = λ from to before at after. done tt;
  delete_hdu = λ f. done any;
  get_hdrpos = λ f. done (2, 0);
  read_card = λ f key w. let (status, _) = found_key (w.keys key) in (status, tt, w);
  read_keyn = λ f n. if ltb n 4 then done (text "KEY", text "1", []) else refused 203 ([], [], []);
  get_key_strlen =
      λ f key w. let (status, (value, _)) = found_text (w.texts key) in (status, length value, w);
  read_string_key =
      λ f key first n w. let (status, entry) = found_text (w.texts key) in (status, entry, w);
  read_key = read_key;
  write_key_longwarn = λ f. done tt;
  update_key_longstr = write_text;
  update_key_str = write_text;
  update_key = write_key;
  delete_key =
      λ f key w. (0, tt, record w { keys = λ k. if text_eq k key then none else w.keys k });
  write_history = λ f history. done tt;
  write_comment = λ f comment. done tt;
  create_tbl = λ f type rows cols name. done tt;
  get_colnum = find_column;
  get_num_cols = λ f w. (0, length w.columns, w);
  get_num_rowsll = λ f w. (0, w.rows, w);
  modify_vector_len = λ f n len. done tt;
  insert_col = λ f n name tform w.
      put_columns (take (n - 1) w.columns ++ ((name, pos 1) ∷ drop (n - 1) w.columns)) w;
  insert_cols = λ f n count names tforms. done tt;
  delete_col = λ f n w. put_columns (take (n - 1) w.columns ++ drop n w.columns) w;
  insert_rows = λ f after n w. (0, tt, record w { rows = w.rows + n });
  copy_col = λ from to a b create. done tt;
  get_bcolparmsll = λ f n w. let (ttype, _) = column_at n w in (0, (ttype, []), w);
  get_coltypell = λ f n w. let (_, repeat) = column_at n w in (0, (pos 41, repeat, pos 4), w);
  read_tdimll = λ f n naxis w. let (_, repeat) = column_at n w in (0, (1, repeat ∷ []), w);
  write_tdimll = λ f n naxis axes. done tt;
  binary_tformll = λ tform. (0, pos 4);
  read_col = λ f datatype colnum row first n w. (0, w.cells colnum row, w);
  write_col = put_cells;
  read_tblbytes = λ f row first n w. (0, w.bytes row first, w);
  write_tblbytes = λ f row first n bytes w. (
    0,
    tt,
    record w { bytes = λ r b. if (r ==ℤ row) && (b ==ℤ first) then bytes else w.bytes r b },
  );
}

pub sim-MovesTo : MovesTo sim
sim-MovesTo f n w h = ground arith

comment_fits : (comment : Text) → length (take flen_comment comment) ≤ flen_comment
comment_fits comment = omega (arith, length-take flen_comment comment)

pub sim-UpdatesKey : UpdatesKey sim
sim-UpdatesKey f datatype key value comment w h digits =
    rw (text_eq_refl key) (refl, refl, refl, comment_fits comment)

pub sim-UpdatesStrings : UpdatesStrings sim
sim-UpdatesStrings = record {
  one_card = λ f key value comment w h fits spaces clean.
      rw (text_eq_refl key) (refl, (refl, refl, refl, refl, comment_fits comment));
  long = λ f key value comment w h spaces clean.
      rw (text_eq_refl key) (refl, (refl, refl, refl, refl, comment_fits comment));
  warns = λ f w h. refl;
}

pub sim-ReadsBack : (f colnum : ℕ) (spec : Spec) → ReadsBack sim f colnum spec
sim-ReadsBack f colnum spec datatype row first n values w h takes are =
    let self : (colnum == colnum) ≡ true = ground arith in rw (self, ==ℤ_refl row) (refl, refl)

pub sim-ReadsBackBytes : ReadsBackBytes sim
sim-ReadsBackBytes f row first n bytes w h = rw (==ℤ_refl row, ==ℤ_refl first) (refl, refl)

-- The objects of a program that has opened the file and made a Table for each of its HDUs, from address zero on
abbrev pub start : Store Sim
start = record {
  world = sim_world;
  files = λ f. record { fitsptr = 9; mode = OpenMode.read_write; file = text "events.fits" };
  hdus = λ t. record { file = 0; extname = []; extver = pos 1; hdu_num = t + 1 };
  columns = λ t. [];
  next_file = 1;
  next_hdu = 3;
}
