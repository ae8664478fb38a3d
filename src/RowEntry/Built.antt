-- ===== src/RowEntry/Built.antt =====
-- What the constructors of row entries establish (misfits/row_entry.hpp, misfits/row_entry.cc): the program's variable
-- and the buffer have the room that `read` and `write` need.
use misfits.Prelude.{
  ℕ, ◌+◌, ◌-◌, ◌*◌, ◌/◌, ◌%◌, ◌^◌, ◌<◌, ◌≤◌, ◌≡◌, refl, ap, ◌∙◌, inl, inr, Bool-cases, ◌==◌,
  if◌then◌else◌, true, false, Bool, List, [], ltb, take, replicate, length, length-append,
  length-take, length-replicate, arith,
}
use native.Mathlib.Nat.{div-mul-le_self}
use misfits.Prelude.Int.{ℤ, pos, to_size, ◌<ℤ?◌}
use misfits.Prelude.Text.{Text}
use misfits.Cfitsio.{Cfitsio}
use misfits.Exception.{◌>>=◌}
use misfits.Exception.Ends.{Ends}
use misfits.Exception.Gives.{Gives}
use misfits.Types.{Native, is_bit, is_string}
use misfits.Store.{ColumnInfo, check}
use misfits.Extent.{nelem}
use misfits.Table.Cells.{read_col, write_col, read_bytes, write_bytes}
use misfits.RowEntry.{Place, Session, ColumnEntry, ColumnBase, column_base, bytes_of_bits, load_at}
use misfits.RowEntry.Columns.{
  resized, is_byte, first_axis, column_init, values_entry, bools_entry, strings_entry, string_entry,
  column_vector, bool_column_vector, string_column, string_column_vector,
}

-- What is saved at a place is found there.
abbrev pub Remembers : {M V : Type 0} → Place M V → Type 0
Remembers {M} {V} base = (v : V) (m : M) → base.load (base.save v m) ≡ v

-- Neither method of the entry does anything undefined: it ends, or throws a failure of CFITSIO.
abbrev pub IsUsable : {W M : Type 0} → ColumnEntry W M → Session W M → Type 0
IsUsable entry s =
    (table : ℕ) (row : ℤ)
    → Ends (λ _. Unit) (entry.read table row s) × Ends (λ _. Unit) (entry.write table row s)

length-resized : {A : Type 0} (n : ℕ) (a : A) (xs : List A) → length (resized n a xs) ≡ n
length-resized {A} n a xs = omega (
  arith,
  length-append (take n xs) (replicate (n - length xs) a),
  length-take n xs,
  length-replicate (n - length xs) a,
)

module _ {W M : Type 0} ⦃c : Cfitsio W⦄ where
  values_entry-IsUsable :
      (T : Native) (col : ColumnBase) (base : Place M (List ℕ)) (s : Session W M)
      → (length (load_at base s) == 0) ≡ false
      → (pos (length (load_at base s)) <ℤ? col.natomic) ≡ false
      → IsUsable (values_entry T col base) s
  unfolding values_entry read_col write_col check ◌>>=◌
  values_entry-IsUsable T col base s some_there room table row = (ground arith, ground arith)

  bools_entry-IsUsable :
      (col : ColumnBase) (base : Place M (List Bool)) (s : Session W M)
      → (to_size col.natomic == 0) ≡ false
      → (pos (length (load_at base s)) <ℤ? col.natomic) ≡ false
      → IsUsable (bools_entry col base) s
  unfolding bools_entry read_col write_col check ◌>>=◌
  bools_entry-IsUsable col base s some_there room table row = (ground arith, ground arith)

  strings_entry-IsUsable :
      (info : ColumnInfo) (width : ℕ) (base : Place M (List Text)) (s : Session W M)
      → (to_size info.nbytes == 0) ≡ false
      → length (load_at base s) * width ≤ to_size info.nbytes
      → IsUsable (strings_entry info width base) s
  unfolding strings_entry read_bytes write_bytes check ◌>>=◌
  strings_entry-IsUsable info width base s some_there room table row = (ground arith, ground arith)

  string_entry-IsUsable :
      (info : ColumnInfo) (base : Place M Text) (s : Session W M)
      → (to_size info.nbytes == 0) ≡ false
      → IsUsable (string_entry info base) s
  unfolding string_entry read_bytes write_bytes check ◌>>=◌
  string_entry-IsUsable info base s some_there table row = (ground arith, ground arith)

-- A vector that a constructor has resized has as many elements as the column.
resized_count :
    {A M : Type 0} (base : Place M (List A)) (natomic : ℤ) (n : ℕ) (a : A) (m : M)
    → Remembers base
    → natomic ≡ pos n
    → n < 2 ^ 64
    → length (base.load (base.save (resized (to_size natomic) a (base.load m)) m)) ≡ n
resized_count base natomic n a m law count fits =
    let size : n % 2 ^ 64 ≡ n = omega arith in
    rw
      (
        law (resized (to_size natomic) a (base.load m)) m,
        length-resized (to_size natomic) a (base.load m),
        count,
      )
      size

room_for : (natomic : ℤ) (n k : ℕ) → natomic ≡ pos n → k ≡ n → (pos k <ℤ? natomic) ≡ false
room_for natomic n k count e = rw (count, e) (ground arith)

-- A column of n elements, one or more, takes one or more but no more atomic elements, also where a byte takes eight bits.
HasAtoms : ℕ → ColumnBase → Type 0
HasAtoms n col = (m : ℕ) × (col.natomic ≡ pos m) × (0 < m) × (m ≤ n)

HasAtoms-if :
    (n : ℕ) (b b' : Bool) (x y : ColumnBase)
    → HasAtoms n x
    → HasAtoms n y
    → HasAtoms n (if b then (if b' then x else y) else y)
HasAtoms-if n true true x y p q = p
HasAtoms-if n true false x y p q = q
HasAtoms-if n false b' x y p q = q

bytes_of_bits_within :
    (n : ℕ) → 0 < n → (m : ℕ) × (bytes_of_bits (pos n) ≡ pos m) × (0 < m) × (m ≤ n)
bytes_of_bits_within n some_bits = elim (Bool-cases (ltb (n / 8 * 8) n)) [
  | inl more ↦ (n / 8 + 1, rw more refl, omega arith, ground arith)
  | inr whole ↦ (n / 8, rw whole refl, ground arith, omega arith)
]

column_base_natomic : (info : ColumnInfo) → (column_base info).natomic ≡ nelem info.extent
unfolding column_base
column_base_natomic info = refl

column_init-HasAtoms :
    (T : Native) (info : ColumnInfo) (n : ℕ)
    → nelem info.extent ≡ pos n
    → 0 < n
    → HasAtoms n (column_init T info)
unfolding column_init HasAtoms
column_init-HasAtoms T info n count some_there =
    let base = column_base info in
    let atoms : base.natomic ≡ pos n = column_base_natomic info ∙ count in
    let (m, bytes, more, few) = bytes_of_bits_within n some_there in
    HasAtoms-if n (is_byte T) (is_bit base.id) (record base { natomic = bytes_of_bits base.nelem })
      base (m, ap bytes_of_bits atoms ∙ bytes, more, few) (n, atoms, some_there, omega arith)

-- As many strings as the constructor makes have room in a cell of a byte for each element.
strings_room :
    {M : Type 0} (info : ColumnInfo) (names : Place M (List Text)) (width : ℕ) (m : M)
    → Remembers names
    → info.nbytes ≡ nelem info.extent
    → let resized_names = resized (to_size (column_base info).nelem / width) [] (names.load m) in
      length (names.load (names.save resized_names m)) * width ≤ to_size info.nbytes
unfolding column_base
strings_room info names width m keeps same =
    let slots = to_size (nelem info.extent) / width in
    rw (keeps (resized slots [] (names.load m)) m, length-resized slots [] (names.load m), same)
      (div-mul-le_self (to_size (nelem info.extent)) width)

module _ {W M : Type 0} ⦃c : Cfitsio W⦄ where
  -- For a column of n elements, one or more, the constructors of ColumnVector and of BoolColumnVector size the
  -- program's vector so that `read` and `write` of the entry do not leave it, in any row: each ends or throws a
  -- failure of CFITSIO.
  pub vector_columns-IsUsable :
      (T : Native) (info : ColumnInfo) (values : Place M (List ℕ)) (flags : Place M (List Bool))
      (n : ℕ) (s : Session W M)
      → Remembers values
      → Remembers flags
      → nelem info.extent ≡ pos n
      → 0 < n
      → n < 2 ^ 64
      → Gives IsUsable (column_vector T info values s)
        × Gives IsUsable (bool_column_vector info flags s)
  unfolding HasAtoms column_vector bool_column_vector ◌>>=◌
  vector_columns-IsUsable T info values flags n s keeps keeps' count some_there fits =
      let (m, atoms, more, few) = column_init-HasAtoms T info n count some_there in
      let there =
        resized_count values (column_init T info).natomic m 0 s.memory keeps atoms (omega arith) in
      let base_atoms = column_base_natomic info ∙ count in
      let there' =
        resized_count flags (column_base info).natomic n false s.memory keeps' base_atoms fits in
      let size : n % 2 ^ 64 ≡ n = omega arith in
      (
        values_entry-IsUsable T (column_init T info) values _ (rw there (ground arith))
            (room_for _ m _ atoms there),
        bools_entry-IsUsable (column_base info) flags _ (rw base_atoms (ground arith))
            (room_for _ n _ base_atoms there'),
      )

  -- For a column of strings whose cells are of one byte or more, a byte for each element, the constructor of
  -- StringColumnVector, if it ends, sizes the program's vector so that its strings have room in the buffer: `read` and
  -- `write` of the entry end, or throw a failure of CFITSIO, in any row. So they do for the entry of a single string.
  pub string_columns-IsUsable :
      (info : ColumnInfo) (base : Place M Text) (names : Place M (List Text)) (s : Session W M)
      → Remembers names
      → info.nbytes ≡ nelem info.extent
      → (to_size info.nbytes == 0) ≡ false
      → Gives IsUsable (string_column info base s)
        × Gives IsUsable (string_column_vector info names s)
  unfolding string_column string_column_vector ◌>>=◌
  string_columns-IsUsable info base names s keeps same some_there = (
    elim (Bool-cases (is_string info.column_type)) [
      | inl strings ↦ rw strings (string_entry-IsUsable info base _ some_there)
      | inr others ↦ rw others tt
    ],
    elim (Bool-cases (is_string info.column_type)) [
      | inl strings ↦ elim (Bool-cases (first_axis info.extent == 0)) [
        | inl none ↦ rw (strings, none) tt
        | inr some ↦
            rw (strings, some)
              (strings_entry-IsUsable info (first_axis info.extent) names _ some_there
                (strings_room info names (first_axis info.extent) s.memory keeps same))
      ]
      | inr others ↦ rw others tt
    ],
  )
