-- ===== src/File.antt =====
-- class File (misfits/fits.hpp, misfits/fits.cc): opening, closing and moving about a FITS file. A method
-- takes the address of the File; the creation of HDU and Table objects is in Table.antt.
pub mod Close
pub mod Move
use Prim.Native.Nat.{bit_and}
use misfits.Prelude.{ℕ, Bool, ◌≡◌, ◌∷◌, ◌==◌, if◌then◌else◌, not}
use misfits.Prelude.Int.{ℤ}
use misfits.Prelude.Text.{Text, text}
use misfits.Cfitsio.{⊤, Call, Cfitsio, HduType, readonly_file}
use misfits.Exception.{
  cfitsio, Result, ok, throw, Action, pure, raise, gets, modify, ◌>>=◌, ◌>>◌, throw_if,
}
use misfits.Types.{OpenMode, mode_code, FlushMode}
use misfits.Types.FileCopy
use misfits.Store.{File, Store, check, fptr, set_file, new_file}

-- namespace Entity, but for Memory, which has a function of its own below
pub data Entity : Type 0 where
  file disk_file any_data table image : Entity

-- namespace Mode: the structs that `open` takes as a parameter
pub data Mode : Type 0 where
  read_only read_write create create_over_write : Mode

abbrev pub mode_of : Mode → OpenMode
mode_of read_only = OpenMode.read_only
mode_of _ = OpenMode.read_write

abbrev pub is_read_only : OpenMode → Bool
is_read_only OpenMode.read_only = Bool.true
is_read_only OpenMode.read_write = Bool.false

module _ {W : Type 0} ⦃c : Cfitsio W⦄ where
  -- MapCFITSIO::open and MapCFITSIO::create
  unfoldable pub map_open : Entity → Text → OpenMode → Call W ℕ
  map_open Entity.file name mode = c.open_file name (mode_code mode)
  map_open disk_file name mode = c.open_diskfile name (mode_code mode)
  map_open any_data name mode = c.open_data name (mode_code mode)
  map_open table name mode = c.open_table name (mode_code mode)
  map_open image name mode = c.open_image name (mode_code mode)

  -- Open::open: the generic template, after its four specializations. A leading ! lets CFITSIO overwrite.
  unfoldable pub open_fits : Entity → Mode → Text → Action (Store W) ℕ
  open_fits Entity.file create name = check (c.create_file name)
  open_fits disk_file create name = check (c.create_diskfile name)
  open_fits Entity.file create_over_write name = check (c.create_file (b'!' ∷ name))
  open_fits disk_file create_over_write name = check (c.create_diskfile (b'!' ∷ name))
  open_fits entity mode name = check (map_open entity name (mode_of mode))

  -- open<Entity, Mode>( file )
  unfoldable pub open_file : Entity → Mode → Text → Action (Store W) ℕ
  open_file entity mode name = do
    fitsptr ← open_fits entity mode name
    new_file (record { fitsptr = fitsptr; mode = mode_of mode; file = name })

  -- open<Entity::Memory>( )
  unfoldable pub open_memory : Action (Store W) ℕ
  open_memory = open_file Entity.file create (text "mem://")

  -- `close` releases the pointer before it calls CFITSIO, so the pointer is gone also if that fails.
  unfoldable pub close : ℕ → Action (Store W) ⊤
  close f = do
    fitsptr ← gets (fptr f)
    entry ← gets (λ s. s.files f)
    if fitsptr == 0
        then pure tt
        else do modify (set_file f (record entry { fitsptr = 0 })); check (c.close_file fitsptr)

  abbrev pub swallow : Result ⊤ × Store W → Result ⊤ × Store W
  swallow (r, s) = (ok tt, s)

  -- `closeFitsPtr`, the deleter of the pointer
  unfoldable pub close_fits_ptr : ℕ → Action (Store W) ⊤
  close_fits_ptr fitsptr = if fitsptr == 0 then pure tt else check (c.close_file fitsptr)

  -- The destructor: what `close` throws is logged and dropped. Then the member `fitsptr` is destroyed, whose deleter is
  -- called with the pointer that is left.
  unfoldable pub destroy : ℕ → Action (Store W) ⊤
  destroy f s =
      let (_, s') = swallow (close f s) in (do fitsptr ← gets (fptr f); close_fits_ptr fitsptr) s'

  unfoldable pub flush : ℕ → FlushMode → Action (Store W) ⊤
  flush f FlushMode.file = do fitsptr ← gets (fptr f); check (c.flush_file fitsptr)
  flush f FlushMode.buffer = do fitsptr ← gets (fptr f); check (c.flush_buffer fitsptr)

  unfoldable pub move_by : ℕ → ℤ → Action (Store W) ⊤
  move_by f nmove = do fitsptr ← gets (fptr f); check (c.movrel_hdu fitsptr nmove); pure tt

  -- `hdu_num()`
  abbrev pub hdu_num : ℕ → Store W → ℕ
  hdu_num f s = c.get_hdu_num (fptr f s) s.world

  -- `move_to( int )` does nothing if the file is there already.
  unfoldable pub move_to : ℕ → ℕ → Action (Store W) ⊤
  move_to f hdu_num_req = do
    here ← gets (hdu_num f)
    fitsptr ← gets (fptr f)
    if here == hdu_num_req then pure tt else do check (c.movabs_hdu fitsptr hdu_num_req); pure tt

  -- `move_to( extname, extver, hdu_type )`
  unfoldable pub move_to_name : ℕ → Text → ℤ → HduType → Action (Store W) ⊤
  move_to_name f extname extver hdu_type = do
    fitsptr ← gets (fptr f)
    check (c.movnam_hdu fitsptr hdu_type extname extver)

  unfoldable pub reopen : ℕ → Action (Store W) ℕ
  reopen f = do
    fitsptr ← gets (fptr f)
    entry ← gets (λ s. s.files f)
    nfptr ← check (c.reopen_file fitsptr)
    fp ← new_file (record entry { fitsptr = nfptr })
    here ← gets (hdu_num f)
    move_to fp here
    pure fp

  unfoldable pub num_hdus : ℕ → Action (Store W) ℕ
  num_hdus f = do fitsptr ← gets (fptr f); check (c.get_num_hdus fitsptr)

  unfoldable pub hdu_type : ℕ → Action (Store W) HduType
  hdu_type f = do fitsptr ← gets (fptr f); check (c.get_hdu_type fitsptr)

  unfoldable pub delete_hdu : ℕ → Action (Store W) HduType
  delete_hdu f = do fitsptr ← gets (fptr f); check (c.delete_hdu fitsptr)

  -- The calls of `copy`, once the output file is known to be writable.
  unfoldable pub copy_what : ℕ → ℕ → ℕ → ℕ → Call W ⊤
  copy_what from to what morekeys =
      if what == FileCopy.current_header
      then c.copy_header from to
      else if what == FileCopy.current_hdu
      then c.copy_hdu from to morekeys
      else c.copy_file from to (bit_and what FileCopy.previous_hdus)
          (bit_and what FileCopy.current_hdu) (bit_and what FileCopy.following_hdus)

  unfoldable pub copy : ℕ → ℕ → ℕ → ℕ → Action (Store W) ⊤
  copy f outfile what morekeys = do
    out ← gets (λ s. s.files outfile)
    fitsptr ← gets (fptr f)
    throw_if (is_read_only out.mode) (cfitsio readonly_file)
    check (copy_what fitsptr out.fitsptr what morekeys)

  -- class resetHDU (misfits/fits_p.hpp): the constructor notes the current HDU and moves, unless it is
  -- given zero; the destructor moves back to the HDU that was noted.
  unfoldable pub reset_hdu : ℕ → ℕ → Action (Store W) ℕ
  reset_hdu fp new_hdu_num = do
    chdu ← gets (hdu_num fp)
    if new_hdu_num == 0 then pure chdu else do move_to fp new_hdu_num; pure chdu

  unfoldable pub reset_hdu_end : ℕ → ℕ → Action (Store W) ⊤
  reset_hdu_end fp chdu = move_to fp chdu
