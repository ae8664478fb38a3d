-- ===== src/Types/FileCopy.antt =====
-- struct FileCopy (misfits/types.hpp): the flags of File::copy.
use misfits.Prelude.{ℕ}

abbrev pub previous_hdus : ℕ
previous_hdus = 1

abbrev pub current_hdu : ℕ
current_hdu = 2

abbrev pub following_hdus : ℕ
following_hdus = 4

abbrev pub all_hdus : ℕ
all_hdus = 7

abbrev pub current_header : ℕ
current_header = 8
