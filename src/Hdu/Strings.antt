-- ===== src/Hdu/Strings.antt =====
-- String keywords (HDU::get_keyword<std::string> and HDU::set_keyword<std::string> in misfits/hdu.cc).
use misfits.Prelude.{◌≡◌, ◌⊎◌, true, false, ltb, length}
use misfits.Prelude.Text.{Text}
use misfits.Prelude.CText.{NullFree}
use misfits.Cfitsio.{Cfitsio, flen_value}
use misfits.Cfitsio.Laws.{fits_card, ends_in_space}
use misfits.Store.{Store, Hdu}

-- The values for which `set_keyword` chooses a routine that can hold them
abbrev pub IsWritable : Text → Type 0
IsWritable value =
    ((fits_card value ≡ true) ⊎ (ltb flen_value (length value) ≡ true))
    × (ends_in_space value ≡ false)
    × NullFree value
