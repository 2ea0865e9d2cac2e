-- ===== src/Util.antt =====
-- util/util.c: membership in a string table, number printing, sorting and URL decoding.
pub mod Mem
pub mod Decimal
pub mod Sort
pub mod Url
use bmb.Base.{ℕ, zero, suc, Bool, false, true, List, [], ◌∷◌, if◌then◌else◌}
use bmb.Base.Text.{CString, str_eq}

-- The loop over the first `size` entries of the table.
unfoldable pub in_str_array : CString → List CString → ℕ → Bool
in_str_array needle haystack zero = false
in_str_array needle [] (suc size) = false
in_str_array needle (entry ∷ haystack) (suc size) =
    if str_eq needle entry then true else in_str_array needle haystack size
