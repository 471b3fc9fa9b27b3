-- ===== src/Core/EpcValidator/Examples.antt =====
-- The validation of codes at concrete ones.
use rfidsystem.Prelude.{◌+◌, ◌≡◌, refl, not, some, List, [], ◌∷◌, map, length, keep, All}
use rfidsystem.Core.EpcValidator.{
  Chars, is_separator, to_upper, is_hex_digit, normalize_epc, is_hex, has_valid_length,
  is_valid_epc, validate_and_normalize, filter_valid_epcs, filter_invalid_epcs,
}
use rfidsystem.Core.EpcValidator.Normal.{IsNormal}
use rfidsystem.Core.EpcValidator.Filters.{filters_part, filter_valid-IsNormal}

-- "e2-00 aB:7f", "e200" and "  "
abbrev codes : List Chars
codes =
    (101 ∷ 50 ∷ 45 ∷ 48 ∷ 48 ∷ 32 ∷ 97 ∷ 66 ∷ 58 ∷ 55 ∷ 102 ∷ [])
    ∷ (101 ∷ 50 ∷ 48 ∷ 48 ∷ [])
    ∷ (32 ∷ 32 ∷ [])
    ∷ []

-- The first is "E200AB7F".
filter_valid_epcs-codes :
    filter_valid_epcs codes ≡ (69 ∷ 50 ∷ 48 ∷ 48 ∷ 65 ∷ 66 ∷ 55 ∷ 70 ∷ []) ∷ []
unfolding filter_valid_epcs validate_and_normalize is_valid_epc normalize_epc is_separator to_upper
    has_valid_length is_hex is_hex_digit
filter_valid_epcs-codes = refl

filters_part_example :
    (filter_valid_epcs codes ≡ map normalize_epc (keep is_valid_epc codes))
    × (filter_invalid_epcs codes ≡ keep (λ e. not (is_valid_epc e)) codes)
    × (length (filter_valid_epcs codes) + length (filter_invalid_epcs codes) ≡ 3)
filters_part_example = filters_part codes

filter_valid-IsNormal_example :
    All (λ e. IsNormal e × (validate_and_normalize e ≡ some e)) (filter_valid_epcs codes)
filter_valid-IsNormal_example = filter_valid-IsNormal codes
