-- ===== src/Core/EpcValidator.antt =====
-- server/core/epc_validator.h and .cpp: EPCValidator, which brings tags' codes into one form. A string is
-- the list of its characters' codes below 256; the character classes are those of the C locale.
pub mod Normal
pub mod Filters
mod Examples
use rfidsystem.Prelude.{
  ℕ, ◌-◌, ◌==◌, leb, Bool, true, false, not, ◌&&◌, ◌||◌, Option, none, some, List, [], ◌∷◌, length,
  if◌then◌else◌,
}

-- A `std::string`.
abbrev pub Chars : Type 0
Chars = List ℕ

-- A blank, a dash or a colon.
unfoldable pub is_separator : ℕ → Bool
is_separator c = c == 32 || c == 45 || c == 58

-- `std::toupper`
unfoldable pub to_upper : ℕ → ℕ
to_upper c = if leb 97 c && leb c 122 then c - 32 else c

-- `std::isxdigit`
unfoldable pub is_hex_digit : ℕ → Bool
is_hex_digit c = leb 48 c && leb c 57 || leb 65 c && leb c 70 || leb 97 c && leb c 102

unfoldable pub normalize_epc : Chars → Chars
normalize_epc [] = []
normalize_epc (c ∷ cs) =
    let rest = normalize_epc cs in if is_separator c then rest else to_upper c ∷ rest

unfoldable pub is_hex : Chars → Bool
is_hex [] = true
is_hex (c ∷ cs) = is_hex_digit c && is_hex cs

unfoldable pub has_valid_length : Chars → Bool
has_valid_length epc = let len : ℕ = length epc in len == 24 || len == 16 || len == 12 || len == 8

unfoldable pub is_valid_epc : Chars → Bool
is_valid_epc epc =
    if length epc == 0
    then false
    else let normalized : Chars = normalize_epc epc in
      if not (has_valid_length normalized) then false else is_hex normalized

unfoldable pub validate_and_normalize : Chars → Option Chars
validate_and_normalize epc =
    let normalized : Chars = normalize_epc epc in
    if is_valid_epc normalized then some normalized else none

unfoldable pub filter_valid_epcs : List Chars → List Chars
filter_valid_epcs [] = []
filter_valid_epcs (epc ∷ epcs) =
    let rest = filter_valid_epcs epcs in
    elim (validate_and_normalize epc) [ none ↦ rest | some normalized ↦ normalized ∷ rest ]

unfoldable pub filter_invalid_epcs : List Chars → List Chars
filter_invalid_epcs [] = []
filter_invalid_epcs (epc ∷ epcs) =
    let rest = filter_invalid_epcs epcs in
    if not (is_valid_epc (normalize_epc epc)) then epc ∷ rest else rest
