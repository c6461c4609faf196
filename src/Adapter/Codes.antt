-- ===== src/Adapter/Codes.antt =====
-- internal/twilioadapter/country_guard.go: the option `--allowed-country-codes`.
pub mod Prefixes
use request_sudo.Base.{
  ℕ, Bool, true, false, not, ◌&&◌, ◌||◌, List, [], ◌∷◌, Text, is_empty, leb, ◌==◌, if◌then◌else◌,
}
use request_sudo.Base.Lines.{split_at}
use request_sudo.Base.Trim.{trim_space}

-- The two errors.
pub data CodesError : Type 0 where
  list_empty not_digits : CodesError

pub data Codes (A : Type 0) : Type 0 where
  taken : A → Codes A
  refused : CodesError → Codes A

unfoldable pub all_digits : Text → Bool
all_digits [] = true
all_digits (c ∷ s) = leb b'0' c && leb c b'9' && all_digits s

-- The checks on the bytes after the plus sign.
unfoldable pub check_digits : Text → Codes Text
unfolding all_digits
check_digits digits =
    if is_empty digits || not (all_digits digits) then refused not_digits else taken (43 ∷ digits)

-- The digits after the plus sign, which may be missing.
unfoldable pub after_plus : Text → Text
after_plus [] = []
after_plus (c ∷ s) = if c == 43 then s else c ∷ s

-- The body of the loop of `ParseAllowedCountryCodes`, for the trimmed token.
unfoldable pub parse_code : Text → Codes Text
unfolding check_digits after_plus
parse_code tok = if is_empty tok then refused list_empty else check_digits (after_plus tok)

abbrev pub first_code : Codes (List Text) → Text → Codes (List Text)
first_code (taken result) code = taken (code ∷ result)
first_code (refused e) code = refused e

unfoldable pub parse_codes : List Text → Codes (List Text)
unfolding parse_code trim_space
parse_codes [] = taken []
parse_codes (tok ∷ tokens) =
    let rest = parse_codes tokens in
    elim (parse_code (trim_space tok)) [ taken code ↦ first_code rest code | refused e ↦ refused e ]

-- `ParseAllowedCountryCodes`
unfoldable pub parse_allowed_country_codes : Text → Codes (List Text)
unfolding parse_codes split_at
parse_allowed_country_codes csv =
    if is_empty (trim_space csv) then refused list_empty else parse_codes (split_at 44 csv)
