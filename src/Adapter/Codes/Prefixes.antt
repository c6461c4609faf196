-- ===== src/Adapter/Codes/Prefixes.antt =====
-- internal/twilioadapter/country_guard.go: the codes that the option gives, and the numbers that they
-- let through.
use request_sudo.Base.{
  ℕ, ◌≡◌, refl, sym, subst, Bool, true, false, not, ◌||◌, List, [], ◌∷◌, Text, is_empty,
  if◌then◌else◌, ◌==◌,
}
use request_sudo.Base.Lines.{split_at}
use request_sudo.Base.Trim.{trim_space}
use request_sudo.Adapter.Codes.{
  list_empty, not_digits, after_plus, Codes, taken, refused, all_digits, check_digits, parse_code,
  first_code, parse_codes, parse_allowed_country_codes,
}

-- A plus sign and at least one digit.
pub record IsPrefix (code : Text) : Type 0 where
  pub digits : Text
  pub splits : code ≡ 43 ∷ digits
  pub some_digit : is_empty digits ≡ false
  pub only_digits : all_digits digits ≡ true

abbrev pub ArePrefixes : List Text → Type 0
ArePrefixes [] = Unit {0}
ArePrefixes (code ∷ rest) = IsPrefix code × ArePrefixes rest

taken-eq-taken : {A : Type 0} {a b : A} → taken a ≡ taken b → a ≡ b
taken-eq-taken h = cc

check_digits-IsPrefix : (digits code : Text) → check_digits digits ≡ taken code → IsPrefix code
unfolding check_digits
check_digits-IsPrefix digits code = by_tests (is_empty digits) (all_digits digits) refl refl
  where
    by_tests :
        (a b : Bool)
        → is_empty digits ≡ a
        → all_digits digits ≡ b
        → (if a || not b then refused not_digits else taken (43 ∷ digits)) ≡ taken code
        → IsPrefix code
    by_tests true b h k e = absurd cc
    by_tests false false h k e = absurd cc
    by_tests false true h k e = record {
      digits = digits;
      splits = sym (taken-eq-taken e);
      some_digit = h;
      only_digits = k;
    }

parse_code-IsPrefix : (tok code : Text) → parse_code tok ≡ taken code → IsPrefix code
unfolding parse_code
parse_code-IsPrefix [] code e = absurd cc
parse_code-IsPrefix (c ∷ tok) code e = check_digits-IsPrefix (after_plus (c ∷ tok)) code e

-- One more token.
parsed-ArePrefixes :
    (o : Codes Text) (r : Codes (List Text)) (result : List Text)
    → ((code : Text) → o ≡ taken code → IsPrefix code)
    → ((rest : List Text) → r ≡ taken rest → ArePrefixes rest)
    → elim o [ taken code ↦ first_code r code | refused e ↦ refused e ] ≡ taken result
    → (is_empty result ≡ false) × ArePrefixes result
parsed-ArePrefixes (taken code) (taken rest) result p q h =
    subst (λ (cs : List Text). (is_empty cs ≡ false) × ArePrefixes cs) (taken-eq-taken h)
      (refl, (p code refl, q rest refl))
parsed-ArePrefixes (taken code) (refused e) result p q h = absurd cc
parsed-ArePrefixes (refused e) r result p q h = absurd cc

parse_codes-ArePrefixes :
    (tokens result : List Text) → parse_codes tokens ≡ taken result → ArePrefixes result
unfolding parse_codes
parse_codes-ArePrefixes [] result h = subst ArePrefixes (taken-eq-taken h) tt
parse_codes-ArePrefixes (tok ∷ tokens) result h =
    (parsed-ArePrefixes (parse_code (trim_space tok)) (parse_codes tokens) result
      (parse_code-IsPrefix (trim_space tok)) (parse_codes-ArePrefixes tokens) h).1

tokens-ArePrefixes :
    (tokens result : List Text)
    → is_empty tokens ≡ false
    → parse_codes tokens ≡ taken result
    → (is_empty result ≡ false) × ArePrefixes result
unfolding parse_codes
tokens-ArePrefixes [] result full h = absurd cc
tokens-ArePrefixes (tok ∷ tokens) result full h =
    parsed-ArePrefixes (parse_code (trim_space tok)) (parse_codes tokens) result
      (parse_code-IsPrefix (trim_space tok)) (parse_codes-ArePrefixes tokens) h

split_at-full : (c : ℕ) (s : Text) → is_empty (split_at c s) ≡ false
unfolding split_at
split_at-full c [] = refl
split_at-full c (b ∷ s) = by_byte (b == c) (split_at c s)
  where
    by_byte :
        (t : Bool) (parts : List Text)
        → is_empty (
            if t
            then [] ∷ parts
            else elim parts [ [] ↦ (b ∷ []) ∷ [] | part ∷ more ↦ (b ∷ part) ∷ more ])
          ≡ false
    by_byte true parts = refl
    by_byte false [] = refl
    by_byte false (part ∷ more) = refl

-- Where `ParseAllowedCountryCodes` accepts the option, it gives at least one prefix, and each is a
-- plus sign followed by digits only, at least one, so that the guard never falls back to an empty list
-- or an empty prefix.
pub parse_allowed_country_codes-ArePrefixes :
    (csv : Text) (result : List Text)
    → parse_allowed_country_codes csv ≡ taken result
    → (is_empty result ≡ false) × ArePrefixes result
unfolding parse_allowed_country_codes
parse_allowed_country_codes-ArePrefixes csv result = by_blank (is_empty (trim_space csv))
  where
    by_blank :
        (b : Bool)
        → (if b then refused list_empty else parse_codes (split_at 44 csv)) ≡ taken result
        → (is_empty result ≡ false) × ArePrefixes result
    by_blank true h = absurd cc
    by_blank false h = tokens-ArePrefixes (split_at 44 csv) result (split_at-full 44 csv) h
