-- ===== src/Adapter/Replies.antt =====
-- internal/twilioadapter/webhook_handler.go: `ParseReplyIntent`, its three regular expressions as
-- functions on bytes.
pub mod Grammar
pub mod Words
pub mod Parses
use request_sudo.Base.{
  ℕ, Bool, true, false, ◌&&◌, ◌||◌, List, [], ◌∷◌, Option, none, some, Text, length, is_empty, leb,
  ◌==◌, if◌then◌else◌,
}

pub data ReplyIntent : Type 0 where
  unknown approve deny : ReplyIntent

-- `\s`: tab, newline, form feed, carriage return, space.
unfoldable pub is_re_space : ℕ → Bool
is_re_space c = c == 9 || c == 10 || c == 12 || c == 13 || c == 32

-- `\d`
unfoldable pub is_digit : ℕ → Bool
is_digit c = leb b'0' c && leb c b'9'

-- `\s*`
unfoldable pub skip_spaces : Text → Text
unfolding is_re_space
skip_spaces [] = []
skip_spaces (c ∷ s) = let rest = skip_spaces s in if is_re_space c then rest else c ∷ s

-- The digits that a text begins with, and the rest of it.
unfoldable pub span_digits : Text → Text × Text
unfolding is_digit
span_digits [] = ([], [])
span_digits (c ∷ s) =
    let (digits, rest) = span_digits s in if is_digit c then (c ∷ digits, rest) else ([], c ∷ s)

-- `(\d{4,8})\s*\z`
unfoldable pub match_code : Text → Option Text
unfolding skip_spaces span_digits
match_code s =
    let (digits, rest) = span_digits s in
    if leb 4 (length digits) && leb (length digits) 8 && is_empty (skip_spaces rest)
    then some digits
    else none

-- `\s+(\d{4,8})\s*\z`
unfoldable pub match_spaced : Option Text → Option Text
unfolding match_code is_re_space
match_spaced none = none
match_spaced (some []) = none
match_spaced (some (c ∷ s)) = if is_re_space c then match_code (skip_spaces s) else none

-- `(?i:yes)`: case folding takes the long s (bytes 197 and 191) for an s too.
unfoldable pub match_yes : Text → Option Text
match_yes (y ∷ e ∷ s ∷ []) =
    if (y == b'y' || y == b'Y') && (e == b'e' || e == b'E') && (s == b's' || s == b'S')
    then some []
    else none
match_yes (y ∷ e ∷ s ∷ t ∷ rest) =
    if (y == b'y' || y == b'Y') && (e == b'e' || e == b'E')
    then (if s == b's' || s == b'S'
        then some (t ∷ rest)
        else if s == 0xC5 && t == 0xBF
        then some rest
        else none)
    else none
match_yes _ = none

-- `(?i:no)`
unfoldable pub match_no : Text → Option Text
match_no (n ∷ o ∷ rest) =
    if (n == b'n' || n == b'N') && (o == b'o' || o == b'O') then some rest else none
match_no _ = none

-- `reYesCode`, `reNoCode` and `reDigits`: the text of the group.
unfoldable pub re_yes_code : Text → Option Text
unfolding match_spaced match_yes skip_spaces
re_yes_code body = match_spaced (match_yes (skip_spaces body))

unfoldable pub re_no_code : Text → Option Text
unfolding match_spaced match_no skip_spaces
re_no_code body = match_spaced (match_no (skip_spaces body))

unfoldable pub re_digits : Text → Option Text
unfolding match_code skip_spaces
re_digits body = match_code (skip_spaces body)

abbrev pub by_matches : Option Text → Option Text → Option Text → ReplyIntent × Text
by_matches (some code) no_code digits = (approve, code)
by_matches none (some code) digits = (deny, code)
by_matches none none (some code) = (approve, code)
by_matches none none none = (unknown, [])

-- `ParseReplyIntent`
unfoldable pub parse_reply_intent : Text → ReplyIntent × Text
unfolding re_yes_code re_no_code re_digits
parse_reply_intent body = by_matches (re_yes_code body) (re_no_code body) (re_digits body)
