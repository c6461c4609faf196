-- ===== src/Base/Trim.antt =====
-- `strings.TrimSpace` and `strings.Join` of Go's standard library, over bytes. A space is a rune that
-- `unicode.IsSpace` accepts, in its UTF-8 form.
pub mod Clean
use Prim.Native.Nat.{ℕ, zero, suc}
use mathlib.Core.Bool.{Bool, ◌&&◌, ◌||◌}
use mathlib.Core.Option.{Option, none, some}
use mathlib.Core.List.{List, [], ◌∷◌, ◌++◌, reverse}
use request_sudo.Base.Tests.{leb, ◌==◌, if◌then◌else◌}
use request_sudo.Base.Bytes.{Text}
use request_sudo.Base.Lists.{length}

-- Tab, newline, vertical tab, form feed, carriage return, space.
unfoldable pub is_ascii_space : ℕ → Bool
is_ascii_space c = c == 32 || (leb 9 c && leb c 13)

-- U+0085, U+00A0.
is_space₂ : ℕ → ℕ → Bool
is_space₂ a b = a == 0xC2 && (b == 0x85 || b == 0xA0)

-- U+1680, U+2000 to U+200A, U+2028, U+2029, U+202F, U+205F, U+3000.
is_space₃ : ℕ → ℕ → ℕ → Bool
is_space₃ a b c =
    (a == 0xE1 && b == 0x9A && c == 0x80)
    || (a == 0xE2
        && b == 0x80
        && ((leb 0x80 c && leb c 0x8A) || c == 0xA8 || c == 0xA9 || c == 0xAF))
    || (a == 0xE2 && b == 0x81 && c == 0x9F)
    || (a == 0xE3 && b == 0x80 && c == 0x80)

-- The text without the space that it begins with; `none` if it begins with none.
skip_space : Text → Option Text
unfolding is_ascii_space is_space₂ is_space₃
skip_space [] = none
skip_space (a ∷ []) = if is_ascii_space a then some [] else none
skip_space (a ∷ b ∷ []) =
    if is_ascii_space a then some (b ∷ []) else if is_space₂ a b then some [] else none
skip_space (a ∷ b ∷ c ∷ s) =
    if is_ascii_space a
    then some (b ∷ c ∷ s)
    else if is_space₂ a b
    then some (c ∷ s)
    else if is_space₃ a b c
    then some s
    else none

-- The same at the end of a text, which is given reversed.
skip_space_back : Text → Option Text
unfolding is_ascii_space is_space₂ is_space₃
skip_space_back [] = none
skip_space_back (a ∷ []) = if is_ascii_space a then some [] else none
skip_space_back (a ∷ b ∷ []) =
    if is_ascii_space a then some (b ∷ []) else if is_space₂ b a then some [] else none
skip_space_back (a ∷ b ∷ c ∷ s) =
    if is_ascii_space a
    then some (b ∷ c ∷ s)
    else if is_space₂ b a
    then some (c ∷ s)
    else if is_space₃ c b a
    then some s
    else none

-- Takes spaces off as long as there are any; each is a byte at least, so the length is enough fuel.
skip_all : (Text → Option Text) → ℕ → Text → Text
skip_all skip zero s = s
skip_all skip (suc f) s = elim (skip s) [ none ↦ s | some r ↦ skip_all skip f r ]

unfoldable pub trim_space : Text → Text
unfolding skip_all skip_space skip_space_back
trim_space s =
    let front : Text = skip_all skip_space (length s) s in
    reverse (skip_all skip_space_back (length front) (reverse front))

unfoldable pub join : Text → List Text → Text
join sep [] = []
join sep (s ∷ []) = s
join sep (s ∷ t ∷ ts) = s ++ (sep ++ join sep (t ∷ ts))
