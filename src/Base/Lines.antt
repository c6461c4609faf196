-- ===== src/Base/Lines.antt =====
-- Lines of a file, and `strings` of Go's standard library on bytes: cutting, prefixes and quotes.
use Prim.Native.Nat.{ℕ}
use mathlib.Core.Path.{◌≡◌, refl}
use mathlib.Core.Bool.{Bool, true, false, ◌&&◌, ◌||◌}
use mathlib.Core.Option.{Option, none, some}
use mathlib.Core.List.{List, [], ◌∷◌, ◌++◌, reverse}
use request_sudo.Base.Tests.{◌==◌, if◌then◌else◌}
use request_sudo.Base.Bytes.{Text}

-- The lines that end in a newline, and the bytes after the last newline.
abbrev pub put_first : ℕ → List Text × Text → List Text × Text
put_first c ([], last) = ([], c ∷ last)
put_first c (line ∷ lines, last) = ((c ∷ line) ∷ lines, last)

unfoldable pub cut_lines : Text → List Text × Text
cut_lines [] = ([], [])
cut_lines (c ∷ s) =
    let (lines, last) = cut_lines s in
    if c == 10 then ([] ∷ lines, last) else put_first c (lines, last)

-- `strings.HasPrefix(text, prefix)`
unfoldable pub has_prefix : Text → Text → Bool
has_prefix text [] = true
has_prefix [] (p ∷ ps) = false
has_prefix (c ∷ cs) (p ∷ ps) = c == p && has_prefix cs ps

-- `strings.TrimPrefix`
unfoldable pub trim_prefix : Text → Text → Text
trim_prefix text [] = text
trim_prefix text (p ∷ ps) = go text (p ∷ ps) text
  where
    go : Text → Text → Text → Text
    go whole [] rest = rest
    go whole (p ∷ ps) [] = whole
    go whole (p ∷ ps) (c ∷ cs) = if c == p then go whole ps cs else whole

-- `strings.IndexByte(s, c)`: the text before the first such byte, and the text after it.
unfoldable pub cut_at : ℕ → Text → Option (Text × Text)
cut_at c [] = none
cut_at c (b ∷ s) =
    let rest = cut_at c s in
    if b == c
    then some ([], s)
    else elim rest [ none ↦ none | some (before, after) ↦ some (b ∷ before, after) ]

-- `strings.Split(s, sep)`, for a separator of one byte.
unfoldable pub split_at : ℕ → Text → List Text
split_at c [] = [] ∷ []
split_at c (b ∷ s) =
    let parts = split_at c s in
    if b == c
    then [] ∷ parts
    else elim parts [ [] ↦ (b ∷ []) ∷ [] | part ∷ more ↦ (b ∷ part) ∷ more ]

drop_quotes : Text → Text
drop_quotes [] = []
drop_quotes (c ∷ s) = let rest = drop_quotes s in if c == 34 || c == 39 then rest else c ∷ s

-- `strings.Trim(s, "\"'")`
unfoldable pub trim_quotes : Text → Text
unfolding drop_quotes
trim_quotes s = reverse (drop_quotes (reverse (drop_quotes s)))

-- The text without its last byte, if that is the given one: `strings.HasSuffix` with `TrimSuffix`.
unfoldable pub cut_suffix : ℕ → Text → Option Text
cut_suffix c [] = none
cut_suffix c (b ∷ []) = if b == c then some [] else none
cut_suffix c (b ∷ d ∷ s) = elim (cut_suffix c (d ∷ s)) [ none ↦ none | some rest ↦ some (b ∷ rest) ]

-- No byte is a newline.
abbrev pub OneLine : Text → Type 0
OneLine [] = Unit {0}
OneLine (c ∷ s) = ((c == 10) ≡ false) × OneLine s

pub cut_lines-first :
    (s t : Text) → OneLine s → cut_lines (s ++ 10 ∷ t) ≡ (s ∷ (cut_lines t).0, (cut_lines t).1)
unfolding cut_lines
cut_lines-first [] t h = refl
cut_lines-first (c ∷ s) t (h, hs) = rw (h, cut_lines-first s t hs) refl
