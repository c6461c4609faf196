-- ===== src/Base/Trim/Clean.antt =====
-- `strings.TrimSpace`, `strings.Split` and `strings.Join` of Go's standard library on texts of ASCII
-- bytes that are no spaces.
use Prim.Native.Nat.{ℕ, zero, suc, ◌≤◌, ◌<◌}
use mathlib.Core.Path.{◌≡◌, refl}
use mathlib.Core.Bool.{true, false}
use mathlib.Core.Option.{Option, none}
use mathlib.Core.List.{List, [], ◌∷◌, ◌++◌, reverse, reverse_aux, reverse-reverse}
use native.Mathlib.Omega.{arith}
use request_sudo.Base.Tests.{◌==◌}
use request_sudo.Base.Bytes.{Text}
use request_sudo.Base.Lists.{length}
use request_sudo.Base.Lines.{split_at}
use request_sudo.Base.Trim.{skip_space, skip_space_back, skip_all, trim_space, join}

-- An ASCII byte that is no space.
abbrev pub Solid : ℕ → Type 0
Solid c = (33 ≤ c) × (c < 128)

abbrev pub AllSolid : Text → Type 0
AllSolid [] = Unit {0}
AllSolid (c ∷ s) = Solid c × AllSolid s

skip_space-solid : (s : Text) → AllSolid s → skip_space s ≡ none
unfolding skip_space
skip_space-solid [] h = refl
skip_space-solid (a ∷ []) ((low, high), h) = ground arith
skip_space-solid (a ∷ b ∷ []) ((low, high), h) = ground arith
skip_space-solid (a ∷ b ∷ c ∷ s) ((low, high), h) = ground arith

skip_space_back-solid : (s : Text) → AllSolid s → skip_space_back s ≡ none
unfolding skip_space_back
skip_space_back-solid [] h = refl
skip_space_back-solid (a ∷ []) ((low, high), h) = ground arith
skip_space_back-solid (a ∷ b ∷ []) ((low, high), h) = ground arith
skip_space_back-solid (a ∷ b ∷ c ∷ s) ((low, high), h) = ground arith

skip_all-none :
    (skip : Text → Option Text) (f : ℕ) (s : Text) → skip s ≡ none → skip_all skip f s ≡ s
unfolding skip_all
skip_all-none skip zero s h = refl
skip_all-none skip (suc f) s h = rw (h, skip_all) refl

AllSolid-reverse_aux : (s r : Text) → AllSolid s → AllSolid r → AllSolid (reverse_aux s r)
AllSolid-reverse_aux [] r h k = k
AllSolid-reverse_aux (c ∷ s) r (h, hs) k = AllSolid-reverse_aux s (c ∷ r) hs (h, k)

pub trim_space-solid : (s : Text) → AllSolid s → trim_space s ≡ s
unfolding trim_space
trim_space-solid s h =
    rw
      (
        skip_all-none skip_space (length s) s (skip_space-solid s h),
        skip_all-none skip_space_back (length s) (reverse s)
            (skip_space_back-solid (reverse s) (AllSolid-reverse_aux s [] h tt)),
      )
      (reverse-reverse s)

-- The separator does not stand in the text.
abbrev pub Free : ℕ → Text → Type 0
Free c [] = Unit {0}
Free c (b ∷ s) = ((b == c) ≡ false) × Free c s

abbrev pub AllFree : ℕ → List Text → Type 0
AllFree c [] = Unit {0}
AllFree c (s ∷ ss) = Free c s × AllFree c ss

split_at-Free : (c : ℕ) (s : Text) → Free c s → split_at c s ≡ s ∷ []
unfolding split_at
split_at-Free c [] h = refl
split_at-Free c (b ∷ s) (h, hs) = rw (h, split_at-Free c s hs) refl

split_at-first :
    (c : ℕ) (s t : Text) → (c == c) ≡ true → Free c s → split_at c (s ++ c ∷ t) ≡ s ∷ split_at c t
unfolding split_at
split_at-first c [] t same h = rw same refl
split_at-first c (b ∷ s) t same (h, hs) = rw (h, split_at-first c s t same hs) refl

pub split_at-join :
    (c : ℕ) (s : Text) (ss : List Text)
    → (c == c) ≡ true
    → AllFree c (s ∷ ss)
    → split_at c (join (c ∷ []) (s ∷ ss)) ≡ s ∷ ss
unfolding join
split_at-join c s [] same (h, hs) = split_at-Free c s h
split_at-join c s (t ∷ ts) same (h, hs) =
    rw (split_at-first c s (join (c ∷ []) (t ∷ ts)) same h, split_at-join c t ts same hs) refl
