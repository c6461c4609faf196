-- ===== src/Adapter/Replies/Words.antt =====
-- internal/twilioadapter/webhook_handler.go: the words `yes` and `no` at the start of a body.
use request_sudo.Base.{
  ℕ, ◌<◌, ◌≤◌, ◌≡◌, ◌≢◌, refl, ap, sym, true, [], ◌∷◌, ◌++◌, none, some, Text, length, arith, inl,
  inr, ◌⊎◌,
}
use request_sudo.Adapter.Replies.{is_digit, match_yes, match_no}
use request_sudo.Adapter.Replies.Grammar.{
  All, Letter, IsYes, yes_ascii, yes_long, IsNo, no_ascii, IsCoded,
}

pub match_yes-IsYes :
    (word : Text) (c : ℕ) (rest : Text)
    → IsYes word
    → match_yes (word ++ c ∷ rest) ≡ some (c ∷ rest)
unfolding match_yes
match_yes-IsYes _ c rest (yes_ascii y e s hy he hs) = ground arith
match_yes-IsYes _ c rest (yes_long y e s t hy he hs ht) = ground arith

pub match_no-IsNo : (word rest : Text) → IsNo word → match_no (word ++ rest) ≡ some rest
unfolding match_no
match_no-IsNo _ rest (no_ascii n o hn ho) = ground arith

-- The word that a match has taken off.
abbrev pub Took : (Text → Type 0) → Text → Text → Type 0
Took IsWord body rest = (word : Text) × IsWord word × (body ≡ word ++ rest)

three_letters :
    (y e s : ℕ) (rest : Text)
    → match_yes (y ∷ e ∷ s ∷ []) ≡ some rest
    → Letter b'y' b'Y' y × Letter b'e' b'E' e × Letter b's' b'S' s × (rest ≡ [])
unfolding match_yes
three_letters y e s rest h = ground arith

four_bytes :
    (y e s t : ℕ) (more rest : Text)
    → match_yes (y ∷ e ∷ s ∷ t ∷ more) ≡ some rest
    → Letter b'y' b'Y' y
      × Letter b'e' b'E' e
      × ((Letter b's' b'S' s × (rest ≡ t ∷ more)) ⊎ ((s ≡ 0xC5) × (t ≡ 0xBF) × (rest ≡ more)))
unfolding match_yes
four_bytes y e s t more rest h = ground arith

pub IsYes-match_yes : (body rest : Text) → match_yes body ≡ some rest → Took IsYes body rest
IsYes-match_yes [] rest h = absurd (unfold match_yes in cc)
IsYes-match_yes (y ∷ []) rest h = absurd (unfold match_yes in cc)
IsYes-match_yes (y ∷ e ∷ []) rest h = absurd (unfold match_yes in cc)
IsYes-match_yes (y ∷ e ∷ s ∷ []) rest h =
    let (hy, he, hs, same) = three_letters y e s rest h in
    (y ∷ e ∷ s ∷ [], yes_ascii y e s hy he hs, ap (λ r. y ∷ e ∷ s ∷ r) (sym same))
IsYes-match_yes (y ∷ e ∷ s ∷ t ∷ more) rest h =
    let (hy, he, last) = four_bytes y e s t more rest h in
    elim last [
      | inl (hs, same) ↦
          (y ∷ e ∷ s ∷ [], yes_ascii y e s hy he hs, ap (λ r. y ∷ e ∷ s ∷ r) (sym same))
      | inr (hs, ht, same) ↦
          (y ∷ e ∷ s ∷ t ∷ [], yes_long y e s t hy he hs ht, ap (λ r. y ∷ e ∷ s ∷ t ∷ r) (sym same))
    ]

two_letters :
    (n o : ℕ) (more rest : Text)
    → match_no (n ∷ o ∷ more) ≡ some rest
    → Letter b'n' b'N' n × Letter b'o' b'O' o × (rest ≡ more)
unfolding match_no
two_letters n o more rest h = ground arith

pub IsNo-match_no : (body rest : Text) → match_no body ≡ some rest → Took IsNo body rest
IsNo-match_no [] rest h = absurd (unfold match_no in cc)
IsNo-match_no (n ∷ []) rest h = absurd (unfold match_no in cc)
IsNo-match_no (n ∷ o ∷ more) rest h =
    let (hn, ho, same) = two_letters n o more rest h in
    (n ∷ o ∷ [], no_ascii n o hn ho, ap (λ r. n ∷ o ∷ r) (sym same))

no_yes : (c : ℕ) (s : Text) → c ≢ b'y' → c ≢ b'Y' → match_yes (c ∷ s) ≡ none
unfolding match_yes
no_yes c [] h k = refl
no_yes c (e ∷ []) h k = refl
no_yes c (e ∷ s ∷ []) h k = ground arith
no_yes c (e ∷ s ∷ t ∷ more) h k = ground arith

no_no : (c : ℕ) (s : Text) → c ≢ b'n' → c ≢ b'N' → match_no (c ∷ s) ≡ none
unfolding match_no
no_no c [] h k = refl
no_no c (o ∷ more) h k = ground arith

pub no_other : (word s : Text) → IsNo word → match_yes (word ++ s) ≡ none
no_other _ s (no_ascii n o hn ho) = no_yes n (o ∷ s) (not_y n hn) (not_upper_y n hn)
  where
    not_y : (n : ℕ) → Letter b'n' b'N' n → n ≢ b'y'
    not_y n h k = ground arith

    not_upper_y : (n : ℕ) → Letter b'n' b'N' n → n ≢ b'Y'
    not_upper_y n h k = ground arith

pub code_is_no_word :
    (coded code : Text) → IsCoded coded code → (match_yes coded ≡ none) × (match_no coded ≡ none)
code_is_no_word coded code c = rw c.splits (digit_first code c.after c.is_code.0 c.is_code.1)
  where
    not_letter : (c d : ℕ) → is_digit c ≡ true → b'9' < d → c ≢ d
    not_letter c d h k = unfold is_digit in λ same. absurd (ground arith)

    digit_first :
        (code after : Text)
        → All is_digit code
        → 4 ≤ length code
        → (match_yes (code ++ after) ≡ none) × (match_no (code ++ after) ≡ none)
    digit_first [] after d h = absurd (omega arith)
    digit_first (c ∷ cs) after (d, ds) h = (
      no_yes c (cs ++ after) (not_letter c b'y' d (omega arith))
          (not_letter c b'Y' d (omega arith)),
      no_no c (cs ++ after) (not_letter c b'n' d (omega arith)) (not_letter c b'N' d (omega arith)),
    )
