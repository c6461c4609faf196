-- ===== src/Adapter/Replies/Grammar.antt =====
-- internal/twilioadapter/webhook_handler.go: the replies that `ParseReplyIntent` reads, as a grammar.
use request_sudo.Base.{
  ℕ, ◌≤◌, ◌≡◌, refl, ap, sym, subst, ◌∙◌, Bool, true, ◌&&◌, [], ◌∷◌, ◌++◌, append-nil, none, some,
  Text, length, is_empty, leb, arith, inl, inr, ◌⊎◌, Bool-cases, if◌then◌else◌,
}
use request_sudo.Adapter.Replies.{
  ReplyIntent, approve, deny, is_re_space, is_digit, skip_spaces, span_digits, match_code,
}

-- Every byte passes the test.
abbrev pub All : (ℕ → Bool) → Text → Type 0
All p [] = Unit {0}
All p (c ∷ s) = (p c ≡ true) × All p s

-- Four to eight digits.
abbrev pub IsCode : Text → Type 0
IsCode code = All is_digit code × (4 ≤ length code) × (length code ≤ 8)

-- One of the two letters.
abbrev pub Letter : ℕ → ℕ → ℕ → Type 0
Letter lower upper c = (c ≡ lower) ⊎ (c ≡ upper)

-- The ways to write the two words.
pub data IsYes : Text → Type 0 where
  yes_ascii :
      (y e s : ℕ)
      → Letter b'y' b'Y' y
      → Letter b'e' b'E' e
      → Letter b's' b'S' s
      → IsYes (y ∷ e ∷ s ∷ [])
  yes_long :
      (y e s t : ℕ)
      → Letter b'y' b'Y' y
      → Letter b'e' b'E' e
      → s ≡ 0xC5
      → t ≡ 0xBF
      → IsYes (y ∷ e ∷ s ∷ t ∷ [])

pub data IsNo : Text → Type 0 where
  no_ascii : (n o : ℕ) → Letter b'n' b'N' n → Letter b'o' b'O' o → IsNo (n ∷ o ∷ [])

-- A code, perhaps with spaces behind it.
pub record IsCoded (body code : Text) : Type 0 where
  pub after : Text
  pub splits : body ≡ code ++ after
  pub is_code : IsCode code
  pub spaces_after : All is_re_space after

-- A word and a code, with space between them and perhaps around them.
pub record IsSpoken (IsWord : Text → Type 0) (body code : Text) : Type 0 where
  pub before : Text
  pub word : Text
  pub space : ℕ
  pub gap : Text
  pub coded : Text
  pub splits : body ≡ before ++ (word ++ (space ∷ (gap ++ coded)))
  pub spaces_before : All is_re_space before
  pub is_word : IsWord word
  pub is_space : is_re_space space ≡ true
  pub spaces_gap : All is_re_space gap
  pub is_coded : IsCoded coded code

-- A code, perhaps with spaces around it.
pub record IsBare (body code : Text) : Type 0 where
  pub before : Text
  pub coded : Text
  pub splits : body ≡ before ++ coded
  pub spaces_before : All is_re_space before
  pub is_coded : IsCoded coded code

-- What a body says.
pub data Says : Text → ReplyIntent → Text → Type 0 where
  says_yes : {body code : Text} → IsSpoken IsYes body code → Says body approve code
  says_no : {body code : Text} → IsSpoken IsNo body code → Says body deny code
  says_code : {body code : Text} → IsBare body code → Says body approve code

pub skip_spaces-append :
    (spaces s : Text) → All is_re_space spaces → skip_spaces (spaces ++ s) ≡ skip_spaces s
unfolding skip_spaces
skip_spaces-append [] s h = refl
skip_spaces-append (c ∷ cs) s (h, hs) = rw h (skip_spaces-append cs s hs)

pub skip_spaces-All : (spaces : Text) → All is_re_space spaces → skip_spaces spaces ≡ []
unfolding skip_spaces
skip_spaces-All [] h = refl
skip_spaces-All (c ∷ cs) (h, hs) = rw h (skip_spaces-All cs hs)

-- What `skip_spaces` has taken off.
pub skip_spaces-splits :
    (s : Text) → (spaces : Text) × (s ≡ spaces ++ skip_spaces s) × All is_re_space spaces
unfolding skip_spaces
skip_spaces-splits [] = ([], refl, tt)
skip_spaces-splits (c ∷ s) =
    let (spaces, same, h) = skip_spaces-splits s in
    elim (Bool-cases (is_re_space c)) [
      | inl yes_space ↦ rw yes_space (c ∷ spaces, ap (λ t. c ∷ t) same, (yes_space, h))
      | inr other ↦ rw other ([], refl, tt)
    ]

All-skip_spaces : (s : Text) → is_empty (skip_spaces s) ≡ true → All is_re_space s
All-skip_spaces s h =
    let (spaces, same, all) = skip_spaces-splits s in
    subst (All is_re_space)
      (sym (same ∙ ap (λ t. spaces ++ t) (empty (skip_spaces s) h) ∙ append-nil spaces)) all
  where
    empty : (t : Text) → is_empty t ≡ true → t ≡ []
    empty [] e = refl
    empty (c ∷ t) e = cc

span_digits-append :
    (digits after : Text)
    → All is_digit digits
    → All is_re_space after
    → span_digits (digits ++ after) ≡ (digits, after)
unfolding span_digits is_re_space is_digit
span_digits-append [] [] d h = refl
span_digits-append [] (c ∷ s) d (h, hs) = ground arith
span_digits-append (c ∷ cs) after (d, ds) h = rw (span_digits-append cs after ds h) (rw d refl)

span_digits-splits :
    (s : Text) → (s ≡ (span_digits s).0 ++ (span_digits s).1) × All is_digit (span_digits s).0
unfolding span_digits
span_digits-splits [] = (refl, tt)
span_digits-splits (c ∷ s) =
    let (same, h) = span_digits-splits s in
    elim (Bool-cases (is_digit c)) [
      | inl digit ↦ rw digit (ap (λ t. c ∷ t) same, (digit, h))
      | inr other ↦ rw other (refl, tt)
    ]

pub match_code-IsCoded : (s code : Text) → IsCoded s code → match_code s ≡ some code
unfolding match_code
match_code-IsCoded s code c =
    let (digits, lo, hi) = c.is_code in
    rw
      (
        c.splits,
        span_digits-append code c.after digits c.spaces_after,
        skip_spaces-All c.after c.spaces_after,
      )
      (ground arith)

pub IsCoded-match_code : (s code : Text) → match_code s ≡ some code → IsCoded s code
unfolding match_code
IsCoded-match_code s code h =
    let (same, digits) = span_digits-splits s in
    go (span_digits s).0 (span_digits s).1 same digits h
  where
    go :
        (ds rest : Text)
        → s ≡ ds ++ rest
        → All is_digit ds
        → (if leb 4 (length ds) && leb (length ds) 8 && is_empty (skip_spaces rest)
            then some ds
            else none)
          ≡ some code
        → IsCoded s code
    go ds rest same digits h =
        let (lo, hi, over, is) = tests ds (is_empty (skip_spaces rest)) h in
        record {
          after = rest;
          splits = same ∙ ap (λ t. t ++ rest) is;
          is_code = subst IsCode is (digits, lo, hi);
          spaces_after = All-skip_spaces rest over;
        }
      where
        tests :
            (ds : Text) (b : Bool)
            → (if leb 4 (length ds) && leb (length ds) 8 && b then some ds else none) ≡ some code
            → (4 ≤ length ds) × (length ds ≤ 8) × (b ≡ true) × (ds ≡ code)
        tests ds b h = ground arith
