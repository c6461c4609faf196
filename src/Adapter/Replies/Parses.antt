-- ===== src/Adapter/Replies/Parses.antt =====
-- internal/twilioadapter/webhook_handler.go: `ParseReplyIntent` against the grammar of replies.
use request_sudo.Base.{
  ℕ, ◌≤◌, ◌≡◌, refl, ap, sym, subst, ◌∙◌, Bool, true, [], ◌∷◌, ◌++◌, Option, none, some, Text,
  length, arith, inl, inr, ◌⊎◌, if◌then◌else◌,
}
use request_sudo.Adapter.Replies.{
  ReplyIntent, unknown, approve, deny, is_re_space, is_digit, skip_spaces, match_code, match_spaced,
  match_yes, match_no, re_yes_code, re_no_code, re_digits, by_matches, parse_reply_intent,
}
use request_sudo.Adapter.Replies.Grammar.{
  All, IsYes, yes_ascii, yes_long, IsNo, no_ascii, IsCoded, IsSpoken, IsBare, Says, says_yes,
  says_no, says_code, skip_spaces-append, skip_spaces-splits, match_code-IsCoded,
  IsCoded-match_code,
}
use request_sudo.Adapter.Replies.Words.{
  match_yes-IsYes, match_no-IsNo, IsYes-match_yes, IsNo-match_no, no_other, code_is_no_word, Took,
}

-- The first byte of a word or of a code is no space.
starts_yes : (word s : Text) → IsYes word → skip_spaces (word ++ s) ≡ word ++ s
unfolding skip_spaces is_re_space
starts_yes _ s' (yes_ascii y e s hy he hs) = ground arith
starts_yes _ s' (yes_long y e s t hy he hs ht) = ground arith

starts_no : (word s : Text) → IsNo word → skip_spaces (word ++ s) ≡ word ++ s
unfolding skip_spaces is_re_space
starts_no _ s (no_ascii n o hn ho) = ground arith

starts_code : (coded code : Text) → IsCoded coded code → skip_spaces coded ≡ coded
starts_code coded code c = rw c.splits (digit_first code c.after c.is_code.0 c.is_code.1)
  where
    digit_first :
        (code after : Text)
        → All is_digit code
        → 4 ≤ length code
        → skip_spaces (code ++ after) ≡ code ++ after
    digit_first [] after d h = absurd (omega arith)
    digit_first (c ∷ cs) after (d, ds) h = unfold skip_spaces is_re_space is_digit in ground arith

match_spaced-spoken :
    (space : ℕ) (gap coded code : Text)
    → is_re_space space ≡ true
    → All is_re_space gap
    → IsCoded coded code
    → match_spaced (some (space ∷ (gap ++ coded))) ≡ some code
unfolding match_spaced
match_spaced-spoken space gap coded code h hs c =
    rw (h, skip_spaces-append gap coded hs, starts_code coded code c)
      (match_code-IsCoded coded code c)

re_yes_code-spoken : (body code : Text) → IsSpoken IsYes body code → re_yes_code body ≡ some code
unfolding re_yes_code
re_yes_code-spoken body code k =
    rw
      (
        k.splits,
        skip_spaces-append k.before (k.word ++ (k.space ∷ (k.gap ++ k.coded))) k.spaces_before,
        starts_yes k.word (k.space ∷ (k.gap ++ k.coded)) k.is_word,
        match_yes-IsYes k.word k.space (k.gap ++ k.coded) k.is_word,
      )
      (match_spaced-spoken k.space k.gap k.coded code k.is_space k.spaces_gap k.is_coded)

re_no_code-spoken : (body code : Text) → IsSpoken IsNo body code → re_no_code body ≡ some code
unfolding re_no_code
re_no_code-spoken body code k =
    rw
      (
        k.splits,
        skip_spaces-append k.before (k.word ++ (k.space ∷ (k.gap ++ k.coded))) k.spaces_before,
        starts_no k.word (k.space ∷ (k.gap ++ k.coded)) k.is_word,
        match_no-IsNo k.word (k.space ∷ (k.gap ++ k.coded)) k.is_word,
      )
      (match_spaced-spoken k.space k.gap k.coded code k.is_space k.spaces_gap k.is_coded)

re_digits-bare : (body code : Text) → IsBare body code → re_digits body ≡ some code
unfolding re_digits
re_digits-bare body code k =
    rw
      (
        k.splits,
        skip_spaces-append k.before k.coded k.spaces_before,
        starts_code k.coded code k.is_coded,
      )
      (match_code-IsCoded k.coded code k.is_coded)

spaced :
    (space : ℕ) (s code : Text)
    → match_spaced (some (space ∷ s)) ≡ some code
    → (is_re_space space ≡ true) × (match_code (skip_spaces s) ≡ some code)
unfolding match_spaced
spaced space s code h = go (is_re_space space) (match_code (skip_spaces s)) h
  where
    go :
        (b : Bool) (o : Option Text)
        → (if b then o else none) ≡ some code
        → (b ≡ true) × (o ≡ some code)
    go b o k = ground arith

-- The whole of a body in which a word was matched.
spoken :
    (IsWord : Text → Type 0) (body code : Text) (o : Option Text)
    → ((rest : Text) → o ≡ some rest → Took IsWord (skip_spaces body) rest)
    → match_spaced o ≡ some code
    → IsSpoken IsWord body code
spoken IsWord body code none took h = absurd (unfold match_spaced in cc)
spoken IsWord body code (some []) took h = absurd (unfold match_spaced in cc)
spoken IsWord body code (some (space ∷ s)) took h =
    let (before, same, spaces) = skip_spaces-splits body in
    let (word, is_word, cut) = took (space ∷ s) refl in
    let (gap, same', spaces') = skip_spaces-splits s in
    let (is_space, found) = spaced space s code h in
    record {
      before = before;
      word = word;
      space = space;
      gap = gap;
      coded = skip_spaces s;
      splits = same ∙ ap (λ t. before ++ t) (cut ∙ ap (λ t. word ++ (space ∷ t)) same');
      spaces_before = spaces;
      is_word = is_word;
      is_space = is_space;
      spaces_gap = spaces';
      is_coded = IsCoded-match_code (skip_spaces s) code found;
    }

by_yes :
    {o : Option Text} (p q : Option Text) {code : Text}
    → o ≡ some code
    → by_matches o p q ≡ (approve, code)
by_yes p q h = rw h refl

by_no :
    {o p : Option Text} (q : Option Text) {code : Text}
    → o ≡ none
    → p ≡ some code
    → by_matches o p q ≡ (deny, code)
by_no q h k = rw (h, k) refl

by_code :
    {o p q : Option Text} {code : Text}
    → o ≡ none
    → p ≡ none
    → q ≡ some code
    → by_matches o p q ≡ (approve, code)
by_code h k l = rw (h, k, l) refl

spoken_no_other : (body code : Text) → IsSpoken IsNo body code → re_yes_code body ≡ none
unfolding re_yes_code
spoken_no_other body code k =
    rw
      (
        k.splits,
        skip_spaces-append k.before (k.word ++ (k.space ∷ (k.gap ++ k.coded))) k.spaces_before,
        starts_no k.word (k.space ∷ (k.gap ++ k.coded)) k.is_word,
        no_other k.word (k.space ∷ (k.gap ++ k.coded)) k.is_word,
      )
      refl

bare_is_no_word :
    (body code : Text) → IsBare body code → (re_yes_code body ≡ none) × (re_no_code body ≡ none)
unfolding re_yes_code re_no_code
bare_is_no_word body code k =
    let (h, l) = code_is_no_word k.coded code k.is_coded in
    rw
      (
        k.splits,
        skip_spaces-append k.before k.coded k.spaces_before,
        starts_code k.coded code k.is_coded,
        h,
        l,
      )
      (refl, refl)

IsSpoken-re_yes_code : (body code : Text) → re_yes_code body ≡ some code → IsSpoken IsYes body code
unfolding re_yes_code
IsSpoken-re_yes_code body code h =
    spoken IsYes body code (match_yes (skip_spaces body)) (IsYes-match_yes (skip_spaces body)) h

IsSpoken-re_no_code : (body code : Text) → re_no_code body ≡ some code → IsSpoken IsNo body code
unfolding re_no_code
IsSpoken-re_no_code body code h =
    spoken IsNo body code (match_no (skip_spaces body)) (IsNo-match_no (skip_spaces body)) h

bare : (body code : Text) → re_digits body ≡ some code → IsBare body code
unfolding re_digits
bare body code h =
    let (before, same, spaces) = skip_spaces-splits body in
    record {
      before = before;
      coded = skip_spaces body;
      splits = same;
      spaces_before = spaces;
      is_coded = IsCoded-match_code (skip_spaces body) code h;
    }

move :
    {body c d : Text} {i j : ReplyIntent}
    → Says body i c
    → ◌≡◌ {A = ReplyIntent × Text} (i, c) (j, d)
    → Says body j d
move {body} s h = subst (λ (r : ReplyIntent × Text). Says body r.0 r.1) h s

-- `ParseReplyIntent` reads exactly the bodies of the grammar, with their intent and code: a word and a
-- code of four to eight digits with space between them, or the code alone, and nothing else but space
-- around them. On all other bodies it answers `unknown`.
pub parse_reply_intent-Says :
    (body : Text) (intent : ReplyIntent) (code : Text)
    → (Says body intent code → parse_reply_intent body ≡ (intent, code))
      × (parse_reply_intent body ≡ (intent, code)
          → Says body intent code ⊎ ((intent ≡ unknown) × (code ≡ [])))
unfolding parse_reply_intent
parse_reply_intent-Says body intent code =
    (reads, read (re_yes_code body) (re_no_code body) (re_digits body) refl refl refl)
  where
    reads :
        {i : ReplyIntent} {c : Text}
        → Says body i c
        → by_matches (re_yes_code body) (re_no_code body) (re_digits body) ≡ (i, c)
    reads (says_yes k) = by_yes _ _ (re_yes_code-spoken body _ k)
    reads (says_no k) = by_no _ (spoken_no_other body _ k) (re_no_code-spoken body _ k)
    reads (says_code k) =
        let (no_yes_word, no_no_word) = bare_is_no_word body _ k in
        by_code no_yes_word no_no_word (re_digits-bare body _ k)

    read :
        (o p q : Option Text)
        → re_yes_code body ≡ o
        → re_no_code body ≡ p
        → re_digits body ≡ q
        → by_matches o p q ≡ (intent, code)
        → Says body intent code ⊎ ((intent ≡ unknown) × (code ≡ []))
    read (some c) p q yes_code h k h' =
        inl (move (says_yes (IsSpoken-re_yes_code body c yes_code)) h')
    read none (some c) q h no_code k h' =
        inl (move (says_no (IsSpoken-re_no_code body c no_code)) h')
    read none none (some c) h k digits h' = inl (move (says_code (bare body c digits)) h')
    read none none none h k l h' = inr (sym (ap (λ r. r.0) h'), sym (ap (λ r. r.1) h'))
