-- ===== src/Adapter/Phones/Country.antt =====
-- internal/twilioadapter/country_guard.go: what the guard lets through.
use request_sudo.Base.{
  ◌≡◌, refl, ap, ◌∙◌, Bool, true, false, not, ◌&&◌, ◌||◌, List, [], ◌∷◌, Text, codes, length,
  is_empty, ltb, arith, inl, inr, Bool-cases, if◌then◌else◌,
}
use request_sudo.Base.Lines.{has_prefix}
use request_sudo.Adapter.Phones.{best_prefix, is_allowed_country}

-- Some entry of the list is not empty and begins the phone number.
unfoldable pub some_prefix : Text → List Text → Bool
some_prefix phone [] = false
some_prefix phone (prefix ∷ allowed) =
    (not (is_empty prefix) && has_prefix phone prefix) || some_prefix phone allowed

step :
    (best prefix : Text) (h : Bool)
    → not (is_empty (if h && ltb (length best) (length prefix) then prefix else best))
      ≡ (not (is_empty best) || (not (is_empty prefix) && h))
step [] [] true = refl
step [] [] false = refl
step [] (p ∷ ps) true = ground arith
step [] (p ∷ ps) false = refl
step (b ∷ bs) prefix false = refl
step (b ∷ bs) [] true = ground arith
step (b ∷ bs) (p ∷ ps) true = elim (Bool-cases (ltb (length (b ∷ bs)) (length (p ∷ ps)))) [
  | inl longer ↦ rw longer refl
  | inr shorter ↦ rw shorter refl
]

or_assoc : (a b c : Bool) → ((a || b) || c) ≡ (a || (b || c))
or_assoc true b c = refl
or_assoc false b c = refl

best_prefix-some_prefix :
    (phone best : Text) (allowed : List Text)
    → not (is_empty (best_prefix phone best allowed))
      ≡ (not (is_empty best) || some_prefix phone allowed)
unfolding best_prefix some_prefix
best_prefix-some_prefix phone [] [] = refl
best_prefix-some_prefix phone (b ∷ bs) [] = refl
best_prefix-some_prefix phone best (prefix ∷ allowed) =
    best_prefix-some_prefix phone
      (if has_prefix phone prefix && ltb (length best) (length prefix) then prefix else best)
      allowed
    ∙ ap (λ b. b || some_prefix phone allowed) (step best prefix (has_prefix phone prefix))
    ∙ or_assoc (not (is_empty best)) (not (is_empty prefix) && has_prefix phone prefix)
        (some_prefix phone allowed)

-- `IsAllowedCountry` accepts exactly the numbers that begin with a plus sign and with some entry of the
-- list that is not empty: which entry is the longest does not matter, and an empty list accepts none.
pub is_allowed_country-some_prefix :
    (phone : Text) (allowed : List Text)
    → is_allowed_country phone allowed ≡ (has_prefix phone (codes "+") && some_prefix phone allowed)
unfolding is_allowed_country some_prefix
is_allowed_country-some_prefix phone allowed = by_plus (has_prefix phone (codes "+")) allowed
  where
    by_plus :
        (b : Bool) (ps : List Text)
        → (if not b
            then false
            else if is_empty ps
            then false
            else not (is_empty (best_prefix phone [] ps)))
          ≡ (b && some_prefix phone ps)
    by_plus false ps = refl
    by_plus true [] = refl
    by_plus true (p ∷ ps) = best_prefix-some_prefix phone [] (p ∷ ps)
