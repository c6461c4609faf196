-- ===== src/Adapter/Phones/Recipients.antt =====
-- internal/twilioadapter/approvers.go: the recipients that `LookupRecipients` gives.
use request_sudo.Base.{
  ◌≡◌, refl, Bool, true, false, ◌||◌, List, [], ◌∷◌, ◌++◌, Option, none, some, Text, text_eq,
  text_eq_iff, lookup, contains, is_empty, arith, if◌then◌else◌,
}
use request_sudo.Base.Trim.{trim_space}
use request_sudo.Adapter.Phones.{
  ApproversPolicy, add_phones, add_members, phones_of, recipients_of_set, recipients_of_route,
  lookup_recipients,
}

-- No number is empty, and none stands in the list again.
abbrev pub Distinct : List Text → Type 0
Distinct [] = Unit {0}
Distinct (x ∷ xs) = (is_empty x ≡ false) × (contains xs x ≡ false) × Distinct xs

contains-snoc :
    (xs : List Text) (x y : Text) → contains (xs ++ x ∷ []) y ≡ (contains xs y || text_eq x y)
unfolding contains
contains-snoc [] x y = ground arith
contains-snoc (z ∷ xs) x y = ground (arith, contains-snoc xs x y)

Distinct-snoc :
    (xs : List Text) (x : Text)
    → Distinct xs
    → is_empty x ≡ false
    → contains xs x ≡ false
    → Distinct (xs ++ x ∷ [])
unfolding contains
Distinct-snoc [] x d full fresh = (full, refl, tt)
Distinct-snoc (z ∷ xs) x (full_z, fresh_z, d) full fresh = (
  full_z,
  ground (arith, contains-snoc xs x z, text_eq_iff x z, text_eq_iff z x, fresh, fresh_z),
  Distinct-snoc xs x d full (ground (arith, fresh)),
)

add_phones-Distinct : (out numbers : List Text) → Distinct out → Distinct (add_phones out numbers)
unfolding add_phones
add_phones-Distinct out [] d = d
add_phones-Distinct out (phone ∷ rest) d =
    let number = trim_space phone in
    add_phones-Distinct (if is_empty number || contains out number then out else out ++ number ∷ [])
      rest (added (is_empty number) (contains out number) refl refl)
  where
    added :
        (a b : Bool)
        → is_empty (trim_space phone) ≡ a
        → contains out (trim_space phone) ≡ b
        → Distinct (if a || b then out else out ++ trim_space phone ∷ [])
    added true b h k = d
    added false true h k = d
    added false false h k = Distinct-snoc out (trim_space phone) d h k

add_members-Distinct :
    (policy : ApproversPolicy) (out members : List Text)
    → Distinct out
    → Distinct (add_members policy out members)
unfolding add_members
add_members-Distinct policy out [] d = d
add_members-Distinct policy out (member ∷ members) d =
    add_members-Distinct policy (add_phones out (phones_of (lookup member policy.phones))) members
      (add_phones-Distinct out (phones_of (lookup member policy.phones)) d)

-- Whatever the policy says, `LookupRecipients` gives no empty number and no number twice.
pub lookup_recipients-Distinct :
    (policy : ApproversPolicy) (requester : Text) → Distinct (lookup_recipients policy requester)
unfolding lookup_recipients recipients_of_route recipients_of_set
lookup_recipients-Distinct policy requester = by_route (lookup requester policy.routing)
  where
    by_set : (o : Option (List Text)) → Distinct (recipients_of_set policy o)
    by_set none = tt
    by_set (some members) = add_members-Distinct policy [] members tt

    by_route : (o : Option Text) → Distinct (recipients_of_route policy o)
    by_route none = tt
    by_route (some set_name) = by_set (lookup set_name policy.approver_sets)
