-- ===== src/Adapter/Phones.antt =====
-- internal/twilioadapter/code.go, country_guard.go and approvers.go: phone numbers.
pub mod Country
pub mod Recipients
use request_sudo.Base.{
  ℕ, ◌+◌, ◌-◌, Bool, true, false, not, ◌&&◌, ◌||◌, List, [], ◌∷◌, ◌++◌, Option, none, some, Text,
  codes, text_eq, Map, lookup, contains, length, take, drop, is_empty, ltb, leb, ◌==◌,
  if◌then◌else◌,
}
use request_sudo.Base.Lines.{has_prefix}
use request_sudo.Base.Trim.{trim_space}

-- `MaskPhone`
unfoldable pub mask_phone : Text → Text
unfolding has_prefix
mask_phone phone =
    if ltb (length phone) 6 || not (has_prefix phone (codes "+"))
    then phone
    else let cc = if ltb 12 (length phone) then 3 else 2 in
      if ltb (length phone) (cc + 4)
      then phone
      else take cc phone ++ (codes "***" ++ drop (length phone - 4) phone)

-- The loop of `IsAllowedCountry`, from the best prefix so far.
unfoldable pub best_prefix : Text → Text → List Text → Text
best_prefix phone best [] = best
best_prefix phone best (prefix ∷ allowed) =
    best_prefix phone
      (if has_prefix phone prefix && ltb (length best) (length prefix) then prefix else best)
      allowed

-- `IsAllowedCountry`
unfoldable pub is_allowed_country : Text → List Text → Bool
unfolding best_prefix has_prefix
is_allowed_country phone allowed =
    if not (has_prefix phone (codes "+"))
    then false
    else if is_empty allowed
    then false
    else not (is_empty (best_prefix phone [] allowed))

-- `ApproversPolicy`
pub record ApproversPolicy : Type 0 where
  pub approver_sets : Map (List Text)
  pub phones : Map (List Text)
  pub routing : Map Text

-- The inner loop of `LookupRecipients`. What it has seen is what it has put out.
unfoldable pub add_phones : List Text → List Text → List Text
add_phones out [] = out
add_phones out (phone ∷ rest) =
    let number = trim_space phone in
    add_phones (if is_empty number || contains out number then out else out ++ number ∷ []) rest

-- `p.Phones[member]`, which is empty for a member that is not there.
unfoldable pub phones_of : Option (List Text) → List Text
phones_of none = []
phones_of (some numbers) = numbers

unfoldable pub add_members : ApproversPolicy → List Text → List Text → List Text
unfolding add_phones phones_of
add_members policy out [] = out
add_members policy out (member ∷ members) =
    add_members policy (add_phones out (phones_of (lookup member policy.phones))) members

unfoldable pub recipients_of_set : ApproversPolicy → Option (List Text) → List Text
unfolding add_members
recipients_of_set policy none = []
recipients_of_set policy (some members) = add_members policy [] members

unfoldable pub recipients_of_route : ApproversPolicy → Option Text → List Text
unfolding recipients_of_set
recipients_of_route policy none = []
recipients_of_route policy (some set_name) =
    recipients_of_set policy (lookup set_name policy.approver_sets)

-- `LookupRecipients`
unfoldable pub lookup_recipients : ApproversPolicy → Text → List Text
unfolding recipients_of_route
lookup_recipients policy requester = recipients_of_route policy (lookup requester policy.routing)
