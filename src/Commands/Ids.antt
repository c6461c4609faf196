-- ===== src/Commands/Ids.antt =====
-- cmd/request-sudod/main.go: the lists of ids that `parseIDs` reads.
use request_sudo.Base.{
  ℕ, zero, suc, ◌+◌, ◌*◌, ◌-◌, ◌/◌, ◌%◌, ◌≤◌, ◌<◌, ◌≡◌, refl, ap, ◌∙◌, Bool, true, false, List, [],
  ◌∷◌, ◌++◌, ◌||◌, Option, none, some, Text, is_empty, ltb, if◌then◌else◌, itoa, decimal_fuel,
  Bool-cases, inl, inr, arith,
}
use request_sudo.Base.Lines.{split_at}
use request_sudo.Base.Trim.{trim_space, join}
use request_sudo.Base.Trim.Clean.{AllSolid, trim_space-solid, Free, AllFree, split_at-join}
use request_sudo.Commands.{
  uint32_limit, digits_value, in_range, parse_uint32, add_id, ids_of, parse_ids, daemon_server,
}
use request_sudo.Core.{PeerIdentity}
use request_sudo.Socket.{has_id, new_server, review_allowed}

-- The bytes of decimal digits.
abbrev pub Digits : Text → Type 0
Digits [] = Unit {0}
Digits (c ∷ s) = (48 ≤ c) × (c < 58) × Digits s

Digits-append : (s t : Text) → Digits s → Digits t → Digits (s ++ t)
Digits-append [] t h k = k
Digits-append (c ∷ s) t (low, high, h) k = (low, high, Digits-append s t h k)

digits_value-snoc :
    (m v r : ℕ) (s : Text)
    → Digits s
    → r < 10
    → digits_value m s ≡ some v
    → digits_value m (s ++ (48 + r) ∷ []) ≡ some (10 * v + r)
unfolding digits_value
digits_value-snoc m v r [] d small h = ground arith
digits_value-snoc m v r (c ∷ s) (low, high, d) small h =
    ground (arith, digits_value-snoc (10 * m + (c - 48)) v r s d small)

-- A numeral of the printer is made of digits, and is read back as its number.
record Reads (n : ℕ) (s : Text) : Type 0 where
  digits : Digits s
  some_digit : is_empty s ≡ false
  value : digits_value 0 s ≡ some n

is_empty-snoc : (s : Text) (c : ℕ) → is_empty (s ++ c ∷ []) ≡ false
is_empty-snoc [] c = refl
is_empty-snoc (b ∷ s) c = refl

decimal_fuel-Reads : (f n : ℕ) → n < f → Reads n (decimal_fuel f n)
unfolding decimal_fuel
decimal_fuel-Reads zero n h = absurd (omega (arith, h))
decimal_fuel-Reads (suc f) n h = elim (Bool-cases (ltb n 10)) [
  | inl small ↦ rw small (one n (below n small))
  | inr large ↦ rw large (
      more n (decimal_fuel f (n / 10))
        (decimal_fuel-Reads f (n / 10) (fewer n f h (above n large))))
]
  where
    below : (n : ℕ) → ltb n 10 ≡ true → n < 10
    below n h = ground arith

    above : (n : ℕ) → ltb n 10 ≡ false → 10 ≤ n
    above n h = ground arith

    fewer : (n f : ℕ) → n < suc f → 10 ≤ n → n / 10 < f
    fewer n f h k = omega arith

    one : (n : ℕ) → n < 10 → Reads n ((48 + n) ∷ [])
    one n h = record {
      digits = (omega arith, omega arith, tt);
      some_digit = refl;
      value = unfold digits_value in ground arith;
    }

    more : (n : ℕ) (s : Text) → Reads (n / 10) s → Reads n (s ++ (48 + n % 10) ∷ [])
    more n s r = record {
      digits = Digits-append s _ r.digits (omega arith, omega arith, tt);
      some_digit = is_empty-snoc s (48 + n % 10);
      value =
          digits_value-snoc 0 (n / 10) (n % 10) s r.digits (omega arith) r.value
          ∙ ap some (omega arith);
    }

itoa-Reads : (n : ℕ) → Reads n (itoa n)
unfolding itoa
itoa-Reads n = decimal_fuel-Reads (suc n) n (omega arith)

-- Digits are no spaces and no commas.
Digits-AllSolid : (s : Text) → Digits s → AllSolid s
Digits-AllSolid [] h = tt
Digits-AllSolid (c ∷ s) (low, high, h) = ((omega arith, omega arith), Digits-AllSolid s h)

Digits-Free : (s : Text) → Digits s → Free 44 s
Digits-Free [] h = tt
Digits-Free (c ∷ s) (low, high, h) = (ground arith, Digits-Free s h)

no_digit : true ≡ false → ⊥
no_digit h = cc

parse_uint32-digits : (n : ℕ) (s : Text) → Reads n s → n < uint32_limit → parse_uint32 s ≡ some n
unfolding parse_uint32
parse_uint32-digits n [] r small = absurd (no_digit r.some_digit)
parse_uint32-digits n (c ∷ s) r small = rw (r.value) (within (ltb n uint32_limit) refl)
  where
    within : (b : Bool) → ltb n uint32_limit ≡ b → in_range (some n) ≡ some n
    within b h = ground arith

pub itoa-parse_uint32 : (n : ℕ) → n < uint32_limit → parse_uint32 (trim_space (itoa n)) ≡ some n
itoa-parse_uint32 n small =
    let r = itoa-Reads n in
    rw (trim_space-solid (itoa n) (Digits-AllSolid (itoa n) r.digits))
      (parse_uint32-digits n (itoa n) r small)

abbrev pub AllSmall : List ℕ → Type 0
AllSmall [] = Unit {0}
AllSmall (id ∷ ids) = (id < uint32_limit) × AllSmall ids

abbrev pub numerals : List ℕ → List Text
numerals [] = []
numerals (id ∷ ids) = itoa id ∷ numerals ids

numerals-AllFree : (ids : List ℕ) → AllFree 44 (numerals ids)
numerals-AllFree [] = tt
numerals-AllFree (id ∷ ids) = (Digits-Free (itoa id) (itoa-Reads id).digits, numerals-AllFree ids)

ids_of-numerals : (ids : List ℕ) → AllSmall ids → ids_of (numerals ids) ≡ ids
unfolding ids_of
ids_of-numerals [] h = refl
ids_of-numerals (id ∷ ids) (small, h) = rw (itoa-parse_uint32 id small, ids_of-numerals ids h) refl

-- `parseIDs` reads a list of ids below 2^32, printed in decimal and joined by commas, as that list: the
-- default of the options, the printed id of the process, included.
pub parse_ids-numerals :
    (euid id : ℕ) (ids : List ℕ)
    → AllSmall (id ∷ ids)
    → parse_ids euid (join (44 ∷ []) (numerals (id ∷ ids))) ≡ id ∷ ids
unfolding parse_ids
parse_ids-numerals euid id ids small =
    rw
      (
        split_at-join 44 (itoa id) (numerals ids) refl (numerals-AllFree (id ∷ ids)),
        ids_of-numerals (id ∷ ids) small,
      )
      refl

-- A daemon whose options are ids below 2^32, printed and joined by commas, lets exactly those users and
-- groups review.
daemon_server-review_allowed :
    (euid uid gid : ℕ) (uids gids : List ℕ) (peer : PeerIdentity)
    → AllSmall (uid ∷ uids)
    → AllSmall (gid ∷ gids)
    → review_allowed
        (daemon_server euid
          (join (44 ∷ []) (numerals (uid ∷ uids)))
          (join (44 ∷ []) (numerals (gid ∷ gids))))
        peer
      ≡ (has_id (uid ∷ uids) peer.uid || has_id (gid ∷ gids) peer.gid)
unfolding daemon_server new_server review_allowed
daemon_server-review_allowed euid uid gid uids gids peer small small' =
    rw (parse_ids-numerals euid uid uids small, parse_ids-numerals euid gid gids small') refl

in_range-small : (o : Option ℕ) (ids : List ℕ) → AllSmall ids → AllSmall (add_id (in_range o) ids)
unfolding add_id in_range
in_range-small none ids h = h
in_range-small (some n) ids h = elim (Bool-cases (ltb n uint32_limit)) [
  | inl small ↦ rw small (below n uint32_limit small, h)
  | inr large ↦ rw large h
]
  where
    below : (m n : ℕ) → ltb m n ≡ true → m < n
    below m n h = ground arith

parse_uint32-small :
    (s : Text) (ids : List ℕ) → AllSmall ids → AllSmall (add_id (parse_uint32 s) ids)
unfolding parse_uint32 add_id
parse_uint32-small [] ids h = h
parse_uint32-small (c ∷ s) ids h = in_range-small (digits_value 0 (c ∷ s)) ids h

ids_of-AllSmall : (parts : List Text) → AllSmall (ids_of parts)
unfolding ids_of
ids_of-AllSmall [] = tt
ids_of-AllSmall (part ∷ parts) =
    parse_uint32-small (trim_space part) (ids_of parts) (ids_of-AllSmall parts)

-- Whatever the option says, `parseIDs` gives at least one id, and none that does not fit 32 bits,
-- where the id of the process fits them.
pub parse_ids-AllSmall :
    (euid : ℕ) (raw : Text)
    → euid < uint32_limit
    → (is_empty (parse_ids euid raw) ≡ false) × AllSmall (parse_ids euid raw)
unfolding parse_ids
parse_ids-AllSmall euid raw small =
    by_ids (ids_of (split_at 44 raw)) (ids_of-AllSmall (split_at 44 raw))
  where
    by_ids :
        (out : List ℕ)
        → AllSmall out
        → (is_empty (if is_empty out then euid ∷ [] else out) ≡ false)
          × AllSmall (if is_empty out then euid ∷ [] else out)
    by_ids [] h = (refl, (small, tt))
    by_ids (id ∷ ids) h = (refl, h)
