-- ===== src/Adapter/Pending/Order.antt =====
-- internal/twilioadapter/pending_set.go: rows in the order of their times, which the sort of
-- `ReplayFromAudit` keeps.
use request_sudo.Base.{ℕ, ◌≤◌, ◌≡◌, refl, sym, subst, true, false, List, [], ◌∷◌, ◌++◌, leb, arith}
use request_sudo.Adapter.Pending.{Row, row, is_kept, kept_rows, insert_row, sort_rows}
use request_sudo.Adapter.Pending.AuditFile.{is_other}

-- A row as `emit` writes it, with a phone and a request.
pub record Kept (r : Row) : Type 0 where
  pub kept : is_kept r ≡ true
  pub typed : is_other r.type ≡ false
  pub emitted : row r.type r.request_id r.recipient_phone r.wall_ts ≡ r

-- Rows of one time.
abbrev pub AllAt : ℕ → List Row → Type 0
AllAt now [] = Unit {0}
AllAt now (r ∷ rs) = (r.wall_ts ≡ now) × Kept r × AllAt now rs

-- The times do not go back.
abbrev pub Ordered : ℕ → List Row → Type 0
Ordered t [] = Unit {0}
Ordered t (r ∷ rs) = (t ≤ r.wall_ts) × Kept r × Ordered r.wall_ts rs

pub Ordered-append :
    (t now : ℕ) (rs qs : List Row) → t ≤ now → AllAt now rs → Ordered now qs → Ordered t (rs ++ qs)
Ordered-append t now [] [] le a o = tt
Ordered-append t now [] (q ∷ qs) le a (le', k, o) = (omega (arith, le, le'), k, o)
Ordered-append t now (r ∷ rs) qs le (at, k, a) o = (
  omega (arith, le, at),
  k,
  subst (λ n. Ordered n (rs ++ qs)) (sym at) (Ordered-append now now rs qs (omega arith) a o),
)

pub sort_rows-Ordered : (t : ℕ) (rs : List Row) → Ordered t rs → sort_rows rs ≡ rs
unfolding sort_rows
sort_rows-Ordered t [] o = refl
sort_rows-Ordered t (r ∷ rs) (le, k, o) = rw (sort_rows-Ordered r.wall_ts rs o) (first rs o)
  where
    true_leb : (a b : ℕ) → a ≤ b → leb a b ≡ true
    true_leb a b h = ground arith

    first : (qs : List Row) → Ordered r.wall_ts qs → insert_row r qs ≡ r ∷ qs
    first [] o = refl
    first (q ∷ qs) (le', k', o') = rw (insert_row, true_leb r.wall_ts q.wall_ts le') refl

pub kept_rows-Ordered : (t : ℕ) (rs : List Row) → Ordered t rs → kept_rows rs ≡ rs
unfolding kept_rows
kept_rows-Ordered t [] o = refl
kept_rows-Ordered t (r ∷ rs) (le, k, o) = rw (k.kept, kept_rows-Ordered r.wall_ts rs o) refl

pub AllAt-append : (now : ℕ) (rs qs : List Row) → AllAt now rs → AllAt now qs → AllAt now (rs ++ qs)
AllAt-append now [] qs a b = b
AllAt-append now (r ∷ rs) qs (at, k, a) b = (at, k, AllAt-append now rs qs a b)
