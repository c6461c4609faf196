-- ===== src/Adapter/Pending.antt =====
-- internal/twilioadapter/pending_set.go: at most one pending verification for each phone.
pub mod Claims
pub mod Replay
pub mod Views
pub mod AuditFile
pub mod Order
pub mod Emits
pub mod Restart
use request_sudo.Base.{
  ℕ, zero, suc, ◌+◌, Bool, true, false, not, ◌&&◌, ◌||◌, List, [], ◌∷◌, ◌++◌, Option, none, some,
  Text, text_eq, Map, lookup, insert, delete, is_empty, ltb, leb, if◌then◌else◌,
}
use request_sudo.Adapter.Phones.{mask_phone}

-- `pendingEntry`
pub record Entry : Type 0 where
  pub request_id : Text
  pub opened_at : ℕ

-- `PendingSet`. The clock is an argument of the operations.
pub record PendingSet : Type 0 where
  pub ttl : ℕ
  pub items : Map Entry

-- The `type` of an audit row.
pub data RowType : Type 0 where
  opened released expired : RowType
  other : Text → RowType

-- The row that `emit` writes. Where there is no audit log, or the write fails, the row is lost.
pub record Row : Type 0 where
  pub type : RowType
  pub request_id : Text
  pub recipient_masked : Text
  pub recipient_phone : Text
  pub wall_ts : ℕ

unfoldable pub row : RowType → Text → Text → ℕ → Row
row type request_id phone ts = record {
  type = type;
  request_id = request_id;
  recipient_masked = mask_phone phone;
  recipient_phone = phone;
  wall_ts = ts;
}

-- `now.Sub(entry.OpenedAt) < ttl`
unfoldable pub is_live : ℕ → ℕ → Entry → Bool
is_live ttl now entry = ltb now (entry.opened_at + ttl)

abbrev put : Text → Text → ℕ → PendingSet → PendingSet
put phone request_id now ps = record ps {
  items = insert phone (record { request_id = request_id; opened_at = now }) ps.items;
}

abbrev drop_phone : Text → PendingSet → PendingSet
drop_phone phone ps = record ps { items = delete phone ps.items }

-- What an operation leaves: the set, its result, and the rows that it emits.
unfoldable pub open_found :
    ℕ → Text → Text → PendingSet → Option Entry → PendingSet × Bool × List Row
open_found now phone request_id ps none =
    (put phone request_id now ps, true, row opened request_id phone now ∷ [])
open_found now phone request_id ps (some existing) =
    if is_live ps.ttl now existing then (ps, false, []) else (
      put phone request_id now (drop_phone phone ps),
      true,
      row expired existing.request_id phone now ∷ row opened request_id phone now ∷ [],
    )

-- `OpenPending`: `false` is `ErrPhoneBusy`.
unfoldable pub open_pending : ℕ → Text → Text → PendingSet → PendingSet × Bool × List Row
unfolding open_found
open_pending now phone request_id ps = open_found now phone request_id ps (lookup phone ps.items)

unfoldable pub resolve_found :
    ℕ → Text → PendingSet → Option Entry → PendingSet × Option Text × List Row
resolve_found now phone ps none = (ps, none, [])
resolve_found now phone ps (some entry) =
    if not (is_live ps.ttl now entry)
    then (drop_phone phone ps, none, row expired entry.request_id phone now ∷ [])
    else (ps, some entry.request_id, [])

-- `Resolve`
unfoldable pub resolve : ℕ → Text → PendingSet → PendingSet × Option Text × List Row
unfolding resolve_found
resolve now phone ps = resolve_found now phone ps (lookup phone ps.items)

unfoldable pub release_found : ℕ → Text → PendingSet → Option Entry → PendingSet × List Row
release_found now phone ps none = (ps, [])
release_found now phone ps (some entry) =
    (drop_phone phone ps, row released entry.request_id phone now ∷ [])

-- `Release`
unfoldable pub release : ℕ → Text → PendingSet → PendingSet × List Row
unfolding release_found
release now phone ps = release_found now phone ps (lookup phone ps.items)

unfoldable pub expire_found : ℕ → Text → PendingSet → Option Entry → PendingSet × ℕ × List Row
expire_found now phone ps none = (ps, 0, [])
expire_found now phone ps (some entry) =
    if not (is_live ps.ttl now entry)
    then (drop_phone phone ps, 1, row expired entry.request_id phone now ∷ [])
    else (ps, 0, [])

-- `ExpireDue`. A Go map is iterated in any order: `phones` is the order of this run.
unfoldable pub expire_due : ℕ → List Text → PendingSet → PendingSet × ℕ × List Row
unfolding expire_found
expire_due now [] ps = (ps, 0, [])
expire_due now (phone ∷ phones) ps =
    let (ps₁, n, rows) = expire_found now phone ps (lookup phone ps.items) in
    let (ps₂, m, rows') = expire_due now phones ps₁ in (ps₂, n + m, rows ++ rows')

-- The rows that `ReplayFromAudit` keeps, of those that it could decode.
unfoldable pub is_kept : Row → Bool
is_kept r = not (is_empty r.recipient_phone) && not (is_empty r.request_id)

-- The stable sort by timestamp.
unfoldable pub insert_row : Row → List Row → List Row
insert_row r [] = r ∷ []
insert_row r (q ∷ qs) = if leb r.wall_ts q.wall_ts then r ∷ q ∷ qs else q ∷ insert_row r qs

unfoldable pub sort_rows : List Row → List Row
unfolding insert_row
sort_rows [] = []
sort_rows (r ∷ rs) = insert_row r (sort_rows rs)

-- A row that ends the verification of its request.
unfoldable pub close_row : Row → Option Entry → Map Entry → Map Entry
close_row r none items = items
close_row r (some existing) items =
    if text_eq existing.request_id r.request_id then delete r.recipient_phone items else items

-- The last loop of `ReplayFromAudit`
unfoldable pub apply_row : RowType → Row → Map Entry → Map Entry
unfolding close_row
apply_row opened r items =
    insert r.recipient_phone (record { request_id = r.request_id; opened_at = r.wall_ts }) items
apply_row released r items = close_row r (lookup r.recipient_phone items) items
apply_row expired r items = close_row r (lookup r.recipient_phone items) items
apply_row (other type) r items = items

unfoldable pub apply_rows : List Row → Map Entry → Map Entry
unfolding apply_row
apply_rows [] items = items
apply_rows (r ∷ rs) items = apply_rows rs (apply_row r.type r items)

unfoldable pub kept_rows : List Row → List Row
unfolding is_kept
kept_rows [] = []
kept_rows (r ∷ rs) = let rest = kept_rows rs in if is_kept r then r ∷ rest else rest

-- `ReplayFromAudit`, of the rows of the file that were decoded with a type and a time that are valid.
unfoldable pub replay_from_audit : List Row → PendingSet → PendingSet
unfolding sort_rows apply_rows kept_rows
replay_from_audit rows ps = record ps { items = apply_rows (sort_rows (kept_rows rows)) ps.items }
