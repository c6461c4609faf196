-- ===== src/Adapter/Pending/Restart.antt =====
-- internal/twilioadapter/pending_set.go: a restart of the adapter, which reads its audit file back.
use request_sudo.Base.{
  ℕ, ◌≡◌, refl, sym, ap, subst, ◌∙◌, true, false, List, [], ◌∷◌, ◌++◌, some, Text, lookup, is_empty,
}
use request_sudo.Base.Lines.{OneLine, cut_lines, cut_lines-first}
use request_sudo.Adapter.Pending.{Entry, PendingSet, Row, RowType, row, replay_from_audit}
use request_sudo.Adapter.Pending.AuditFile.{
  AuditLine, AuditDecoder, row_type, is_other, decoded_row, audit_line, audit_lines, read_rows,
  whole, replay_file,
}
use request_sudo.Adapter.Pending.Replay.{Call, run_calls, rows_replay}
use request_sudo.Adapter.Pending.Order.{Kept, Ordered, sort_rows-Ordered, kept_rows-Ordered}
use request_sudo.Adapter.Pending.Emits.{Timely, run_calls-Ordered}

-- A line of the audit file: a row of the pending set, or one that another part wrote.
pub data AuditEntry : Type 0 where
  mine : Row → AuditEntry
  foreign : Text → AuditEntry

abbrev pub mine_rows : List AuditEntry → List Row
mine_rows [] = []
mine_rows (mine r ∷ es) = r ∷ mine_rows es
mine_rows (foreign line ∷ es) = mine_rows es

module _ (D : AuditDecoder) (encode : Row → Text) where
  -- A row is written as one line, which is decoded to what was written.
  pub record IsWritten (r : Row) : Type 0 where
    pub one_line : OneLine (encode r)
    pub not_empty : is_empty (encode r) ≡ false
    pub line : AuditLine
    pub decodes : D.unmarshal_row (encode r) ≡ some line
    pub type : row_type line.type ≡ r.type
    pub request_id : line.request_id ≡ r.request_id
    pub phone : line.recipient_phone ≡ r.recipient_phone
    pub time : D.parse_time line.wall_ts ≡ some r.wall_ts

  abbrev pub audit_file : List AuditEntry → Text
  audit_file [] = []
  audit_file (mine r ∷ es) = encode r ++ 10 ∷ audit_file es
  audit_file (foreign line ∷ es) = line ++ 10 ∷ audit_file es

  -- The lines of the other parts hold no row of the pending set.
  abbrev pub AllLines : List AuditEntry → Type 0
  AllLines [] = Unit {0}
  AllLines (mine r ∷ es) = IsWritten r × AllLines es
  AllLines (foreign line ∷ es) = OneLine line × (audit_line D true line ≡ []) × AllLines es

  audit_line-full :
      (line : Text)
      → is_empty line ≡ false
      → audit_line D true line ≡ decoded_row D true (D.unmarshal_row line)
  unfolding audit_line
  audit_line-full [] h = absurd cc
  audit_line-full (c ∷ line) h = refl

  decoded_row-own :
      (a : AuditLine) (ts : ℕ)
      → is_other (row_type a.type) ≡ false
      → D.parse_time a.wall_ts ≡ some ts
      → decoded_row D true (some a) ≡ row (row_type a.type) a.request_id a.recipient_phone ts ∷ []
  unfolding decoded_row
  decoded_row-own a ts own time = rw (own, time) refl

  same_row :
      (type type' : RowType) (id id' phone phone' : Text) (ts : ℕ)
      → type ≡ type'
      → id ≡ id'
      → phone ≡ phone'
      → row type id phone ts ≡ row type' id' phone' ts
  same_row type type' id id' phone phone' ts h k l = cc

  audit_line-mine : (r : Row) → IsWritten r → Kept r → audit_line D true (encode r) ≡ r ∷ []
  audit_line-mine r w k =
      audit_line-full (encode r) w.not_empty
      ∙ ap (decoded_row D true) w.decodes
      ∙ decoded_row-own w.line r.wall_ts (ap is_other w.type ∙ k.typed) w.time
      ∙ ap (λ (q : Row). q ∷ [])
          (same_row _ _ _ _ _ _ r.wall_ts w.type w.request_id w.phone ∙ k.emitted)

  read_rows-audit_file :
      (t : ℕ) (es : List AuditEntry)
      → Ordered t (mine_rows es)
      → AllLines es
      → read_rows D (audit_file es) ≡ mine_rows es
  unfolding read_rows audit_lines
  read_rows-audit_file t [] o f = unfold cut_lines audit_line in refl
  read_rows-audit_file t (mine r ∷ es) (le, k, o) (w, f) =
      rw (cut_lines-first (encode r) (audit_file es) w.one_line, audit_line-mine r w k)
        (ap (◌∷◌ r) (read_rows-audit_file r.wall_ts es o f))
  read_rows-audit_file t (foreign line ∷ es) o (one, none_there, f) =
      rw (cut_lines-first line (audit_file es) one, none_there) (read_rows-audit_file t es o f)

  -- After a restart, `ReplayFromAudit` gives exactly the entries that the set had, those whose time
  -- is over included, where the audit file holds all rows that were emitted in their order, among
  -- lines of other parts, the calls named a phone and a request, the clock did not go back, and
  -- each row is decoded to what was written.
  pub restart_restores :
      (ttl : ℕ) (calls : List Call) (es : List AuditEntry)
      → Timely 0 calls
      → mine_rows es ≡ (run_calls calls (record { ttl = ttl; items = [] })).1
      → AllLines es
      → (replay_file D (whole (audit_file es)) (record { ttl = ttl; items = [] })).0.items
        ≡ (run_calls calls (record { ttl = ttl; items = [] })).0.items
  unfolding replay_file replay_from_audit
  restart_restores ttl calls es timely all f =
      let fresh : PendingSet = record { ttl = ttl; items = [] } in
      let o =
        run_calls-Ordered 0 calls fresh timely
          (λ phone entry there. absurd (nothing phone entry there)) in
      let o' = subst (Ordered 0) (sym all) o in
      rw
        (
          read_rows-audit_file 0 es o' f,
          kept_rows-Ordered 0 (mine_rows es) o',
          sort_rows-Ordered 0 (mine_rows es) o',
          all,
        )
        (rows_replay calls fresh)
    where
      nothing : (phone : Text) (entry : Entry) → lookup phone [] ≡ some entry → ⊥
      nothing phone entry there = absurd (unfold lookup in cc)
