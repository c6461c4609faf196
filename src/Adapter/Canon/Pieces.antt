-- ===== src/Adapter/Canon/Pieces.antt =====
-- internal/twilioadapter/canon_tail.go: a log that grows by whole lines while it is followed.
use request_sudo.Base.{
  ℕ, suc, ◌+◌, ◌≡◌, refl, sym, ap, subst, ◌∙◌, Bool, true, false, List, [], ◌∷◌, ◌++◌, append_assoc,
  Option, none, some, Text, contains, is_empty, length, length-append, drop, ◌==◌, if◌then◌else◌,
  Bool-cases, inl, inr, arith,
}
use request_sudo.Events.{Event}
use request_sudo.Events.Json.{Json}
use request_sudo.Base.Lines.{put_first, cut_lines}
use request_sudo.Adapter.Canon.{
  CanonTailer, new_canon_tailer, Notice, Reading, missing, whole, is_created, handle_event,
  handle_line, handle_lines, scan_bytes, scan_once, run,
}

-- The text is empty or ends in a newline.
abbrev pub IsWhole : Text → Type 0
IsWhole s = (cut_lines s).1 ≡ []

put_first-append :
    (c : ℕ) (q r : List Text × Text)
    → (put_first c q).1 ≡ []
    → put_first c (q.0 ++ r.0, r.1) ≡ ((put_first c q).0 ++ r.0, r.1)
put_first-append c ([], last) r h = absurd cc
put_first-append c (line ∷ lines, last) r h = refl

put_first-last : (c : ℕ) (q : List Text × Text) → (put_first c q).1 ≡ [] → q.1 ≡ []
put_first-last c ([], last) h = absurd cc
put_first-last c (line ∷ lines, last) h = h

pub cut_lines-append :
    (s s' : Text)
    → IsWhole s
    → cut_lines (s ++ s') ≡ ((cut_lines s).0 ++ (cut_lines s').0, (cut_lines s').1)
unfolding cut_lines
cut_lines-append [] s' h = refl
cut_lines-append (c ∷ s) s' h = elim (Bool-cases (c == 10)) [
  | inl newline ↦ rw newline (rw (cut_lines-append s s' (rw newline at h)) refl)
  | inr other ↦
      (let h' : (put_first c (cut_lines s)).1 ≡ [] = (rw other at h) in
        rw other (
          rw (cut_lines-append s s' (put_first-last c (cut_lines s) h'))
            (put_first-append c (cut_lines s) (cut_lines s') h')))
]

-- The bytes of lines with their newlines.
abbrev pub bytes_of : List Text → ℕ
bytes_of [] = 0
bytes_of (line ∷ lines) = length line + 1 + bytes_of lines

put_first-bytes :
    (c : ℕ) (q : List Text × Text)
    → bytes_of (put_first c q).0 + length (put_first c q).1 ≡ suc (bytes_of q.0 + length q.1)
put_first-bytes c ([], last) = omega arith
put_first-bytes c (line ∷ lines, last) = omega arith

pub cut_lines-bytes : (s : Text) → bytes_of (cut_lines s).0 + length (cut_lines s).1 ≡ length s
unfolding cut_lines
cut_lines-bytes [] = refl
cut_lines-bytes (c ∷ s) = elim (Bool-cases (c == 10)) [
  | inl newline ↦ rw newline (omega (arith, cut_lines-bytes s))
  | inr other ↦ rw other (put_first-bytes c (cut_lines s) ∙ ap suc (cut_lines-bytes s))
]

pub drop-append : (p s : Text) → drop (length p) (p ++ s) ≡ s
drop-append [] s = refl
drop-append (c ∷ p) s = drop-append p s

module _ (J : Json) where
  pub handle_event-offset :
      (o : Option Event) (t : CanonTailer) → (handle_event J o t).0.offset ≡ t.offset
  unfolding handle_event
  handle_event-offset none t = refl
  handle_event-offset (some event) t =
      by_type (is_created event.type) (contains t.seen event.request_id) _
    where
      by_type :
          (a b : Bool) (notices : List Notice)
          → (if◌then◌else◌ {A = CanonTailer × List Notice} a
              (if b then (t, []) else (record t { seen = event.request_id ∷ t.seen }, notices))
              (t, [])).0.offset
            ≡ t.offset
      by_type true true notices = refl
      by_type true false notices = refl
      by_type false b notices = refl

  handle_line-offset :
      (line : Text) (t : CanonTailer)
      → (handle_line J line t).0.offset ≡ t.offset + (length line + 1)
  unfolding handle_line
  handle_line-offset [] t = refl
  handle_line-offset (c ∷ line) t =
      omega (arith, handle_event-offset (J.unmarshal_event (c ∷ line)) t)

  pub handle_lines-offset :
      (lines : List Text) (t : CanonTailer)
      → (handle_lines J lines t).0.offset ≡ t.offset + bytes_of lines
  unfolding handle_lines
  handle_lines-offset [] t = omega arith
  handle_lines-offset (line ∷ lines) t =
      omega (arith, handle_line-offset line t, handle_lines-offset lines (handle_line J line t).0)

  -- What one scan after another leaves.
  abbrev pub then_scan :
      (CanonTailer → CanonTailer × List Notice)
      → CanonTailer × List Notice
      → CanonTailer × List Notice
  then_scan next (t, notices) = ((next t).0, notices ++ (next t).1)

  pub handle_lines-append :
      (lines lines' : List Text) (t : CanonTailer)
      → handle_lines J (lines ++ lines') t
        ≡ then_scan (handle_lines J lines') (handle_lines J lines t)
  unfolding handle_lines
  handle_lines-append [] lines' t = refl
  handle_lines-append (line ∷ lines) lines' t =
      rw (handle_lines-append lines lines' (handle_line J line t).0) (
        rw
          (append_assoc (handle_line J line t).1 (handle_lines J lines (handle_line J line t).0).1
            (handle_lines J lines' (handle_lines J lines (handle_line J line t).0).0).1)
          refl)

  -- The scan of whole lines, and then of more bytes.
  scan_bytes-append :
      (s s' : Text) (t : CanonTailer)
      → IsWhole s
      → scan_bytes J (s ++ s') t ≡ then_scan (scan_bytes J s') (scan_bytes J s t)
  unfolding scan_bytes
  scan_bytes-append s s' t h =
      rw (cut_lines-append s s' h, h)
        (by_last (cut_lines s').1 ∙ handle_lines-append (cut_lines s).0 _ t)
    where
      by_last :
          (last : Text)
          → handle_lines J
              (if is_empty last
                then (cut_lines s).0 ++ (cut_lines s').0
                else ((cut_lines s).0 ++ (cut_lines s').0) ++ last ∷ [])
              t
            ≡ handle_lines J
                ((cut_lines s).0
                  ++ (if is_empty last then (cut_lines s').0 else (cut_lines s').0 ++ last ∷ []))
                t
      by_last [] = refl
      by_last (c ∷ last) = rw (append_assoc (cut_lines s).0 (cut_lines s').0 ((c ∷ last) ∷ [])) refl

  -- A scan of whole lines ends at the end of what it read.
  scan_bytes-offset :
      (s : Text) (t : CanonTailer) → IsWhole s → (scan_bytes J s t).0.offset ≡ t.offset + length s
  unfolding scan_bytes
  scan_bytes-offset s t h = rw h (
      handle_lines-offset (cut_lines s).0 t
      ∙ ap (◌+◌ t.offset) (
          sum (bytes_of (cut_lines s).0) (length (cut_lines s).1) (ap length h)
          ∙ cut_lines-bytes s))
    where
      sum : (a b : ℕ) → b ≡ 0 → a ≡ a + b
      sum a b z = omega arith

-- The readings of a log that grows by these pieces, from what stands in it; `none` is a scan that
-- cannot open the file.
unfoldable pub growth : Text → List (Option Text) → List Reading
growth content [] = []
growth content (none ∷ pieces) = missing ∷ growth content pieces
growth content (some piece ∷ pieces) = whole (content ++ piece) ∷ growth (content ++ piece) pieces

unfoldable pub grown : List (Option Text) → Text
grown [] = []
grown (none ∷ pieces) = grown pieces
grown (some piece ∷ pieces) = piece ++ grown pieces

abbrev pub AllWhole : List (Option Text) → Type 0
AllWhole [] = Unit {0}
AllWhole (none ∷ pieces) = AllWhole pieces
AllWhole (some piece ∷ pieces) = IsWhole piece × AllWhole pieces

module _ (J : Json) where
  run-growth :
      (content : Text) (pieces : List (Option Text)) (t : CanonTailer)
      → AllWhole pieces
      → t.offset ≡ length content
      → run J (growth content pieces) t ≡ scan_bytes J (grown pieces) t
  unfolding run scan_once growth grown
  run-growth content [] t h o = unfold scan_bytes in refl
  run-growth content (none ∷ pieces) t h o = run-growth content pieces t h o
  run-growth content (some piece ∷ pieces) t (h, hs) o =
      let rest : drop t.offset (content ++ piece) ≡ piece =
        subst (λ n. drop n (content ++ piece) ≡ piece) (sym o) (drop-append content piece) in
      rw rest (
        rw
          (
            run-growth (content ++ piece) pieces (scan_bytes J piece t).0 hs (
                scan_bytes-offset J piece t h
                ∙ ap (λ n. n + length piece) o
                ∙ sym (length-append content piece)),
            scan_bytes-append J piece (grown pieces) t h,
          )
          refl)

-- Following a log from its start while it grows by whole lines, whatever the pieces and however many
-- scans fail to open it in between, remembers and does exactly what one scan of the final log does, in
-- the same order.
pub run-one_scan :
    (J : Json) (pieces : List (Option Text))
    → AllWhole pieces
    → run J (growth [] pieces) new_canon_tailer
      ≡ scan_once J (whole (grown pieces)) new_canon_tailer
unfolding scan_once
run-one_scan J pieces h = run-growth J [] pieces new_canon_tailer h refl
