-- ===== src/Adapter/Canon/Torn.antt =====
-- internal/twilioadapter/canon_tail.go: a line that is read before it is whole.
use request_sudo.Base.{
  ℕ, suc, ◌+◌, ◌≡◌, refl, sym, ap, subst, ◌∙◌, List, [], ◌∷◌, ◌++◌, none, Text, length,
  length-append, drop, arith,
}
use request_sudo.Events.Json.{Json}
use request_sudo.Base.Lines.{OneLine, cut_lines}
use request_sudo.Adapter.Canon.{
  CanonTailer, Notice, undecoded_event, whole, handle_event, handle_line, handle_lines, scan_bytes,
  scan_once, run,
}
use request_sudo.Adapter.Canon.Pieces.{drop-append}

cut_lines-OneLine : (s : Text) → OneLine s → cut_lines s ≡ ([], s)
unfolding cut_lines
cut_lines-OneLine [] h = refl
cut_lines-OneLine (c ∷ s) (h, hs) = rw (h, cut_lines-OneLine s hs) refl

cut_lines-ended : (s : Text) → OneLine s → cut_lines (s ++ 10 ∷ []) ≡ (s ∷ [], [])
unfolding cut_lines
cut_lines-ended [] h = refl
cut_lines-ended (c ∷ s) (h, hs) = rw (h, cut_lines-ended s hs) refl

drop-past : (p s : Text) (c : ℕ) (n : ℕ) → n ≡ length p + 1 → drop n (p ++ c ∷ s) ≡ s
drop-past [] s c n h = subst (λ n. drop n (c ∷ s) ≡ s) (sym h) refl
drop-past (b ∷ p) s c n h =
    subst (λ n. drop n (b ∷ p ++ c ∷ s) ≡ s) (sym (h ∙ step (length p)))
      (drop-past p s c (length p + 1) refl)
  where
    step : (n : ℕ) → suc n + 1 ≡ suc (n + 1)
    step n = omega arith

module _ (J : Json) where
  -- A line that cannot be decoded is passed.
  undecoded_line :
      (c : ℕ) (line : Text) (t : CanonTailer)
      → J.unmarshal_event (c ∷ line) ≡ none
      → handle_line J (c ∷ line) t
        ≡ (record t { offset = t.offset + length (c ∷ line) + 1 }, undecoded_event ∷ [])
  unfolding handle_line handle_event
  undecoded_line c line t h = rw h refl

  abbrev past : Text → CanonTailer → CanonTailer
  past line t = record t { offset = t.offset + length line + 1 }

  undecoded_lines :
      (c : ℕ) (line : Text) (t : CanonTailer)
      → J.unmarshal_event (c ∷ line) ≡ none
      → handle_lines J ((c ∷ line) ∷ []) t ≡ (past (c ∷ line) t, undecoded_event ∷ [])
  unfolding handle_lines
  undecoded_lines c line t bad =
      ap (λ (r : CanonTailer × List Notice). (r.0, r.1 ++ [])) (undecoded_line c line t bad)

  scan_bytes-torn :
      (c : ℕ) (line : Text) (t : CanonTailer)
      → OneLine (c ∷ line)
      → J.unmarshal_event (c ∷ line) ≡ none
      → scan_bytes J (c ∷ line) t ≡ (past (c ∷ line) t, undecoded_event ∷ [])
  unfolding scan_bytes
  scan_bytes-torn c line t one bad =
      rw (cut_lines-OneLine (c ∷ line) one) (undecoded_lines c line t bad)

  scan_bytes-ended :
      (c : ℕ) (line : Text) (t : CanonTailer)
      → OneLine (c ∷ line)
      → J.unmarshal_event (c ∷ line) ≡ none
      → scan_bytes J (c ∷ (line ++ 10 ∷ [])) t ≡ (past (c ∷ line) t, undecoded_event ∷ [])
  unfolding scan_bytes
  scan_bytes-ended c line t one bad =
      rw (cut_lines-ended (c ∷ line) one) (undecoded_lines c line t bad)

  -- Where a scan finds the beginning of the last line, and the next one finds it whole, the line is
  -- never read as one: the second scan begins a byte too late. If neither the beginning nor what stands
  -- after that byte decodes, the two scans only log errors and leave the whole file behind them, so that
  -- its request is never surfaced.
  pub torn_line_is_lost :
      (before : Text) (h c d : ℕ) (head rest : Text) (t : CanonTailer)
      → t.offset ≡ length before
      → OneLine (h ∷ head)
      → OneLine (d ∷ rest)
      → J.unmarshal_event (h ∷ head) ≡ none
      → J.unmarshal_event (d ∷ rest) ≡ none
      → run J
          (whole (before ++ h ∷ head)
            ∷ whole ((before ++ h ∷ head) ++ c ∷ d ∷ (rest ++ 10 ∷ []))
            ∷ [])
          t
        ≡ (
          record t { offset = length ((before ++ h ∷ head) ++ c ∷ d ∷ (rest ++ 10 ∷ [])) },
          undecoded_event ∷ undecoded_event ∷ [],
        )
  unfolding run scan_once
  torn_line_is_lost before h c d head rest t at one two bad bad' =
      let content = before ++ h ∷ head in
      let first : drop t.offset content ≡ h ∷ head =
        subst (λ n. drop n content ≡ h ∷ head) (sym at) (drop-append before (h ∷ head)) in
      let reached : t.offset + length (h ∷ head) + 1 ≡ length content + 1 =
        omega (arith, at, length-append before (h ∷ head)) in
      let second : drop (t.offset + length (h ∷ head) + 1) (content ++ c ∷ d ∷ (rest ++ 10 ∷ []))
          ≡ d ∷ (rest ++ 10 ∷ []) =
        drop-past content (d ∷ (rest ++ 10 ∷ [])) c _ reached in
      rw (first, scan_bytes-torn h head t one bad)
        (rw (second, scan_bytes-ended d rest (past (h ∷ head) t) two bad')
          (ap (λ n. (record t { offset = n }, undecoded_event ∷ undecoded_event ∷ []))
            (omega (
              arith,
              reached,
              length-append content (c ∷ d ∷ (rest ++ 10 ∷ [])),
              length-append rest (10 ∷ []),
            ))))
