-- ===== src/Tests/Logs.antt =====
-- The theorems about the log at concrete files.
use request_sudo.Base.{
  ℕ, zero, suc, ap, length-append, ◌≤◌, ◌<◌, ◌≡◌, refl, List, [], ◌∷◌, ◌++◌, Text, codes, length,
  ltb, true, arith, some-eq-some, subst, ◌⊎◌,
}
use request_sudo.Events.{Event, ok, err, sync_failed, chain_mismatch, line_too_long}
use request_sudo.Events.Log.{
  Log, AppendEnv, max_line, done, cannot_sync, append, complete, replay, last_hash_from,
  hash_envelope,
}
use request_sudo.Events.Log.Replay.{IsSynced, Fits, append-IsSynced}
use request_sudo.Events.Log.Chain.{Chained, Collision, replay-Chained, last_hash_fixes_history}
use request_sudo.Events.Log.Faults.{IsLost, long_line_unreadable, failed_sync_unreadable}
use request_sudo.Tests.Sample.{sample, sample-RoundTrips, event}
use request_sudo.Tests.Sample
use request_sudo.Tests.Codec.{text}
use request_sudo.Tests.Scenario.{creation, grant}

abbrev pub empty_log : Log
empty_log = record { file = record { lines = []; tail = [] }; last_hash = [] }

abbrev pub works : AppendEnv
works = record { new_id = codes "x"; clock = 5; io = done }

abbrev fails_sync : AppendEnv
fails_sync = record { new_id = codes "x"; clock = 5; io = cannot_sync }

-- The log after one append, its event and its line.
abbrev one_log : Log
one_log = (append sample works grant empty_log).0

abbrev one_event : Event
one_event = record grant { hash = Sample.total (event.enc (record grant { hash = [] })) ∷ [] }

pub empty-IsSynced : IsSynced sample empty_log []
unfolding replay last_hash_from
empty-IsSynced = record { replayed = refl; hash = refl; whole = refl }

appended_one : append sample works grant empty_log ≡ (one_log, ok one_event)
unfolding append
appended_one = refl

pub below : (m n : ℕ) → ltb m n ≡ true → m < n
below m n h = ground arith

one-Fits : Fits sample one_event
one-Fits line m = subst (λ (t : Text). length t < max_line) (some-eq-some m) (below _ _ refl)

append-IsSynced_example : IsSynced sample one_log (one_event ∷ [])
append-IsSynced_example =
    append-IsSynced sample sample-RoundTrips works grant empty_log one_log one_event [] appended_one
      one-Fits empty-IsSynced

replayed_one : replay sample one_log.file ≡ ok (one_event ∷ [])
replayed_one =
    (append-IsSynced sample sample-RoundTrips works grant empty_log one_log one_event []
      appended_one one-Fits empty-IsSynced).replayed

replay-Chained_example : Chained sample [] (one_event ∷ [])
replay-Chained_example = replay-Chained sample one_log.file (one_event ∷ []) replayed_one

last_hash_fixes_history_example :
    (◌≡◌ {A = List Event} (one_event ∷ []) (one_event ∷ [])) ⊎ Collision sample
last_hash_fixes_history_example =
    last_hash_fixes_history sample (λ p. refl) one_log.file one_log.file (one_event ∷ [])
      (one_event ∷ []) replayed_one replayed_one refl

-- The log after an append whose `Sync` fails, and the one after a second append that works.
abbrev lost_log : Log
lost_log = (append sample fails_sync grant empty_log).0

abbrev later_log : Log
later_log = (append sample works creation lost_log).0

abbrev later_event : Event
later_event = record creation {
  hash = Sample.total (event.enc (record creation { hash = [] })) ∷ [];
}

grant-IsLost : IsLost sample fails_sync grant empty_log one_event
unfolding complete hash_envelope
grant-IsLost = record {
  sync = refl;
  content = refl;
  sealed = refl;
  line = event.enc one_event ++ codes "}";
  marshalled = refl;
  short = below _ _ refl;
}

appended_later : append sample works creation lost_log ≡ (later_log, ok later_event)
unfolding append
appended_later = refl

later-Fits : Fits sample later_event
later-Fits line m = subst (λ (t : Text). length t < max_line) (some-eq-some m) (below _ _ refl)

failed_sync_unreadable_example :
    ((append sample fails_sync grant empty_log).1 ≡ err sync_failed)
    × (replay sample later_log.file ≡ err (chain_mismatch (codes "e")))
failed_sync_unreadable_example =
    failed_sync_unreadable sample sample-RoundTrips fails_sync works grant creation empty_log
      later_log one_event later_event [] grant-IsLost (λ p. cc) appended_later later-Fits
      empty-IsSynced

unfoldable pad : ℕ → Text
pad zero = []
pad (suc n) = 0 ∷ pad n

length-pad : (n : ℕ) → length (pad n) ≡ n
unfolding pad
length-pad zero = refl
length-pad (suc n) = ap suc (length-pad n)

-- An event whose details are as long as the limit, and the log after it.
abbrev wide : Event
wide = record grant { details = pad max_line }

abbrev wide_event : Event
wide_event = record wide {
  hash = Sample.total (event.enc (record wide { hash = [] })) ∷ [];
  prev_hash = [];
}

abbrev wide_log : Log
wide_log = (append sample works wide empty_log).0

appended_wide : append sample works wide empty_log ≡ (wide_log, ok wide_event)
unfolding append
appended_wide = refl

length-text : (t : Text) → suc (length t) ≡ length (text.enc t)
length-text [] = refl
length-text (c ∷ t) = ap suc (length-text t)

wide_long : max_line ≤ length (event.enc wide_event ++ codes "}")
wide_long =
    rw (length-append (event.enc wide_event) (codes "}"))
      (omega (arith, length-pad max_line, length-text (pad max_line)))

long_line_unreadable_example : replay sample wide_log.file ≡ err line_too_long
long_line_unreadable_example =
    long_line_unreadable sample works wide empty_log wide_log wide_event [] appended_wide
      (λ line m. subst (λ (t : Text). max_line ≤ length t) (some-eq-some m) wide_long)
      empty-IsSynced
