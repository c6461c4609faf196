-- ===== src/Tests/Options.antt =====
-- The theorems about the options of the commands at concrete options.
use request_sudo.Base.{◌≡◌, refl, false, [], ◌∷◌, codes, is_empty, text_eq, lookup, insert, arith}
use request_sudo.Base.Trim.{trim_space, join}
use request_sudo.Commands.{parse_ids}
use request_sudo.Commands.Ids.{numerals, parse_ids-numerals}
use request_sudo.Adapter.Codes.{parse_allowed_country_codes}
use request_sudo.Adapter.Codes.Prefixes.{ArePrefixes, parse_allowed_country_codes-ArePrefixes}
use request_sudo.Adapter.Config.{loaded, read, parse_env_file}
use request_sudo.Adapter.Approvers.{parsed, load_approvers}

parse_ids-numerals_example : parse_ids 5 (join (44 ∷ []) (numerals (0 ∷ 1000 ∷ []))) ≡ 0 ∷ 1000 ∷ []
parse_ids-numerals_example = parse_ids-numerals 5 0 (1000 ∷ []) (omega arith, (omega arith, tt))

-- Spaces and parts that are no numbers are passed over.
mixed_ids : parse_ids 5 (codes "7, x,4294967296,,08") ≡ 7 ∷ 8 ∷ []
unfolding parse_ids trim_space
mixed_ids = refl

parse_allowed_country_codes-ArePrefixes_example :
    (is_empty (codes "+1" ∷ codes "+44" ∷ []) ≡ false) × ArePrefixes (codes "+1" ∷ codes "+44" ∷ [])
unfolding parse_allowed_country_codes trim_space
parse_allowed_country_codes-ArePrefixes_example =
    parse_allowed_country_codes-ArePrefixes (codes "+1, 44") (codes "+1" ∷ codes "+44" ∷ []) refl

env_file :
    parse_env_file (read (codes "# k\nexport A = \"b\"\nC='d\n"))
    ≡ loaded ((codes "A", codes "b") ∷ (codes "C", codes "'d") ∷ [])
unfolding parse_env_file trim_space text_eq insert
env_file = refl

approvers_file :
    load_approvers (
      read (
        codes
          "approver_sets:\n  ops:\n    - 'ann' # x\nwall: on\napprovers:\n  ann:\n    phones:\n      - +15550001111\n    level: 1\n      - +2\nrouting:\n  bob:\n    approver_set: \"ops\"\n"))
    ≡ parsed (record {
      approver_sets = (codes "ops", codes "ann" ∷ []) ∷ [];
      phones = (codes "ann", codes "+15550001111" ∷ []) ∷ [];
      routing = (codes "bob", codes "ops") ∷ [];
    })
unfolding load_approvers trim_space text_eq lookup insert
approvers_file = refl
