-- ===== src/Examples/Exports.antt =====
-- The theorem on one export at a room with two signed records and an unsigned one.
use flop_contributions.Prelude.{◌≡◌, refl, List, [], ◌∷◌, pos, true}
use flop_contributions.Outcome.{ok}
use flop_contributions.Text.{codes}
use flop_contributions.Json.{int, str, Fields, end, field}
use flop_contributions.Platform.{Platform, File}
use flop_contributions.Export.{ExportReport, verify_export}
use flop_contributions.Export.Continuous.{IsVerified, verify_export-IsVerified}
use flop_contributions.Examples.Open.{opened_all}
use flop_contributions.Examples.Protocol.{result}
use flop_contributions.Examples.Rooms.{jsonl}
use flop_contributions.Examples.Fixtures.{platform, message, alice, bob, pick}

abbrev rows : List Fields
rows =
    message 7 alice 10 (codes "hello")
    ∷ field "seq" (int (pos 8)) (
        field "from" (str bob)
          (field "ts" (str (codes "today")) (field "text" (str (codes "unsigned")) end)))
    ∷ message 9 bob 12 (codes "bye")
    ∷ []

abbrev venue : Platform
venue = record platform {
  parse_json = λ text. pick text rows;
  parse_bytes = λ text. pick text rows;
}

abbrev exported : File
exported = record { regular = true; content = jsonl rows }

verified : (r : ExportReport) × (verify_export venue (codes "lobby") (pos 2) exported ≡ ok r)
unfolding opened_all
verified = result (verify_export venue (codes "lobby") (pos 2) exported) refl

verify_export-IsVerified_example : IsVerified venue (codes "lobby") exported verified.0
verify_export-IsVerified_example =
    verify_export-IsVerified venue (codes "lobby") (pos 2) exported verified.0 verified.1
