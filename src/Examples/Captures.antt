-- ===== src/Examples/Captures.antt =====
-- The theorems on a capture at an export of a receipt of the referee and an unsigned record.
use flop_contributions.Prelude.{◌≡◌, refl, pos, List, [], ◌∷◌, ◌++◌}
use flop_contributions.Outcome.{Outcome, ok, err}
use flop_contributions.Text.{Bytes, codes}
use flop_contributions.Json.{int, str, obj, Fields, end, field}
use flop_contributions.Platform.{Platform}
use flop_contributions.Recorder.Ranges.{Range}
use flop_contributions.Recorder.Inspect.{Config, Counts, Receipt, inspect}
use flop_contributions.Recorder.Capture.{Capture, capture}
use flop_contributions.Recorder.Grows.{
  IsInspection, IsCapture, inspect-IsInspection, capture-IsCapture,
}
use flop_contributions.Examples.Open.Recorder.{opened_recorder}
use flop_contributions.Examples.Protocol.{result}
use flop_contributions.Examples.Fixtures.{platform, message, alice, bob, pick, toy_dumps}

abbrev config : Config
config = record {
  room = codes "lobby";
  generation = 2;
  after = 4;
  contest_id = codes "sonnet";
  request_id = codes "r1";
  participant = bob;
  referee = alice;
}

abbrev payload : Fields
payload = field "type" (str (codes "sonnet.receipt.v1")) (
    field "contest_id" (str (codes "sonnet")) (
      field "request_id" (str (codes "r1"))
        (field "sender_did" (str bob) (field "status" (str (codes "accepted")) end))))

abbrev rows : List Fields
unfolding toy_dumps
rows =
    message 3 alice 10 (codes "early")
    ∷ message 7 alice 10 (toy_dumps (obj payload))
    ∷ field "seq" (int (pos 8)) (
        field "from" (str bob)
          (field "ts" (str (codes "today")) (field "text" (str (codes "unsigned")) end)))
    ∷ []

abbrev lines : List Fields → Bytes
unfolding toy_dumps
lines [] = []
lines (r ∷ rs) = toy_dumps (obj r) ++ 10 ∷ lines rs

abbrev recorder : Platform
recorder = record platform { parse_finite_bytes = λ text. pick text (payload ∷ rows) }

inspected : (r : List Range × List Receipt × Counts) × (inspect recorder (lines rows) config ≡ ok r)
unfolding opened_recorder
inspected = result (inspect recorder (lines rows) config) refl

inspect-IsInspection_example : IsInspection recorder config (lines rows) inspected.0
inspect-IsInspection_example =
    inspect-IsInspection recorder (lines rows) config inspected.0 inspected.1

captured : (c : Capture) × (capture recorder config ((5, 6) ∷ []) (lines rows) (int (pos 2)) ≡ ok c)
unfolding opened_recorder
captured = result (capture recorder config ((5, 6) ∷ []) (lines rows) (int (pos 2))) refl

abbrev ranges_of : Outcome Capture → List Range × List Range
ranges_of (ok c) = (c.coverage, c.missing_ranges)
ranges_of (err e) = ([], [])

-- The receipt and the record behind it join the old coverage, and the gap is told.
covered :
    ranges_of (capture recorder config ((6, 6) ∷ []) (lines rows) (int (pos 2)))
    ≡ ((6, 8) ∷ [], (5, 5) ∷ [])
unfolding opened_recorder
covered = refl

capture-IsCapture_example :
    IsCapture recorder config ((5, 6) ∷ []) (lines rows) (int (pos 2)) captured.0
capture-IsCapture_example =
    capture-IsCapture recorder config ((5, 6) ∷ []) (lines rows) (int (pos 2)) captured.0 captured.1
