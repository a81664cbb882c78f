-- ===== src/Examples/Rooms.antt =====
-- The audit theorems at an offer board and a deal room that hold the frames of the fixtures.
use flop_contributions.Prelude.{ℕ, ◌≡◌, refl, List, [], ◌∷◌, ◌++◌, true, pos}
use flop_contributions.Outcome.{ok}
use flop_contributions.Text.{Str, Bytes, codes}
use flop_contributions.Json.{Value, int, str, obj, Fields, end, field}
use flop_contributions.Platform.{Platform, File}
use flop_contributions.Audit.Room.{AuditReport, audit, deal_room}
use flop_contributions.Audit.Export.{Capture, load_export}
use flop_contributions.Audit.Numbered.{IsExport, load_export-IsExport}
use flop_contributions.Audit.Sound.{IsAudit, audit-IsAudit}
use flop_contributions.Examples.Open.{opened_all}
use flop_contributions.Examples.Protocol.{result}
use flop_contributions.Examples.Fixtures.{
  platform, toy_hash, toy_dumps, message, line, alice, bob, contract, offer_fields, accept_fields,
  lock_fields, reveal_fields, pick,
}

abbrev on_board : List Fields
on_board =
    message 1 alice 10 (line offer_fields)
    ∷ message 2 alice 11 (codes "hello")
    ∷ message 3 bob 12 (line accept_fields)
    ∷ []

abbrev on_deal : List Fields
on_deal = message 4 alice 20 (line lock_fields) ∷ message 5 bob 30 (line reveal_fields) ∷ []

abbrev pub jsonl : List Fields → Bytes
jsonl [] = []
jsonl (r ∷ rs) = toy_dumps (obj r) ++ 10 ∷ jsonl rs

abbrev reading : Platform
reading = record platform { parse_bytes = λ text. pick text (on_board ++ on_deal) }

abbrev capture_of : Str → ℕ → ℕ → List Fields → Value
capture_of room first last rs = obj (
    field "room" (str room) (
      field "generation" (int (pos 1)) (
        field "first_seq" (int (pos first))
          (field "last_seq" (int (pos last)) (field "sha256" (str (toy_hash (jsonl rs))) end)))))

abbrev captures : Value
captures = obj (
    field "board" (capture_of (codes "tclk-offers") 1 3 on_board)
      (field "deal" (capture_of (deal_room contract) 4 5 on_deal) end))

abbrev file_of : List Fields → File
file_of rs = record { regular = true; content = jsonl rs }

audited :
    (r : AuditReport) × (audit reading (file_of on_board) (file_of on_deal) captures (str contract)
      ≡ ok r)
unfolding audit opened_all
audited = result (audit reading (file_of on_board) (file_of on_deal) captures (str contract)) refl

audit-IsAudit_example :
    IsAudit reading (file_of on_board) (file_of on_deal) captures (str contract) audited.0
audit-IsAudit_example =
    audit-IsAudit reading (file_of on_board) (file_of on_deal) captures (str contract) audited.0
      audited.1

abbrev board_capture : Value
board_capture = capture_of (codes "tclk-offers") 1 3 on_board

loaded : (r : Capture × List Fields) × (load_export reading (file_of on_board) board_capture ≡ ok r)
unfolding opened_all
loaded = result (load_export reading (file_of on_board) board_capture) refl

load_export-IsExport_example :
    IsExport reading (file_of on_board) board_capture loaded.0.0 loaded.0.1
load_export-IsExport_example =
    load_export-IsExport reading (file_of on_board) board_capture loaded.0.0 loaded.0.1 loaded.1
