-- ===== src/Audit/Room.antt =====
-- `audit`: the loop over the records of the offer board and then of the deal room, and the report.
use flop_contributions.Prelude.{
  ℕ, ◌+◌, ℤ, Bool, true, false, not, ◌&&◌, Option, none, some, List, [], ◌∷◌, ◌++◌, take, drop,
  ltb_ℤ, if◌then◌else◌,
}
use flop_contributions.Outcome.{
  Outcome, ok, err, type_error, attribute_error, ◌>>=◌, ◌>>◌, guard, or_raise,
}
use flop_contributions.Text.{Str, codes, eq_str, mem_str, starts_with}
use flop_contributions.Json.{
  Value, str, obj, Fields, end, field, get, has_key, has_exactly, without, append_field, is_str,
}
use flop_contributions.Table.{find, put}
use flop_contributions.Platform.{Platform, File, redacted_hash}
use flop_contributions.Tclk.Patterns.{prefix, is_hex32}
use flop_contributions.Tclk.Frame.{Status, Offer, Body, Frame}
use flop_contributions.Tclk.Validate.{decode_line}
use flop_contributions.Tclk.Transport.{parse_time}
use flop_contributions.Tclk.Contract.{Contract, new, apply}
use flop_contributions.Tclk.Transcript.{value_at, contract_of, text_or_empty}
use flop_contributions.Audit.Export.{load_export}

pub data Source : Type 0 where
  board deal : Source

-- An offer of the board: its frame, its time, and whether it was accepted.
pub record Listed : Type 0 where
  pub offer : Offer
  pub offered_time : ℤ
  pub bound : Bool

-- The contract that the target names, and the time of its last frame.
pub record Selected : Type 0 where
  pub contract : Contract
  pub time : ℤ

-- The variables of the loop. `state` and `accepted_time` are set together.
pub record Progress : Type 0 where
  pub offers : List (Str × Listed)
  pub selected : Option Selected
  pub seen : List Str
  pub board_count : ℕ
  pub deal_count : ℕ

-- Offers and acceptances belong to the board, all other frames to the deal room.
unfoldable pub belongs : Source → Body → Bool
belongs board (Body.offer o) = true
belongs board (Body.accept ref statement contract nonce) = true
belongs board _ = false
belongs deal (Body.offer o) = false
belongs deal (Body.accept ref statement contract nonce) = false
belongs deal _ = true

unfoldable pub count_frame : Source → Progress → Progress
count_frame board s = record s { board_count = s.board_count + 1 }
count_frame deal s = record s { deal_count = s.deal_count + 1 }

unfoldable pub list_offer : Progress → Offer → ℤ → Outcome Progress
unfolding put
list_offer s offer now = ok (record s {
  offers = put offer.id (record { offer = offer; offered_time = now; bound = false }) s.offers;
})

unfoldable pub accept_offer : Platform → Str → Progress → Frame → ℤ → Str → Str → Outcome Progress
unfolding find put new apply
accept_offer p target s frame now ref contract = do
  listed ← or_raise (find ref s.offers) "accept precedes its retained offer"
  guard (not listed.bound && not (ltb_ℤ now listed.offered_time))
      "duplicate acceptance or reversed venue time"
  candidate ← apply p (new listed.offer) frame now
  ok (record s {
    offers = put ref (record listed { bound = true }) s.offers;
    selected =
        if eq_str contract target
        then some (record { contract = candidate; time = now })
        else s.selected;
  })

unfoldable pub advance_selected : Platform → Str → Progress → Frame → ℤ → Outcome Progress
unfolding apply contract_of eq_str
advance_selected p target s frame now = do
  current ← or_raise s.selected "deal frame lacks the selected board acceptance"
  guard (eq_str (contract_of frame.body) target) "deal frame lacks the selected board acceptance"
  guard (not (ltb_ℤ now current.time)) "deal timestamp precedes prior selected frame"
  next ← apply p current.contract frame now
  ok (record s { selected = some (record { contract = next; time = now }) })

unfoldable pub audit_body : Platform → Str → Progress → Frame → ℤ → Body → Outcome Progress
unfolding list_offer accept_offer advance_selected
audit_body p target s frame now (Body.offer offer) = list_offer s offer now
audit_body p target s frame now (Body.accept ref statement contract nonce) =
    accept_offer p target s frame now ref contract
audit_body p target s frame now _ = advance_selected p target s frame now

-- `decode_line` returns None only for a text without the prefix; subscripting it would raise.
unfoldable pub audit_frame :
    Platform → Str → Source → Progress → Fields → Str → Option Frame → Outcome Progress
unfolding belongs mem_str parse_time audit_body count_frame value_at is_str
audit_frame p target source s fields text none = err type_error
audit_frame p target source s fields text (some frame) = do
  guard (is_str (value_at "from" fields) frame.sender) "frame and transport sender differ"
  guard (belongs source frame.body) "frame is in the wrong protocol room"
  guard (not (mem_str text s.seen)) "replayed protocol frame"
  now ← parse_time p (get "ts" fields)
  next ← audit_body p target (record s { seen = text ∷ s.seen }) frame now frame.body
  ok (count_frame source next)

-- A record with a signature whose text carries the prefix.
unfoldable pub is_protocol : Fields → Bool
unfolding has_key starts_with value_at
is_protocol fields =
    has_key "sig" fields && starts_with prefix (text_or_empty (value_at "text" fields))

unfoldable pub audit_record : Platform → Str → Source → Progress → Fields → Outcome Progress
unfolding is_protocol audit_frame decode_line value_at
audit_record p target source s fields = if not (is_protocol fields) then ok s else do
  frame ← decode_line p (value_at "text" fields)
  audit_frame p target source s fields (text_or_empty (value_at "text" fields)) frame

unfoldable pub audit_records : Platform → Str → Source → Progress → List Fields → Outcome Progress
unfolding audit_record
audit_records p target source s [] = ok s
audit_records p target source s (r ∷ rs) = do
  next ← audit_record p target source s r
  audit_records p target source next rs

abbrev pub nothing_seen : Progress
nothing_seen = record { offers = []; selected = none; seen = []; board_count = 0; deal_count = 0 }

-- "mb-p-tclk-" + contract[2:18]
unfoldable pub deal_room : Str → Str
deal_room target = codes "mb-p-tclk-" ++ take 16 (drop 2 target)

pub record AuditReport : Type 0 where
  pub contract_sha256 : Str
  pub status : Status
  pub binding_sha256 : Str
  pub board_frames : ℕ
  pub deal_frames : ℕ

-- {**{key: value for key, value in item.items() if key != "room"}, "room_sha256": …}
unfoldable pub bind_capture : Platform → Value → Outcome Value
unfolding without append_field redacted_hash value_at
bind_capture p (obj item) = do
  h ← redacted_hash p (text_or_empty (value_at "room" item))
  ok (obj (append_field (without "room" item) "room_sha256" (str h)))
bind_capture p _ = err attribute_error

unfoldable pub bind_captures : Platform → Fields → Outcome Fields
unfolding bind_capture
bind_captures p end = ok end
bind_captures p (field name item rest) = do
  b ← bind_capture p item
  bs ← bind_captures p rest
  ok (field name b bs)

abbrev pub hex_target : Value → Option Str
hex_target (str s) = if is_hex32 s then some s else none
hex_target _ = none

abbrev pub capture_fields : Value → Option Fields
capture_fields (obj fs) = if has_exactly fs ("board" ∷ "deal" ∷ []) then some fs else none
capture_fields _ = none

unfoldable pub audit : Platform → File → File → Value → Value → Outcome AuditReport
unfolding is_hex32 has_exactly load_export audit_records deal_room bind_captures redacted_hash
    value_at
audit p board_file deal_file capture contract = do
  target ← or_raise (hex_target contract) "invalid target contract"
  captures ← or_raise (capture_fields capture) "capture must describe board and deal exports"
  on_board ← load_export p board_file (value_at "board" captures)
  on_deal ← load_export p deal_file (value_at "deal" captures)
  guard (eq_str on_board.0.room (codes "tclk-offers")) "offer board room mismatch"
  guard (eq_str on_deal.0.room (deal_room target)) "derived deal room mismatch"
  halfway ← audit_records p target board nothing_seen on_board.1
  last ← audit_records p target deal halfway on_deal.1
  final ← or_raise last.selected "target contract acceptance missing"
  binding ← bind_captures p captures
  target_hash ← redacted_hash p target
  binding_hash ← redacted_hash p (p.dumps (obj binding))
  ok (record {
    contract_sha256 = target_hash;
    status = final.contract.status;
    binding_sha256 = binding_hash;
    board_frames = last.board_count;
    deal_frames = last.deal_count;
  })
