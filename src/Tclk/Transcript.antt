-- ===== src/Tclk/Transcript.antt =====
-- `validate_transcript`: the header of a saved mailbox batch, the loop over its messages, and the
-- report. `contracts` owns the Contract objects, by offer id; `contract_by_id` shares them, so it
-- holds the offer id of the object.
pub mod Replays
pub mod History
pub mod Led
pub mod Follow
pub mod Apart
pub mod Sequence
pub mod Loop
use flop_contributions.Prelude.{
  ℕ, zero, suc, ◌+◌, ℤ, pos, negsuc, Bool, true, false, not, ◌&&◌, ◌||◌, Option, none, some, List,
  [], ◌∷◌, String, length, ltb, leb, ◌==◌, eq_ℤ, if◌then◌else◌,
}
use flop_contributions.Outcome.{
  Outcome, ok, err, value_error, key_error, attribute_error, ◌>>=◌, ◌>>◌, guard, or_raise,
}
use flop_contributions.Text.{Str, codes, eq_str, mem_str, is_did}
use flop_contributions.Json.{
  Value, null, int, str, arr, obj, Fields, end, field, elements, get, has_exactly, is_str, is_int,
}
use flop_contributions.Table.{find, put, sorted}
use flop_contributions.Platform.{Platform, redacted_hash}
use flop_contributions.Tclk.Patterns.{max_safe_integer}
use flop_contributions.Tclk.Frame.{Status, Offer, Body, Frame}
use flop_contributions.Tclk.Validate.{decode_line}
use flop_contributions.Tclk.Transport.{verify_transport, parse_time}
use flop_contributions.Tclk.Contract.{Contract, new, apply}

abbrev pub batch_keys : List String
batch_keys =
    "status" ∷ "generation" ∷ "starting_cursor" ∷ "proposed_cursor" ∷ "count" ∷ "first_seq"
    ∷ "last_seq" ∷ "messages" ∷ []

abbrev pub message_keys : List String
message_keys = "seq" ∷ "from" ∷ "ts" ∷ "nonce" ∷ "text" ∷ "sig" ∷ []

-- `d.get(key)`, which is None for a key that is not there
unfoldable pub value_at : String → Fields → Value
value_at k fs = elim (get k fs) [ none ↦ null | some v ↦ v ]

-- The local variables of the loop.
pub record State : Type 0 where
  pub contracts : List (Str × Contract)
  pub contract_by_id : List (Str × Str)
  pub seen_lines : List Str
  pub ignored : ℕ
  pub accepted : ℕ
  pub previous_seq : ℕ

-- `type(value) is int and 0 <= value <= MAX_SAFE_INTEGER`
unfoldable pub bounded : Value → Option ℕ
bounded (int (pos n)) = if leb n max_safe_integer then some n else none
bounded _ = none

unfoldable pub check_sequence : ℕ → ℕ → ℕ → ℕ → Value → Outcome ℕ
unfolding bounded
check_sequence starting proposed index previous seq = do
  n ← or_raise (bounded seq) "transport sequence is malformed"
  guard (ltb 0 n) "transport sequence is malformed"
  guard (ltb previous n && leb n proposed) "transport sequence is outside the batch cursor range"
  guard ((index == 0 && starting == 0) || n == previous + 1)
      "transport transcript contains a sequence gap or replay"
  ok n

-- `message.get("from") == frame["from"] and DID.fullmatch(...)`
unfoldable pub same_sender : Option Value → Str → Bool
unfolding eq_str is_did
same_sender (some (str s)) sender = eq_str s sender && is_did s
same_sender _ sender = false

-- The contract that a frame other than an offer names.
unfoldable pub contract_of : Body → Str
contract_of (Body.offer o) = o.id
contract_of (Body.accept ref statement contract nonce) = contract
contract_of (Body.lock contract rail ref) = contract
contract_of (Body.reveal contract secret ref) = contract
contract_of (Body.refund contract ref) = contract
contract_of (Body.cancel contract) = contract
contract_of (Body.receipt contract outcome rail ref) = contract
contract_of (Body.heartbeat contract) = contract

unfoldable pub enter_offer : State → Offer → Outcome State
unfolding find put new
enter_offer s offer = elim (find offer.id s.contracts) [
  | some _ ↦ err (value_error "duplicate or replayed offer")
  | none ↦ ok (record s { contracts = put offer.id (new offer) s.contracts })
]

unfoldable pub enter_accept : Platform → State → Frame → ℤ → Str → Str → Outcome State
unfolding find put apply
enter_accept p s frame now ref contract = do
  state ← or_raise (find ref s.contracts) "accept appears before its offer"
  next ← apply p state frame now
  ok (record s {
    contracts = put ref next s.contracts;
    contract_by_id = put contract ref s.contract_by_id;
  })

-- `contract_by_id` shares an object of `contracts`: the object is there.
unfoldable pub held : Str → State → Outcome Contract
unfolding find
held owner s = elim (find owner s.contracts) [ none ↦ err key_error | some c ↦ ok c ]

unfoldable pub enter_other : Platform → State → Frame → ℤ → Outcome State
unfolding find put apply contract_of held
enter_other p s frame now = do
  owner ←
      or_raise (find (contract_of frame.body) s.contract_by_id)
        "frame appears before its accepted contract"
  state ← held owner s
  next ← apply p state frame now
  ok (record s { contracts = put owner next s.contracts })

unfoldable pub enter_body : Platform → State → Frame → ℤ → Body → Outcome State
unfolding enter_offer enter_accept enter_other
enter_body p s frame now (Body.offer offer) = enter_offer s offer
enter_body p s frame now (Body.accept ref statement contract nonce) =
    enter_accept p s frame now ref contract
enter_body p s frame now _ = enter_other p s frame now

unfoldable pub enter : Platform → State → Frame → ℤ → Outcome State
unfolding enter_body
enter p s frame now = enter_body p s frame now frame.body

-- What the loop does with a decoded line.
unfoldable pub enter_line : Platform → Fields → State → Str → Option Frame → Outcome State
unfolding enter same_sender mem_str
enter_line p message s text none = ok (record s { ignored = s.ignored + 1 })
enter_line p message s text (some frame) = do
  guard (not (mem_str text s.seen_lines)) "duplicate or replayed tclk frame"
  guard (same_sender (get "from" message) frame.sender)
      "frame sender does not match transport-verified sender"
  now ← parse_time p (get "ts" message)
  next ← enter p (record s { seen_lines = text ∷ s.seen_lines }) frame now
  ok (record next { accepted = next.accepted + 1 })

abbrev pub text_or_empty : Value → Str
text_or_empty (str s) = s
text_or_empty _ = []

-- The body of the loop.
unfoldable pub process : Platform → Str → ℕ → ℕ → ℕ → State → Value → Outcome State
unfolding check_sequence enter_line value_at
process p room starting proposed index s (obj message) = do
  guard (has_exactly message message_keys)
      "transport message fields do not match the saved-batch schema"
  seq ← check_sequence starting proposed index s.previous_seq (value_at "seq" message)
  verify_transport p room message
  frame ← decode_line p (value_at "text" message)
  enter_line p message (record s { previous_seq = seq }) (text_or_empty (value_at "text" message))
      frame
process p room starting proposed index s _ =
    err (value_error "transport message fields do not match the saved-batch schema")

unfoldable pub process_all : Platform → Str → ℕ → ℕ → ℕ → State → List Value → Outcome State
unfolding process
process_all p room starting proposed index s [] = ok s
process_all p room starting proposed index s (m ∷ ms) = do
  next ← process p room starting proposed index s m
  process_all p room starting proposed (suc index) next ms
