-- ===== src/Tclk/Report.antt =====
-- The header checks of `validate_transcript`, and the report that it returns.
pub mod Sound
pub mod Header
pub mod Entries
use flop_contributions.Prelude.{
  ℕ, zero, suc, ◌+◌, ℤ, pos, Bool, true, false, not, ◌&&◌, ◌||◌, Option, none, some, List, [], ◌∷◌,
  length, leb, ◌==◌, if◌then◌else◌,
}
use flop_contributions.Outcome.{
  Outcome, ok, err, value_error, attribute_error, ◌>>=◌, ◌>>◌, guard, or_raise,
}
use flop_contributions.Text.{Str, codes}
use flop_contributions.Json.{
  Value, null, int, str, arr, obj, Fields, end, field, elements, has_exactly, is_str, is_int,
}
use flop_contributions.Table.{sorted}
use flop_contributions.Platform.{Platform, redacted_hash}
use flop_contributions.Tclk.Frame.{Status}
use flop_contributions.Tclk.Contract.{Contract}
use flop_contributions.Tclk.Transcript.{State, batch_keys, value_at, bounded, process_all}

-- The checked header of a batch.
pub record Batch : Type 0 where
  pub generation : ℕ
  pub starting : ℕ
  pub proposed : ℕ
  pub count : ℕ
  pub first_seq : Value
  pub last_seq : ℕ
  pub messages : List Value

abbrev pub list_of : Value → Option (List Value)
list_of (arr xs) = some (elements xs)
list_of _ = none

-- `first_seq` is an int that equals `messages[0].get("seq")`; a first message that is no dict has
-- no `get`.
unfoldable pub check_first : Value → List Value → ℕ → ℕ → Outcome (Unit {0})
unfolding value_at
check_first null [] starting proposed =
    guard (proposed == starting) "empty batch cursor fields are inconsistent"
check_first _ [] starting proposed = err (value_error "empty batch cursor fields are inconsistent")
check_first (int n) (obj message ∷ ms) starting proposed =
    guard (is_int (value_at "seq" message) n) "first sequence does not match the first message"
check_first (int n) (_ ∷ ms) starting proposed = err attribute_error
check_first _ (_ ∷ ms) starting proposed =
    err (value_error "first sequence does not match the first message")

unfoldable pub read_header : Value → Outcome Batch
unfolding check_first bounded value_at
read_header (obj payload) = do
  guard (has_exactly payload batch_keys) "input fields do not match the saved mailbox batch schema"
  guard (is_str (value_at "status" payload) (codes "ok"))
      "only a status=ok saved mailbox batch can be validated"
  generation ←
      or_raise (bounded (value_at "generation" payload)) "must be a bounded nonnegative integer"
  starting ←
      or_raise (bounded (value_at "starting_cursor" payload))
        "must be a bounded nonnegative integer"
  proposed ←
      or_raise (bounded (value_at "proposed_cursor" payload))
        "must be a bounded nonnegative integer"
  count ← or_raise (bounded (value_at "count" payload)) "must be a bounded nonnegative integer"
  last_seq ←
      or_raise (bounded (value_at "last_seq" payload)) "must be a bounded nonnegative integer"
  messages ←
      or_raise (list_of (value_at "messages" payload)) "count does not match the messages array"
  guard (count == length messages) "count does not match the messages array"
  guard (proposed == last_seq && leb starting proposed)
      "proposed cursor and last sequence are inconsistent"
  check_first (value_at "first_seq" payload) messages starting proposed
  ok (record {
    generation = generation;
    starting = starting;
    proposed = proposed;
    count = count;
    first_seq = value_at "first_seq" payload;
    last_seq = last_seq;
    messages = messages;
  })
read_header _ = err (value_error "input fields do not match the saved mailbox batch schema")

unfoldable pub initial : ℕ → State
initial starting = record {
  contracts = [];
  contract_by_id = [];
  seen_lines = [];
  ignored = 0;
  accepted = 0;
  previous_seq = starting;
}

pub record ContractReport : Type 0 where
  pub offer_sha256 : Str
  pub contract_sha256 : Option Str
  pub status : Status
  pub rail : Option Str

pub record Report : Type 0 where
  pub batch : Batch
  pub batch_binding_sha256 : Str
  pub accepted_frame_count : ℕ
  pub ignored_non_tclk_count : ℕ
  pub contracts : List ContractReport

-- `redacted_hash(state.contract) if state.contract else None`
unfoldable pub hash_contract : Platform → Option Str → Outcome (Option Str)
unfolding redacted_hash
hash_contract p none = ok none
hash_contract p (some []) = ok none
hash_contract p (some (c ∷ s)) = do h ← redacted_hash p (c ∷ s); ok (some h)

unfoldable pub report_contract : Platform → Str × Contract → Outcome ContractReport
unfolding hash_contract
report_contract p (offer_id, state) = do
  offer_hash ← redacted_hash p offer_id
  contract_hash ← hash_contract p state.contract
  ok (record {
    offer_sha256 = offer_hash;
    contract_sha256 = contract_hash;
    status = state.status;
    rail = state.rail;
  })

unfoldable pub report_contracts : Platform → List (Str × Contract) → Outcome (List ContractReport)
unfolding report_contract
report_contracts p [] = ok []
report_contracts p (e ∷ es) = do r ← report_contract p e; rs ← report_contracts p es; ok (r ∷ rs)

abbrev pub binding : Batch → Value
binding b = obj (
    field "generation" (int (pos b.generation)) (
      field "starting_cursor" (int (pos b.starting)) (
        field "proposed_cursor" (int (pos b.proposed)) (
          field "count" (int (pos b.count))
            (field "first_seq" b.first_seq (field "last_seq" (int (pos b.last_seq)) end))))))

unfoldable pub validate_transcript : Platform → Value → Str → Outcome Report
unfolding read_header initial report_contracts process_all sorted
validate_transcript p payload room = do
  b ← read_header payload
  s ← process_all p room b.starting b.proposed 0 (initial b.starting) b.messages
  guard (length b.messages == 0 || s.previous_seq == b.proposed)
      "last message sequence does not match the proposed cursor"
  binding_hash ← redacted_hash p (p.dumps (binding b))
  contracts ← report_contracts p (sorted s.contracts)
  ok (record {
    batch = b;
    batch_binding_sha256 = binding_hash;
    accepted_frame_count = s.accepted;
    ignored_non_tclk_count = s.ignored;
    contracts = contracts;
  })
