-- ===== src/Tclk/Validate.antt =====
-- `require_string`, `require_ms`, `validate_job`, `validate_frame` and `decode_line`.

pub mod Lines
use flop_contributions.Prelude.{
  ℕ, zero, suc, ℤ, pos, negsuc, String, Bool, true, false, not, ◌&&◌, ◌||◌, Option, none, some,
  List, [], ◌∷◌, ◌++◌, length, drop, all, ltb, leb, if◌then◌else◌,
}
use flop_contributions.Outcome.{
  Outcome, ok, err, value_error, type_error, ◌>>=◌, ◌>>◌, guard, or_raise,
}
use flop_contributions.Text.{Str, codes, eq_str, starts_with, is_did}
use flop_contributions.Json.{
  Value, null, bool, int, real, str, arr, obj, Items, nil, cons, Fields, elements, get, keys,
  has_key, subset, without, hashable, is_str,
}
use flop_contributions.Platform.{Platform, loads, digest}
use flop_contributions.Tclk.Patterns.{
  max_safe_integer, max_chars, prefix, is_hex32, is_amount, is_asset, is_rail, is_proto, is_nonce,
  is_printable,
}
use flop_contributions.Tclk.Frame.{
  Role, payer, payee, Status, claimed, refunded, cancelled, Kind, Offer, Body, Frame, parse_kind,
  required, optional,
}

-- A non-empty text that fits the pattern.
unfoldable pub text_of : Option Value → (Str → Bool) → Outcome Str
text_of (some (str (c ∷ s))) pattern = do guard (pattern (c ∷ s)) "is malformed"; ok (c ∷ s)
text_of _ pattern = err (value_error "must be a non-empty string")

unfoldable pub require_string : Fields → String → (Str → Bool) → Outcome Str
unfolding text_of
require_string frame name pattern = text_of (get name frame) pattern

abbrev pub any_text : Str → Bool
any_text s = true

-- `if name in frame: require_string(frame, name, pattern)`
unfoldable pub optional_string : Fields → String → (Str → Bool) → Outcome (Option Str)
unfolding require_string
optional_string frame name pattern =
    if has_key name frame then (do s ← require_string frame name pattern; ok (some s)) else ok none

unfoldable pub ms_of : Option Value → Outcome ℕ
ms_of (some (int (pos n))) = do
  guard (ltb 0 n && leb n max_safe_integer) "must be a positive safe unix-ms integer"
  ok n
ms_of _ = err (value_error "must be a positive safe unix-ms integer")

unfoldable pub require_ms : Fields → String → Outcome ℕ
unfolding ms_of
require_ms frame name = ms_of (get name frame)

abbrev is_nonempty_text : Option Value → Bool
is_nonempty_text (some (str (c ∷ s))) = true
is_nonempty_text _ = false

abbrev fits_proto : Option Value → Bool
fits_proto (some (str s)) = is_proto s
fits_proto _ = false

unfoldable pub validate_job : Value → Outcome (Unit {0})
validate_job (obj job) = do
  guard (subset ("proto" ∷ "id" ∷ []) (keys job)) "job must contain proto and id"
  guard (subset (keys job) ("proto" ∷ "id" ∷ "context" ∷ [])) "job contains an unknown field"
  guard (fits_proto (get "proto" job)) "job.proto is malformed"
  guard (is_nonempty_text (get "id" job)) "job.id is malformed"
  guard (not (has_key "context" job) || is_nonempty_text (get "context" job))
      "job.context is malformed"
validate_job _ = err (value_error "job must contain proto and id")

unfoldable pub optional_job : Option Value → Outcome (Unit {0})
unfolding validate_job
optional_job none = ok tt
optional_job (some job) = validate_job job

-- `frame.get(name) not in {…}` raises TypeError for a list or a dict.
unfoldable pub choice {ℓ} : {A : Type ℓ} → Option Value → (Str → Option A) → String → Outcome A
choice (some (str s)) parse message = or_raise (parse s) message
choice (some (arr xs)) parse message = err type_error
choice (some (obj fs)) parse message = err type_error
choice _ parse message = err (value_error message)

abbrev pub parse_role : Str → Option Role
parse_role s =
    if eq_str s (codes "payer")
    then some payer
    else if eq_str s (codes "payee")
    then some payee
    else none

abbrev pub parse_outcome : Str → Option Status
parse_outcome s =
    if eq_str s (codes "claimed")
    then some claimed
    else if eq_str s (codes "refunded")
    then some refunded
    else if eq_str s (codes "cancelled")
    then some cancelled
    else none

-- Every item of `rails` is a text that fits RAIL.
unfoldable pub rail_texts : List Value → Option (List Str)
rail_texts [] = some []
rail_texts (str s ∷ vs) = elim (rail_texts vs) [
  | none ↦ none
  | some rest ↦ if is_rail s then some (s ∷ rest) else none
]
rail_texts (_ ∷ vs) = none

unfoldable pub rails_of : Option Value → Option (List Str)
unfolding rail_texts
rails_of (some (arr (cons v xs))) = rail_texts (v ∷ elements xs)
rails_of _ = none

unfoldable pub is_hash_lock : Option Value → Bool
is_hash_lock (some v) = is_str v (codes "hash")
is_hash_lock none = false

unfoldable pub validate_offer : Platform → Str → Fields → Outcome Body
unfolding require_string require_ms rails_of is_hash_lock choice optional_job
validate_offer p sender frame = do
  role ← choice (get "role" frame) parse_role "offer role must be payer or payee"
  require_string frame "amount" is_amount
  require_string frame "asset" is_asset
  guard (is_hash_lock (get "lock" frame)) "only hash-lock tclk/1 transcripts are supported"
  rails ← or_raise (rails_of (get "rails" frame)) "offer rails are malformed"
  claim ← require_ms frame "claimByMs"
  refund ← require_ms frame "refundAfterMs"
  expires ← require_ms frame "expiresMs"
  guard (ltb claim refund) "claimByMs must precede refundAfterMs"
  guard (not (has_key "paymentKey" frame)) "paymentKey is not accepted"
  optional_job (get "job" frame)
  require_string frame "nonce" is_nonce
  id ← require_string frame "id" is_hex32
  guard (eq_str id (digest p (codes "offer") (obj (without "id" frame)))) "offer id mismatch"
  ok (
      Body.offer (record {
        sender = sender;
        role = role;
        rails = rails;
        claim_by_ms = claim;
        refund_after_ms = refund;
        expires_ms = expires;
        id = id;
        fields = frame;
      }))

unfoldable pub validate_body : Platform → Kind → Str → Fields → Outcome Body
unfolding validate_offer optional_string
validate_body p Kind.offer sender frame = validate_offer p sender frame
validate_body p Kind.accept sender frame = do
  ref ← require_string frame "ref" is_hex32
  statement ← require_string frame "statement" is_hex32
  contract ← require_string frame "contract" is_hex32
  nonce ← require_string frame "nonce" is_nonce
  guard (not (has_key "paymentKey" frame)) "paymentKey is not accepted"
  ok (Body.accept ref statement contract nonce)
validate_body p Kind.lock sender frame = do
  contract ← require_string frame "contract" is_hex32
  rail ← require_string frame "rail" is_rail
  ref ← require_string frame "ref" any_text
  guard (not (has_key "presig" frame)) "PTLC pre-signatures are unsupported"
  ok (Body.lock contract rail ref)
validate_body p Kind.reveal sender frame = do
  contract ← require_string frame "contract" is_hex32
  secret ← require_string frame "secret" is_hex32
  ref ← optional_string frame "ref" any_text
  ok (Body.reveal contract secret ref)
validate_body p Kind.refund sender frame = do
  contract ← require_string frame "contract" is_hex32
  ref ← optional_string frame "ref" any_text
  optional_string frame "reason" any_text
  ok (Body.refund contract ref)
validate_body p Kind.cancel sender frame = do
  contract ← require_string frame "contract" is_hex32
  optional_string frame "reason" any_text
  ok (Body.cancel contract)
validate_body p Kind.receipt sender frame = do
  contract ← require_string frame "contract" is_hex32
  outcome ← choice (get "outcome" frame) parse_outcome "receipt outcome is malformed"
  rail ← optional_string frame "rail" is_rail
  ref ← optional_string frame "ref" any_text
  ok (Body.receipt contract outcome rail ref)
validate_body p Kind.heartbeat sender frame = do
  contract ← require_string frame "contract" is_hex32
  require_string frame "nonce" is_nonce
  optional_string frame "note" any_text
  ok (Body.heartbeat contract)

unfoldable pub fields_match : Kind → Fields → Bool
fields_match kind frame =
    subset (keys frame) (required kind ++ optional kind) && subset (required kind) (keys frame)

unfoldable pub validate_frame : Platform → Value → Outcome Frame
unfolding validate_body fields_match choice require_string
validate_frame p (obj frame) = do
  kind ← choice (get "type" frame) parse_kind "unknown frame type"
  guard (fields_match kind frame) "fields do not match tclk/1"
  sender ← require_string frame "from" is_did
  body ← validate_body p kind sender frame
  ok (record { sender = sender; body = body; fields = frame })
validate_frame p _ = err (value_error "frame must be an object")

-- `none` is a text that does not start with the prefix.
unfoldable pub decode_line : Platform → Value → Outcome (Option Frame)
unfolding validate_frame loads
decode_line p (str text) = if not (starts_with prefix text) then ok none else do
  guard (leb (length text) max_chars && all is_printable text)
      "tclk line exceeds limits or is not printable ASCII"
  parsed ← loads p (drop (length prefix) text)
  frame ← validate_frame p parsed
  guard (eq_str (drop (length prefix) text) (p.dumps (obj frame.fields)))
      "tclk frame is not canonical JSON"
  ok (some frame)
decode_line p _ = err (value_error "transport text must be a string")
