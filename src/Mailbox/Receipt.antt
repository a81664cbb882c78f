-- ===== src/Mailbox/Receipt.antt =====
-- `validate_batch` around its loop: the header of the batch and the receipt; and the receipt as JSON.
use flop_contributions.Prelude.{
  ℕ, ◌+◌, pos, Bool, true, false, not, ◌&&◌, ◌||◌, Option, none, some, List, [], ◌∷◌, length, leb,
  ◌==◌, if◌then◌else◌,
}
use flop_contributions.Outcome.{Outcome, ok, err, attribute_error, ◌>>=◌, ◌>>◌, require, or_fail}
use flop_contributions.Text.{Str, codes}
use flop_contributions.Json.{
  Value, null, bool, int, str, arr, obj, Items, nil, cons, Fields, end, field, elements,
  has_exactly, is_str, is_int,
}
use flop_contributions.Platform.{Platform, redacted_hash}
use flop_contributions.Tclk.Transcript.{batch_keys, value_at, bounded}
use flop_contributions.Mailbox.Review.{max_messages, Verifier, Reviewed, review_messages}

-- The checked header of a batch.
pub record Header : Type 0 where
  pub generation : ℕ
  pub starting : ℕ
  pub proposed : ℕ
  pub messages : List Value

abbrev pub list_of : Value → Option (List Value)
list_of (arr xs) = if leb (length (elements xs)) max_messages then some (elements xs) else none
list_of _ = none

-- `messages[0].get("seq")` raises AttributeError where the first message is no dict.
unfoldable pub check_first : List Value → Value → ℕ → ℕ → Outcome (Unit {0})
unfolding bounded is_int value_at
check_first [] first proposed starting =
    require ((elim first [ null ↦ true | _ ↦ false ]) && proposed == starting)
      "empty batch cursor fields are inconsistent"
check_first (obj message ∷ vs) first proposed starting = do
  n ← or_fail (bounded first) "first sequence does not match the first message"
  require (is_int (value_at "seq" message) (pos n))
      "first sequence does not match the first message"
check_first (_ ∷ vs) first proposed starting = do
  or_fail (bounded first) "first sequence does not match the first message"
  err attribute_error

unfoldable pub read_batch : Fields → Outcome Header
unfolding has_exactly is_str bounded value_at check_first
read_batch batch = do
  require (has_exactly batch batch_keys) "batch fields do not match the trusted poll-output schema"
  require (is_str (value_at "status" batch) (codes "ok"))
      "only a status=ok poll batch can be reviewed"
  generation ←
      or_fail (bounded (value_at "generation" batch)) "must be a bounded nonnegative integer"
  starting ←
      or_fail (bounded (value_at "starting_cursor" batch)) "must be a bounded nonnegative integer"
  proposed ←
      or_fail (bounded (value_at "proposed_cursor" batch)) "must be a bounded nonnegative integer"
  count ← or_fail (bounded (value_at "count" batch)) "must be a bounded nonnegative integer"
  last ← or_fail (bounded (value_at "last_seq" batch)) "must be a bounded nonnegative integer"
  messages ←
      or_fail (list_of (value_at "messages" batch))
        "messages must be an array of at most 200 records"
  require (count == length messages) "count does not match the number of messages"
  require (proposed == last && leb starting proposed)
      "proposed cursor and last sequence are inconsistent"
  check_first messages (value_at "first_seq" batch) proposed starting
  ok (record {
    generation = generation;
    starting = starting;
    proposed = proposed;
    messages = messages;
  })

pub record Receipt : Type 0 where
  pub generation : ℕ
  pub starting_cursor : ℕ
  pub proposed_cursor : ℕ
  pub count : ℕ
  pub batch_sha256 : Str
  -- `signature_status` is "all_valid", and not "no_messages"
  pub all_valid : Bool
  pub ack_eligible : Bool
  pub ack_cursor : Option ℕ
  pub url_count : ℕ
  pub messages : List Reviewed

unfoldable pub reviewed_value : Reviewed → Value
reviewed_value r = obj (
    field "seq" (int (pos r.seq)) (
      field "sender_sha256" (str r.sender_sha256) (
        field "message_sha256" (str r.message_sha256) (
          field "envelope_sha256" (str r.envelope_sha256) (
            field "signature_sha256" (str r.signature_sha256)
              (field "contains_url" (bool r.has_url) end))))))

unfoldable pub reviewed_items : List Reviewed → Items
unfolding reviewed_value
reviewed_items [] = nil
reviewed_items (r ∷ rs) = cons (reviewed_value r) (reviewed_items rs)

-- The value whose canonical print is `digest_source`.
unfoldable pub digest_source : Header → List Reviewed → Value
unfolding reviewed_items
digest_source h reviewed = obj (
    field "generation" (int (pos h.generation)) (
      field "starting_cursor" (int (pos h.starting)) (
        field "proposed_cursor" (int (pos h.proposed))
          (field "messages" (arr (reviewed_items reviewed)) end))))

-- `sum(item["contains_url"] for item in reviewed)`
unfoldable pub count_urls : List Reviewed → ℕ
count_urls [] = 0
count_urls (r ∷ rs) = (if r.has_url then 1 else 0) + count_urls rs

abbrev pub nonempty {ℓ} : {A : Type ℓ} → List A → Bool
nonempty [] = false
nonempty (x ∷ xs) = true

unfoldable pub validate_batch : Platform → Verifier → Str → Fields → Outcome Receipt
unfolding read_batch review_messages digest_source count_urls redacted_hash
validate_batch p verifier room batch = do
  h ← read_batch batch
  loop ← review_messages p verifier room h.starting h.proposed 0 h.starting [] h.messages
  require (not (nonempty h.messages) || loop.1 == h.proposed)
      "last reviewed sequence does not equal the proposed cursor"
  batch_hash ← redacted_hash p (p.dumps (digest_source h loop.0))
  ok (record {
    generation = h.generation;
    starting_cursor = h.starting;
    proposed_cursor = h.proposed;
    count = length h.messages;
    batch_sha256 = batch_hash;
    all_valid = nonempty h.messages;
    ack_eligible = nonempty h.messages;
    ack_cursor = if nonempty h.messages then some h.proposed else none;
    url_count = count_urls loop.0;
    messages = loop.0;
  })

unfoldable pub receipt_value : Receipt → Value
unfolding reviewed_items
receipt_value r = obj (
    field "schema_version" (int (pos 1)) (
      field "generation" (int (pos r.generation)) (
        field "starting_cursor" (int (pos r.starting_cursor)) (
          field "proposed_cursor" (int (pos r.proposed_cursor)) (
            field "count" (int (pos r.count)) (
              field "batch_sha256" (str r.batch_sha256) (
                field "signature_status"
                  (str (if r.all_valid then codes "all_valid" else codes "no_messages"))
                  (field "ack_eligible" (bool r.ack_eligible) (
                    field "ack_cursor" (elim r.ack_cursor [ none ↦ null | some n ↦ int (pos n) ])
                      (field "url_count" (int (pos r.url_count))
                        (field "messages" (arr (reviewed_items r.messages)) end)))))))))))
