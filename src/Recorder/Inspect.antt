-- ===== src/Recorder/Inspect.antt =====
-- `inspect`: the ranges of sequence numbers of an export, and the receipts that the referee signed.
use flop_contributions.Prelude.{
  ℕ, ◌+◌, pos, Bool, true, false, not, ◌&&◌, ◌||◌, Option, none, some, List, [], ◌∷◌, ◌++◌, String,
  all, ltb, leb, if◌then◌else◌,
}
use flop_contributions.Outcome.{
  Error, value_error, key_error, type_error, Outcome, ok, err, ◌>>=◌, ◌>>◌, guard, or_raise,
}
use flop_contributions.Text.{Str, Bytes, codes}
use flop_contributions.Text.Lines.{splitlines}
use flop_contributions.Text.Utf8.{utf8}
use flop_contributions.Json.{
  Value, int, str, arr, obj, Fields, elements, get, has_key, has_exactly, is_str, hook,
}
use flop_contributions.Platform.{Platform}
use flop_contributions.Tclk.Transcript.{value_at}
use flop_contributions.CloseCall.Rooms.{ends_with}
use flop_contributions.Export.{
  max_sequence, plain_keys, signed_keys, subscript, is_text, verify_signed,
}
use flop_contributions.Recorder.Ranges.{Range, merge}

-- What is recorded, and for whom.
pub record Config : Type 0 where
  pub room : Str
  pub generation : ℕ
  pub after : ℕ
  pub contest_id : Str
  pub request_id : Str
  pub participant : Str
  pub referee : Str

pub record Counts : Type 0 where
  pub signed_valid : ℕ
  pub unsigned : ℕ
  pub invalid_signature : ℕ
  pub referee_payload_unrecognized : ℕ

pub record Receipt : Type 0 where
  pub seq : ℕ
  pub status : Value
  pub signed_record : Fields

-- The variables of the loop.
pub record Seen : Type 0 where
  pub previous : ℕ
  pub seqs : List Range
  pub receipts : List Receipt
  pub counts : Counts

unfoldable pub decode : Platform → Bytes → Outcome Value
unfolding hook
decode p raw = do value ← or_raise (p.parse_finite_bytes raw) "JSONDecodeError"; hook value

-- `names`: the members of the two keys that are there
abbrev pub names_of : Fields → List Value
names_of item = found (get "sender_did" item) ++ found (get "participant_did" item)
  where
    found : Option Value → List Value
    found none = []
    found (some v) = v ∷ []

abbrev pub has_names : List Value → Bool
has_names [] = false
has_names (v ∷ vs) = true

-- `d.get(key, default)`
abbrev pub get_or : String → Fields → Value → Value
get_or key fields default = elim (get key fields) [ none ↦ default | some v ↦ v ]

abbrev pub is_disposition : Value → Bool
is_disposition v = is_str v (codes "accepted") || is_str v (codes "rejected")

-- The item is about the configured request of the configured participant.
unfoldable pub is_matching : Config → Fields → Bool
unfolding get is_str value_at
is_matching config item =
    is_str (get_or "contest_id" item (str config.contest_id)) config.contest_id
    && is_str (value_at "request_id" item) config.request_id
    && has_names (names_of item)
    && all (λ v. is_str v config.participant) (names_of item)

-- One item of a payload: nothing is added unless it matches.
unfoldable pub read_item : Config → ℕ → Fields → Fields → Fields → List Receipt → List Receipt
unfolding is_matching get value_at is_str
read_item config seq row payload item receipts =
    let status = get_or "status" item (value_at "status" payload) in
    if is_matching config item && is_disposition status
    then receipts ++ record { seq = seq; status = status; signed_record = row } ∷ []
    else receipts

-- The items in front of one that is no dict are kept.
unfoldable pub read_items :
    Config → ℕ → Fields → Fields → List Value → List Receipt → List Receipt × Bool
unfolding read_item
read_items config seq row payload [] receipts = (receipts, true)
read_items config seq row payload (obj item ∷ items) receipts =
    read_items config seq row payload items (read_item config seq row payload item receipts)
read_items config seq row payload (_ ∷ items) receipts = (receipts, false)

-- The items of a payload; a payload of another kind has none.
unfoldable pub items_of : Config → Value → Outcome (Option (Fields × List Value))
unfolding is_str value_at subscript elements
items_of config (obj payload) =
    if not (is_str (value_at "contest_id" payload) config.contest_id)
    then ok none
    else if is_str (value_at "type" payload) (codes "sonnet.receipt.v1")
    then ok (some (payload, obj payload ∷ []))
    else if is_str (value_at "type" payload) (codes "sonnet.receipts.v1")
    then (do items ← subscript "receipts" payload; listed payload items)
    else ok none
  where
    listed : Fields → Value → Outcome (Option (Fields × List Value))
    listed payload (arr xs) = ok (some (payload, elements xs))
    listed payload _ = err (value_error "invalid receipt batch")
items_of config _ = ok none

unfoldable pub payload_of : Platform → Config → Fields → Outcome (Option (Fields × List Value))
unfolding value_at decode items_of utf8
payload_of p config row = do
  text ← text_of (value_at "text" row)
  raw ← utf8 text
  payload ← decode p raw
  items_of config payload
  where
    text_of : Value → Outcome Str
    text_of (str s) = ok s
    text_of _ = err type_error

abbrev pub unrecognized : Seen → Seen
unrecognized s = record s {
  counts = record s.counts {
    referee_payload_unrecognized = s.counts.referee_payload_unrecognized + 1;
  };
}

-- ValueError, KeyError and TypeError are caught.
abbrev pub is_caught : Error → Bool
is_caught (value_error m) = true
is_caught key_error = true
is_caught type_error = true
is_caught _ = false

-- The receipts in front of an item that raises are kept.
unfoldable pub keep_receipts : Seen → List Receipt × Bool → Seen
keep_receipts s (receipts, true) = record s { receipts = receipts }
keep_receipts s (receipts, false) = unrecognized (record s { receipts = receipts })

unfoldable pub after_payload :
    Config → ℕ → Fields → Seen → Outcome (Option (Fields × List Value)) → Outcome Seen
unfolding read_items keep_receipts
after_payload config seq row s (err e) = if is_caught e then ok (unrecognized s) else err e
after_payload config seq row s (ok none) = ok s
after_payload config seq row s (ok (some (payload, items))) =
    ok (keep_receipts s (read_items config seq row payload items s.receipts))

-- ValueError and KeyError of `verify_signed` are caught.
abbrev pub is_invalid : Error → Bool
is_invalid (value_error m) = true
is_invalid key_error = true
is_invalid _ = false

abbrev pub counted_valid : Seen → Seen
counted_valid s = record s { counts = record s.counts { signed_valid = s.counts.signed_valid + 1 } }

abbrev pub counted_invalid : Seen → Seen
counted_invalid s = record s {
  counts = record s.counts { invalid_signature = s.counts.invalid_signature + 1 };
}

abbrev pub counted_unsigned : Seen → Seen
counted_unsigned s = record s { counts = record s.counts { unsigned = s.counts.unsigned + 1 } }

-- A signature that verifies is counted; the payload of the referee's records is read.
unfoldable pub after_verification :
    Platform → Config → ℕ → Fields → Seen → Outcome (Unit {0}) → Outcome Seen
unfolding value_at is_str payload_of after_payload
after_verification p config seq row s (err e) =
    if is_invalid e then ok (counted_invalid s) else err e
after_verification p config seq row s (ok u) =
    if is_str (value_at "from" row) config.referee
    then after_payload config seq row (counted_valid s) (payload_of p config row)
    else ok (counted_valid s)

unfoldable pub read_signed : Platform → Config → ℕ → Fields → Seen → Outcome Seen
unfolding has_key verify_signed after_verification
read_signed p config seq row s =
    if has_key "sig" row
    then after_verification p config seq row s (verify_signed p config.room row)
    else ok (counted_unsigned s)

abbrev pub number_of : ℕ → Value → Option ℕ
number_of previous (int (pos n)) = if ltb previous n && leb n max_sequence then some n else none
number_of previous _ = none

-- `seqs.append([seq, seq])` where the number lies behind `after`
abbrev pub with_number : Config → ℕ → Seen → Seen
with_number config seq s = record s {
  previous = seq;
  seqs = if ltb config.after seq then s.seqs ++ (seq, seq) ∷ [] else s.seqs;
}

unfoldable pub read_line : Platform → Config → Value → Seen → Outcome Seen
unfolding has_exactly value_at read_signed
read_line p config (obj row) s = do
  guard (has_exactly row signed_keys || has_exactly row plain_keys) "invalid export record shape"
  seq ← or_raise (number_of s.previous (value_at "seq" row)) "invalid or reordered sequence"
  guard
      (is_text (value_at "from" row)
        && is_text (value_at "ts" row)
        && is_text (value_at "text" row))
      "invalid record metadata"
  read_signed p config seq row (with_number config seq s)
read_line p config _ s = err (value_error "invalid export record shape")

unfoldable pub read_lines : Platform → Config → List Bytes → Seen → Outcome Seen
unfolding decode read_line
read_lines p config [] s = ok s
read_lines p config (line ∷ lines) s = do
  row ← decode p line
  next ← read_line p config row s
  read_lines p config lines next

abbrev pub nothing_seen : Seen
nothing_seen = record {
  previous = 0;
  seqs = [];
  receipts = [];
  counts = record {
    signed_valid = 0;
    unsigned = 0;
    invalid_signature = 0;
    referee_payload_unrecognized = 0;
  };
}

abbrev pub is_empty : Bytes → Bool
is_empty [] = true
is_empty (b ∷ bs) = false

unfoldable pub inspect : Platform → Bytes → Config → Outcome (List Range × List Receipt × Counts)
unfolding ends_with splitlines read_lines merge
inspect p raw config = do
  guard (is_empty raw || ends_with (codes "\n") raw) "incomplete JSONL record"
  last ← read_lines p config (splitlines raw) nothing_seen
  ok (merge last.seqs, last.receipts, last.counts)
