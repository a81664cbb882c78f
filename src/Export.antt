-- ===== src/Export.antt =====
-- scripts/verify-technocore-export.py: one room export is read line by line. `b58` and `pairs` are the
-- functions `base58_decode` and `reject_duplicates` of the validator.
pub mod Continuous
use flop_contributions.Prelude.{
  ℕ, suc, ◌+◌, ◌-◌, ◌*◌, ℤ, pos, Bool, true, false, not, ◌&&◌, ◌||◌, Option, none, some, List, [],
  ◌∷◌, ◌++◌, String, str_eq, length, take, drop, leb, ltb, ◌==◌, if◌then◌else◌,
}
use flop_contributions.Outcome.{
  Outcome, ok, err, value_error, key_error, type_error, ◌>>=◌, ◌>>◌, guard, or_raise,
}
use flop_contributions.Text.{
  Str, Bytes, codes, eq_str, starts_with, is_did, is_room, is_signature, did_prefix,
}
use flop_contributions.Text.Lines.{splitlines}
use flop_contributions.Text.Utf8.{utf8}
use flop_contributions.Json.{Value, null, int, str, obj, Fields, end, field, get, has_exactly}
use flop_contributions.Base58.{base58_decode}
use flop_contributions.Base64.{decode_groups, encode_groups}
use flop_contributions.Platform.{Platform, File, loads, redacted_hash}
use flop_contributions.Tclk.Transport.{envelope}

abbrev pub max_bytes : ℕ
max_bytes = 16 * 1024 * 1024

abbrev pub max_sequence : ℕ
max_sequence = 9007199254740991

abbrev pub max_nonce : ℕ
max_nonce = 9999999999999999999

abbrev pub plain_keys : List String
plain_keys = "seq" ∷ "from" ∷ "ts" ∷ "text" ∷ []

abbrev pub signed_keys : List String
signed_keys = "seq" ∷ "from" ∷ "ts" ∷ "text" ∷ "nonce" ∷ "sig" ∷ []

-- `record[key]`
unfoldable pub subscript : String → Fields → Outcome Value
unfolding get
subscript k fields = elim (get k fields) [ none ↦ err key_error | some v ↦ ok v ]

unfoldable pub signed_sender : Value → Outcome Str
unfolding is_did
signed_sender (str s) = do guard (is_did s) "invalid signed sender"; ok s
signed_sender _ = err (value_error "invalid signed sender")

unfoldable pub signed_nonce : Value → Outcome ℕ
signed_nonce (int (pos n)) = do guard (leb n max_nonce) "invalid signed nonce"; ok n
signed_nonce _ = err (value_error "invalid signed nonce")

unfoldable pub signed_record : Value → Value → Outcome (Str × Str)
unfolding is_signature
signed_record (str text) (str encoded) = do
  guard (is_signature encoded) "invalid signed record"
  ok (text, encoded)
signed_record _ _ = err (value_error "invalid signed record")

unfoldable pub verify_signed : Platform → Str → Fields → Outcome (Unit {0})
unfolding subscript signed_sender signed_nonce signed_record base58_decode decode_groups
    encode_groups envelope
verify_signed p room fields = do
  from_value ← subscript "from" fields
  nonce_value ← subscript "nonce" fields
  text_value ← subscript "text" fields
  sig_value ← subscript "sig" fields
  sender ← signed_sender from_value
  nonce ← signed_nonce nonce_value
  signed ← signed_record text_value sig_value
  raw_key ← base58_decode (drop (length did_prefix) sender)
  guard (length raw_key == 34 && starts_with (0xed ∷ 0x01 ∷ []) raw_key) "DID is not Ed25519"
  signature ← or_raise (decode_groups signed.1) "signature is not base64url"
  guard (length signature == 64 && eq_str (encode_groups signature) signed.1)
      "signature is not canonical"
  material ← utf8 (envelope room (pos nonce) signed.0)
  guard (p.ed25519 (drop 2 raw_key) signature material) "signature verification failed"

-- `type(seq) is int and 0 < seq <= MAX_SAFE_INTEGER`
unfoldable pub sequence_number : Value → Option ℕ
sequence_number (int (pos n)) = if ltb 0 n && leb n max_sequence then some n else none
sequence_number _ = none

-- `previous is not None and seq != previous + 1` does not hold.
unfoldable pub continues : Option ℕ → ℕ → Bool
continues none seq = true
continues (some previous) seq = seq == previous + 1

abbrev pub is_text : Value → Bool
is_text (str s) = true
is_text _ = false

abbrev pub is_stamp : Value → Bool
is_stamp (str s) = leb 1 (length s) && leb (length s) 64
is_stamp _ = false

-- The variables of the loop.
pub record Tally : Type 0 where
  pub previous : Option ℕ
  pub signed : ℕ

-- What the loop does with a record: the signature is verified where there is one.
unfoldable pub count_signed : Platform → Str → Fields → ℕ → Outcome ℕ
unfolding has_exactly verify_signed
count_signed p room fields signed =
    if not (has_exactly fields signed_keys)
    then ok signed
    else do verify_signed p room fields; ok (signed + 1)

unfoldable pub read_row : Platform → Str → Tally → Value → Outcome Tally
unfolding has_exactly subscript sequence_number continues count_signed
read_row p room t (obj fields) = do
  guard (has_exactly fields plain_keys || has_exactly fields signed_keys)
      "record has an invalid shape"
  seq_value ← subscript "seq" fields
  seq ← or_raise (sequence_number seq_value) "record has an invalid sequence"
  guard (continues t.previous seq) "record breaks sequence continuity"
  from_value ← subscript "from" fields
  ts_value ← subscript "ts" fields
  text_value ← subscript "text" fields
  guard (is_text from_value && is_stamp ts_value && is_text text_value)
      "record has invalid text metadata"
  signed ← count_signed p room fields t.signed
  ok (record { previous = some seq; signed = signed })
read_row p room t _ = err (value_error "record has an invalid shape")

-- `json.loads(line.decode("utf-8"), object_pairs_hook=pairs)`
unfoldable pub read_line : Platform → Bytes → Outcome Value
unfolding loads
read_line p line = do text ← or_raise (p.decode_utf8 line) "UnicodeDecodeError"; loads p text

unfoldable pub read_rows : Platform → Str → Tally → List Bytes → Outcome Tally
unfolding read_line read_row
read_rows p room t [] = ok t
read_rows p room t (line ∷ lines) = do
  value ← read_line p line
  next ← read_row p room t value
  read_rows p room next lines

-- The value of a key in a dict that is made without a hook: the last of its occurrences.
unfoldable pub last_of : String → Fields → Option Value → Option Value
last_of key end found = found
last_of key (field k v fields) found = last_of key fields (if str_eq k key then some v else found)

-- `json.loads(lines[0])["seq"] if lines else None`
unfoldable pub first_seq : Platform → List Bytes → Outcome Value
unfolding last_of
first_seq p [] = ok null
first_seq p (line ∷ lines) = do
  value ← or_raise (p.parse_bytes line) "JSONDecodeError"
  member value
  where
    member : Value → Outcome Value
    member (obj fields) = elim (last_of "seq" fields none) [ none ↦ err key_error | some v ↦ ok v ]
    member _ = err type_error

pub record ExportReport : Type 0 where
  pub room_sha256 : Str
  pub generation : ℕ
  pub first_seq : Value
  pub last_seq : Option ℕ
  pub count : ℕ
  pub signed_count : ℕ
  pub unsigned_count : ℕ
  pub export_sha256 : Str

-- `main` between its arguments and the printed report.
unfoldable pub verify_export : Platform → Str → ℤ → File → Outcome ExportReport
unfolding is_room splitlines read_rows first_seq redacted_hash
verify_export p room (pos generation) file = do
  guard (is_room room) "invalid room"
  guard (leb generation max_sequence) "invalid generation"
  guard file.regular "export must be a regular file"
  guard (leb (length file.content) max_bytes) "export exceeds 16 MiB"
  last ← read_rows p room (record { previous = none; signed = 0 }) (splitlines file.content)
  room_hash ← redacted_hash p room
  first ← first_seq p (splitlines file.content)
  ok (record {
    room_sha256 = room_hash;
    generation = generation;
    first_seq = first;
    last_seq = last.previous;
    count = length (splitlines file.content);
    signed_count = last.signed;
    unsigned_count = length (splitlines file.content) - last.signed;
    export_sha256 = p.sha256 file.content;
  })
verify_export p room _ file = do
  guard (is_room room) "invalid room"
  err (value_error "invalid generation")
