-- ===== src/CloseCall/Envelope.antt =====
-- `load_json`, `read_regular`, `decode_did` and `verify_envelope`, which the archive verifier uses too.
use flop_contributions.Prelude.{
  ℕ, ◌*◌, pos, Bool, false, ◌&&◌, Option, none, some, List, [], ◌∷◌, length, drop, leb, ltb, ◌==◌,
  if◌then◌else◌,
}
use flop_contributions.Outcome.{
  Outcome, ok, err, value_error, type_error, ◌>>=◌, ◌>>◌, guard, or_raise,
}
use flop_contributions.Text.{
  Str, Bytes, eq_str, starts_with, run_of, is_hex, is_did, is_signature, did_prefix,
}
use flop_contributions.Text.Utf8.{utf8}
use flop_contributions.Json.{Value, int, str, arr, obj, Fields, elements, has_exactly}
use flop_contributions.Base58.{number_of, to_bytes}
use flop_contributions.Base64.{decode_groups, encode_groups}
use flop_contributions.Platform.{Platform, File, loads}
use flop_contributions.Tclk.Transcript.{value_at, message_keys}
use flop_contributions.Tclk.Transport.{envelope}

abbrev pub max_file_bytes : ℕ
max_file_bytes = 32 * 1024 * 1024

abbrev pub max_safe_integer : ℕ
max_safe_integer = 9007199254740991

abbrev pub max_nonce : ℕ
max_nonce = 9999999999999999999

-- ^[0-9a-f]{64}$
unfoldable pub is_hash : Str → Bool
unfolding run_of
is_hash = run_of is_hex 64 64

abbrev pub hash_of : Value → Option Str
hash_of (str s) = if is_hash s then some s else none
hash_of _ = none

abbrev pub list_of : Value → Option (List Value)
list_of (arr xs) = some (elements xs)
list_of _ = none

unfoldable pub load_json : Platform → Bytes → Outcome Value
unfolding loads
load_json p raw = do text ← or_raise (p.decode_utf8 raw) "is not canonical JSON"; loads p text

unfoldable pub read_regular : File → Outcome Bytes
read_regular file = do
  guard file.regular "must be a regular file"
  guard (leb (length file.content) max_file_bytes) "exceeds 32 MiB"
  ok file.content

-- The 32 bytes of the key. `fullmatch` raises TypeError for what is no text.
unfoldable pub decode_did : Value → Outcome Bytes
unfolding is_did number_of to_bytes starts_with
decode_did (str did) = do
  guard (is_did did) "invalid referee DID"
  number ← number_of 0 (drop (length did_prefix) did)
  guard (length (to_bytes number) == 34 && starts_with (0xed ∷ 0x01 ∷ []) (to_bytes number))
      "referee DID is not an Ed25519 did:key"
  ok (drop 2 (to_bytes number))
decode_did _ = err type_error

abbrev pub safe_sequence : Value → Option ℕ
safe_sequence (int (pos n)) = if ltb 0 n && leb n max_safe_integer then some n else none
safe_sequence _ = none

abbrev pub safe_nonce : Value → Option ℕ
safe_nonce (int (pos n)) = if leb n max_nonce then some n else none
safe_nonce _ = none

abbrev pub is_timestamp : Value → Bool
is_timestamp (str s) = leb 1 (length s) && leb (length s) 64
is_timestamp _ = false

abbrev pub text_of : Value → Option Str
text_of (str s) = some s
text_of _ = none

abbrev pub signature_of : Value → Option Str
signature_of (str s) = if is_signature s then some s else none
signature_of _ = none

unfoldable pub decode_signature : Str → Outcome Bytes
unfolding decode_groups encode_groups
decode_signature encoded = do
  signature ← or_raise (decode_groups encoded) "signature is not base64url"
  guard (length signature == 64 && eq_str (encode_groups signature) encoded)
      "signature is not canonical"
  ok signature

abbrev pub object_of : Value → Outcome Fields
object_of (obj fields) = ok fields
object_of _ = err (value_error "message is not an object")

-- A record whose signature verified: its number, its sender and the message in its text.
pub record Sealed : Type 0 where
  pub seq : ℕ
  pub sender : Value
  pub message : Fields

unfoldable pub verify_envelope : Platform → Str → Fields → Outcome Sealed
unfolding has_exactly value_at decode_signature decode_did envelope is_signature load_json
verify_envelope p room fields = do
  guard (has_exactly fields message_keys) "invalid Technocore envelope shape"
  seq ← or_raise (safe_sequence (value_at "seq" fields)) "invalid sequence"
  nonce ← or_raise (safe_nonce (value_at "nonce" fields)) "invalid nonce"
  guard (is_timestamp (value_at "ts" fields)) "invalid timestamp"
  text ← or_raise (text_of (value_at "text" fields)) "invalid signed fields"
  encoded ← or_raise (signature_of (value_at "sig" fields)) "invalid signed fields"
  signature ← decode_signature encoded
  key ← decode_did (value_at "from" fields)
  material ← utf8 (envelope room (pos nonce) text)
  guard (p.ed25519 key signature material) "signature verification failed"
  raw ← utf8 text
  inner ← load_json p raw
  message ← object_of inner
  ok (record { seq = seq; sender = value_at "from" fields; message = message })
