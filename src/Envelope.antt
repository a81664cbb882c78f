-- ===== src/Envelope.antt =====
-- scripts/verify-envelope.py: one signed envelope, given as a JSON object on the standard input.
pub mod Closed
pub mod Clean
pub mod Sound
use flop_contributions.Prelude.{
  ℕ, ◌+◌, ◌*◌, Bool, true, false, ◌&&◌, Option, none, some, List, [], ◌∷◌, ◌++◌, map, String,
  length, drop, replicate, leb, ◌==◌, if◌then◌else◌,
}
use flop_contributions.Outcome.{Outcome, ok, err, system_exit, ◌>>=◌, ◌>>◌, require, or_fail}
use flop_contributions.Text.{
  Str, Bytes, codes, eq_str, starts_with, run_of, is_digit, is_base64url, is_room, did_prefix,
  strip,
}
use flop_contributions.Text.Utf8.{utf8}
use flop_contributions.Json.{Value, str, obj, Fields, get}
use flop_contributions.Json.Plain.{plain}
use flop_contributions.Base58.{alphabet, index_of, to_bytes, leading_ones}
use flop_contributions.Base64.{decode_groups, encode_groups}
use flop_contributions.Platform.{Platform}

abbrev pub max_text_chars : ℕ
max_text_chars = 4096

-- " " for an invisible character
abbrev pub visible : Platform → ℕ → ℕ
visible p c = if p.is_invisible c then b' ' else c

unfoldable pub clean_text : Platform → Str → Outcome Str
unfolding strip
clean_text p text =
    let cleaned = strip p.is_space (map (visible p) text) in
    do
      require (leb 1 (length cleaned)) "message is empty after normalization"
      require (leb (length cleaned) max_text_chars)
          "message exceeds the 4096-character limit after normalization"
      ok cleaned

-- The loop of `base58btc_decode`.
unfoldable pub btc_number : ℕ → Str → Outcome ℕ
unfolding index_of
btc_number number [] = ok number
btc_number number (c ∷ s) = elim (index_of c alphabet) [
  | none ↦ err (system_exit "DID contains a character outside base58btc")
  | some digit ↦ btc_number (number * 58 + digit) s
]

unfoldable pub base58btc_decode : Str → Outcome Bytes
unfolding btc_number to_bytes leading_ones
base58btc_decode value = do
  require (leb 1 (length value)) "empty multibase payload"
  number ← btc_number 0 value
  ok (replicate (leading_ones value) 0 ++ to_bytes number)

-- The 32 bytes of the key.
unfoldable pub public_key_from_did : Str → Outcome Bytes
unfolding starts_with base58btc_decode
public_key_from_did did = do
  require (starts_with did_prefix did) "DID must use did:key with base58btc multibase"
  decoded ← base58btc_decode (drop (length did_prefix) did)
  require (starts_with (0xed ∷ 0x01 ∷ []) decoded) "DID does not contain an Ed25519 public key"
  require (length (drop 2 decoded) == 32) "Ed25519 public key must be exactly 32 bytes"
  ok (drop 2 decoded)

unfoldable pub decode_signature : Str → Outcome Bytes
unfolding run_of decode_groups encode_groups
decode_signature value = do
  require (run_of is_base64url 86 86 value) "signature must be 86 unpadded base64url characters"
  signature ← or_fail (decode_groups value) "signature is not valid base64url"
  require (length signature == 64) "Ed25519 signature must be exactly 64 bytes"
  require (eq_str (encode_groups signature) value)
      "signature is not in canonical unpadded base64url form"
  ok signature

-- ^[0-9]{1,19}$
unfoldable pub is_nonce_text : Str → Bool
unfolding run_of
is_nonce_text = run_of is_digit 1 19

-- The members of an envelope, all of them texts.
pub record Envelope : Type 0 where
  pub room : Str
  pub nonce : Str
  pub text : Str
  pub did : Str
  pub sig : Str

abbrev pub text_or : Option Value → Option Str
text_or (some (str s)) = some s
text_or _ = none

unfoldable pub read_envelope : Value → Outcome Envelope
read_envelope (obj payload) = do
  room ←
      or_fail (text_or (get "room" payload)) "room, nonce, text, did, and sig must all be strings"
  nonce ←
      or_fail (text_or (get "nonce" payload)) "room, nonce, text, did, and sig must all be strings"
  text ←
      or_fail (text_or (get "text" payload)) "room, nonce, text, did, and sig must all be strings"
  did ← or_fail (text_or (get "did" payload)) "room, nonce, text, did, and sig must all be strings"
  sig ← or_fail (text_or (get "sig" payload)) "room, nonce, text, did, and sig must all be strings"
  ok (record { room = room; nonce = nonce; text = text; did = did; sig = sig })
read_envelope _ = err (system_exit "JSON input must be an object")

-- f"{room}|{nonce}|{normalized}"
unfoldable pub canonical : Str → Str → Str → Str
canonical room nonce text = room ++ codes "|" ++ nonce ++ codes "|" ++ text

unfoldable pub verify : Platform → Envelope → Outcome (Unit {0})
unfolding is_room is_nonce_text clean_text public_key_from_did decode_signature canonical
verify p e = do
  require (is_room e.room) "invalid room name"
  require (is_nonce_text e.nonce) "nonce must contain 1-19 ASCII digits"
  normalized ← clean_text p e.text
  key ← public_key_from_did e.did
  signature ← decode_signature e.sig
  material ← utf8 (canonical e.room e.nonce normalized)
  require (p.ed25519 key signature material) "signature does not match the canonical envelope"

-- `main` on the decoded standard input; it returns where it prints VALID.
unfoldable pub verify_envelope : Platform → Str → Outcome (Unit {0})
unfolding read_envelope verify
verify_envelope p stdin = do
  value ← or_fail (p.parse_json stdin) "standard input is not valid JSON"
  e ← read_envelope (plain value)
  verify p e
