-- ===== src/Tclk/Transport.antt =====
-- `verify_transport`: the signed envelope of a message. `parse_time`: its timestamp.
pub mod Material
use flop_contributions.Prelude.{
  ℤ, Bool, false, ◌&&◌, Option, some, [], ◌∷◌, ◌++◌, length, drop, take, ◌==◌, ◌-◌,
}
use flop_contributions.Outcome.{Outcome, ok, err, value_error, ◌>>=◌, ◌>>◌, guard, or_raise}
use flop_contributions.Text.{
  Str, Bytes, codes, eq_str, starts_with, is_did, is_signature, did_prefix,
}
use flop_contributions.Text.Decimal.{decimal_ℤ}
use flop_contributions.Text.Utf8.{utf8}
use flop_contributions.Json.{Value, int, str, Fields, get}
use flop_contributions.Base58.{base58_decode}
use flop_contributions.Base64.{decode_groups, encode_groups}
use flop_contributions.Platform.{Platform}
use flop_contributions.Tclk.Patterns.{is_transport_nonce}

-- The 32 bytes of the key in an Ed25519 did:key.
unfoldable pub key_of_did : Str → Outcome Bytes
unfolding base58_decode
key_of_did sender = do
  decoded ← base58_decode (drop (length did_prefix) sender)
  guard (length decoded == 34 && starts_with (0xed ∷ 0x01 ∷ []) decoded)
      "DID does not contain one Ed25519 public key"
  ok (drop 2 decoded)

-- The 64 bytes of a canonical unpadded base64url signature.
unfoldable pub canonical_signature : Str → Outcome Bytes
unfolding decode_groups encode_groups
canonical_signature text = do
  signature ← or_raise (decode_groups text) "retained signature is not base64url"
  guard (length signature == 64 && eq_str (encode_groups signature) text)
      "retained signature is not canonical"
  ok signature

-- f"{room}|{nonce}|{text}"
unfoldable pub envelope : Str → ℤ → Str → Str
unfolding decimal_ℤ
envelope room nonce text = room ++ codes "|" ++ decimal_ℤ nonce ++ codes "|" ++ text

unfoldable pub did_text : Option Value → Outcome Str
did_text (some (str s)) = do guard (is_did s) "transport sender is not an Ed25519 did:key"; ok s
did_text _ = err (value_error "transport sender is not an Ed25519 did:key")

unfoldable pub nonce_of : Option Value → Outcome ℤ
nonce_of (some (int n)) = do
  guard (is_transport_nonce (decimal_ℤ n)) "transport nonce is malformed"
  ok n
nonce_of _ = err (value_error "transport nonce is malformed")

unfoldable pub signed_text : Option Value → Option Value → Outcome (Str × Str)
signed_text (some (str text)) (some (str sig)) = do
  guard (is_signature sig) "transport text or retained signature is malformed"
  ok (text, sig)
signed_text _ _ = err (value_error "transport text or retained signature is malformed")

unfoldable pub verify_transport : Platform → Str → Fields → Outcome (Unit {0})
unfolding key_of_did canonical_signature envelope did_text nonce_of signed_text
verify_transport p room message = do
  sender ← did_text (get "from" message)
  nonce ← nonce_of (get "nonce" message)
  signed ← signed_text (get "text" message) (get "sig" message)
  key ← key_of_did sender
  signature ← canonical_signature signed.1
  material ← utf8 (envelope room nonce signed.0)
  guard (p.ed25519 key signature material) "transport signature verification failed"

-- `value.endswith("Z")`
unfoldable pub ends_with_z : Str → Bool
ends_with_z [] = false
ends_with_z (c ∷ []) = c == b'Z'
ends_with_z (c ∷ d ∷ s) = ends_with_z (d ∷ s)

unfoldable pub parse_time : Platform → Option Value → Outcome ℤ
unfolding ends_with_z
parse_time p (some (str value)) = do
  guard (ends_with_z value) "transport timestamp must be an ISO-8601 UTC string"
  or_raise (p.from_iso (take (length value - 1) value ++ codes "+00:00"))
      "transport timestamp must be an ISO-8601 UTC string"
parse_time p _ = err (value_error "transport timestamp must be an ISO-8601 UTC string")
