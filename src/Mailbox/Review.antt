-- ===== src/Mailbox/Review.antt =====
-- `validate_batch` and `verify_signature`.
use flop_contributions.Prelude.{
  ℕ, suc, ◌+◌, ◌-◌, pos, Bool, true, false, not, ◌&&◌, ◌||◌, Option, none, some, List, [], ◌∷◌,
  ◌++◌, length, any, leb, ltb, ◌==◌, if◌then◌else◌,
}
use flop_contributions.Outcome.{Outcome, ok, err, system_exit, ◌>>=◌, ◌>>◌, require, or_fail}
use flop_contributions.Text.{Str, codes, mem_str, is_did, is_closed_signature}
use flop_contributions.Text.Decimal.{decimal}
use flop_contributions.Json.{Value, int, str, obj, end, field, has_exactly}
use flop_contributions.Platform.{Platform, plain, redacted_hash}
use flop_contributions.Tclk.Transcript.{message_keys, value_at, bounded}

abbrev pub max_messages : ℕ
max_messages = 200

abbrev pub max_chars : ℕ
max_chars = 4096

abbrev pub max_nonce : ℕ
max_nonce = 9999999999999999999

-- The envelope verifier: whether its path is a regular file, and the exit status of a run of it on a
-- text at the standard input; `none` is a run that could not complete in time.
pub record Verifier : Type 0 where
  pub regular : Bool
  pub run : Str → Option ℕ

-- The members of the envelope that `verify_signature` hands over.
unfoldable pub envelope_of : Str → Str → Str → Str → Str → Value
envelope_of room nonce text did sig = obj (
    field "room" (str room) (
      field "nonce" (str nonce)
        (field "text" (str text) (field "did" (str did) (field "sig" (str sig) end)))))

-- A message whose members `validate_batch` has checked.
pub record Message : Type 0 where
  pub seq : ℕ
  pub sender : Str
  pub nonce : ℕ
  pub text : Str
  pub signature : Str

unfoldable pub verify_signature : Platform → Verifier → Str → Message → Outcome (Unit {0})
unfolding envelope_of decimal
verify_signature p verifier room m = do
  require verifier.regular "envelope verifier must be a regular file, not a symlink"
  returncode ←
      or_fail
        (verifier.run
          (p.dumps_as plain (envelope_of room (decimal m.nonce) m.text m.sender m.signature)))
        "signature verifier could not complete"
  require (returncode == 0) "signature verification failed"

-- A letter under IGNORECASE: "ſ" matches an "s" as well.
abbrev letter_of : ℕ → ℕ → Bool
letter_of l c = c == l || c == l - 32 || (l == b's' && c == 0x17f)

unfoldable pub begins : Str → Str → Bool
begins [] text = true
begins (l ∷ word) [] = false
begins (l ∷ word) (c ∷ text) = (if leb b'a' l then letter_of l c else c == l) && begins word text

-- `URL_RE.search(text)`; `in_word` says that a character of `\w` stands in front.
unfoldable pub url_from : (ℕ → Bool) → Bool → Str → Bool
unfolding begins
url_from word in_word [] = false
url_from word in_word (c ∷ s) =
    begins (codes "http://") (c ∷ s)
    || begins (codes "https://") (c ∷ s)
    || begins (codes "ftp://") (c ∷ s)
    || (not in_word && begins (codes "www.") (c ∷ s))
    || url_from word (word c) s

unfoldable pub contains_url : Platform → Str → Bool
unfolding url_from
contains_url p text = url_from p.is_word false text

abbrev short_text : ℕ → Str → Bool
short_text most s = leb 1 (length s) && leb (length s) most

abbrev pub is_timestamp : Value → Bool
is_timestamp (str s) = short_text 64 s
is_timestamp _ = false

abbrev pub did_of : Value → Option Str
did_of (str s) = if is_did s then some s else none
did_of _ = none

abbrev pub nonce_of : Value → Option ℕ
nonce_of (int (pos n)) = if leb n max_nonce then some n else none
nonce_of _ = none

abbrev pub text_of : Value → Option Str
text_of (str s) = if short_text max_chars s then some s else none
text_of _ = none

abbrev pub signature_of : Value → Option Str
signature_of (str s) = if is_closed_signature s then some s else none
signature_of _ = none

-- The checks of the members of one message.
unfoldable pub check_message : Platform → ℕ → ℕ → ℕ → ℕ → Value → Outcome Message
unfolding has_exactly value_at bounded is_did is_closed_signature
check_message p starting proposed index previous (obj message) = do
  require (has_exactly message message_keys) "message fields do not match the trusted schema"
  seq ←
      or_fail (bounded (value_at "seq" message)) "message has an invalid or non-increasing sequence"
  require (ltb previous seq && leb seq proposed) "message has an invalid or non-increasing sequence"
  require ((index == 0 && starting == 0) || seq == previous + 1)
      "message follows an unexpected sequence gap"
  sender ←
      or_fail (did_of (value_at "from" message))
        "message does not contain an Ed25519 did:key sender"
  require (is_timestamp (value_at "ts" message)) "message has an invalid timestamp"
  nonce ← or_fail (nonce_of (value_at "nonce" message)) "message has an invalid nonce"
  text ← or_fail (text_of (value_at "text" message)) "message has invalid text"
  require (not (any p.is_invisible text)) "message contains control or invisible characters"
  signature ←
      or_fail (signature_of (value_at "sig" message)) "message has no canonical retained signature"
  ok (record { seq = seq; sender = sender; nonce = nonce; text = text; signature = signature })
check_message p starting proposed index previous _ =
    err (system_exit "message fields do not match the trusted schema")

-- One entry of the receipt.
pub record Reviewed : Type 0 where
  pub seq : ℕ
  pub sender_sha256 : Str
  pub message_sha256 : Str
  pub envelope_sha256 : Str
  pub signature_sha256 : Str
  pub has_url : Bool

-- The body of the loop behind the checks: the signature, the replay test and the entry.
unfoldable pub review_message : Platform → Verifier → Str → List Str → Message → Outcome Reviewed
unfolding verify_signature redacted_hash mem_str contains_url decimal
review_message p verifier room seen m = do
  verify_signature p verifier room m
  signature_hash ← redacted_hash p m.signature
  require (not (mem_str signature_hash seen)) "same-batch signed replay detected"
  sender_hash ← redacted_hash p m.sender
  text_hash ← redacted_hash p m.text
  envelope_hash ← redacted_hash p (room ++ codes "|" ++ decimal m.nonce ++ codes "|" ++ m.text)
  ok (record {
    seq = m.seq;
    sender_sha256 = sender_hash;
    message_sha256 = text_hash;
    envelope_sha256 = envelope_hash;
    signature_sha256 = signature_hash;
    has_url = contains_url p m.text;
  })

-- The loop; its result comes with the last sequence number.
unfoldable pub review_messages :
    Platform → Verifier → Str → ℕ → ℕ → ℕ → ℕ → List Str → List Value → Outcome (List Reviewed × ℕ)
unfolding check_message review_message
review_messages p verifier room starting proposed index previous seen [] = ok ([], previous)
review_messages p verifier room starting proposed index previous seen (v ∷ vs) = do
  m ← check_message p starting proposed index previous v
  one ← review_message p verifier room seen m
  more ←
      review_messages p verifier room starting proposed (suc index) m.seq
        (one.signature_sha256 ∷ seen) vs
  ok (one ∷ more.0, more.1)
