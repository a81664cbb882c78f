-- ===== src/Mailbox/Loop.antt =====
-- The loop of `validate_batch`: what each message and each entry of the receipt is.
use mathlib.Core.Path.{subst}
use flop_contributions.Prelude.{
  ℕ, suc, ◌+◌, ◌<◌, ◌≡◌, ◌⊎◌, refl, sym, pos, Bool, true, false, not, ◌&&◌, ◌||◌, some, List, [],
  ◌∷◌, ◌++◌, arith, any, ltb, leb, ◌==◌,
}
use flop_contributions.Outcome.{ok, or_fail, >>=-eq-ok, require-eq-ok, some-or_fail, ok-injective}
use flop_contributions.Text.{Str, codes, mem_str, is_did, is_closed_signature}
use flop_contributions.Text.Decimal.{decimal}
use flop_contributions.Text.Membership.{In, mem_str_iff}
use flop_contributions.Json.{Value, int, str, obj, Fields, has_exactly}
use flop_contributions.Platform.{Platform, redacted_hash}
use flop_contributions.Tclk.Transcript.{value_at, bounded, message_keys}
use flop_contributions.Tclk.Transcript.Sequence.{seq_of}
use flop_contributions.Mailbox.Review.{
  Verifier, Message, Reviewed, verify_signature, did_of, nonce_of, text_of, signature_of,
  is_timestamp, check_message, review_message, review_messages,
}

-- The message `m` as it stands in the batch.
pub record IsMessage (p : Platform) (v : Value) (m : Message) : Type 0 where
  pub fields : Fields
  pub is_object : v ≡ obj fields
  pub numbered : seq_of v ≡ some m.seq
  pub sender : value_at "from" fields ≡ str m.sender
  pub nonce : value_at "nonce" fields ≡ int (pos m.nonce)
  pub text : value_at "text" fields ≡ str m.text
  pub signature : value_at "sig" fields ≡ str m.signature
  pub did : is_did m.sender ≡ true
  pub visible : any p.is_invisible m.text ≡ false
  pub closed : is_closed_signature m.signature ≡ true

-- The message `v` passed the verifier, and `e` is its entry.
pub record IsEntry (p : Platform) (verifier : Verifier) (room : Str) (v : Value) (e : Reviewed)
    : Type 0 where
  pub message : Message
  pub stands : IsMessage p v message
  pub passed : verify_signature p verifier room message ≡ ok tt
  pub seq : e.seq ≡ message.seq
  pub sender_hash : redacted_hash p message.sender ≡ ok e.sender_sha256
  pub text_hash : redacted_hash p message.text ≡ ok e.message_sha256
  pub envelope_hash :
      redacted_hash p (room ++ codes "|" ++ decimal message.nonce ++ codes "|" ++ message.text)
      ≡ ok e.envelope_sha256
  pub signature_hash : redacted_hash p message.signature ≡ ok e.signature_sha256

-- The number of the first message of a batch behind `starting` need only be larger if that is 0.
abbrev pub Continues : ℕ → ℕ → ℕ → ℕ → Type 0
Continues starting index previous seq = ((index ≡ 0) × (starting ≡ 0)) ⊎ (seq ≡ previous + 1)

-- The entries of the messages, in their order; `last` is the number of the last message.
abbrev pub Entries :
    Platform → Verifier → Str → ℕ → ℕ → ℕ → List Str → List Value → List Reviewed → ℕ → Type 0
Entries p verifier room starting index previous seen [] [] last = previous ≡ last
Entries p verifier room starting index previous seen [] (e ∷ es) last = ⊥
Entries p verifier room starting index previous seen (v ∷ vs) [] last = ⊥
Entries p verifier room starting index previous seen (v ∷ vs) (e ∷ es) last =
    IsEntry p verifier room v e
    × (previous < e.seq)
    × Continues starting index previous e.seq
    × (¬ In e.signature_sha256 seen)
    × Entries p verifier room starting (suc index) e.seq (e.signature_sha256 ∷ seen) vs es last

did_of-some : (v : Value) (s : Str) → did_of v ≡ some s → (v ≡ str s) × (is_did s ≡ true)
did_of-some (str t) s h = ground arith
did_of-some _ s h = cc

nonce_of-some : (v : Value) (n : ℕ) → nonce_of v ≡ some n → v ≡ int (pos n)
nonce_of-some (int (pos m)) n h = ground arith
nonce_of-some _ n h = cc

text_of-some : (v : Value) (s : Str) → text_of v ≡ some s → v ≡ str s
text_of-some (str t) s h = ground arith
text_of-some _ s h = cc

signature_of-some :
    (v : Value) (s : Str) → signature_of v ≡ some s → (v ≡ str s) × (is_closed_signature s ≡ true)
signature_of-some (str t) s h = ground arith
signature_of-some _ s h = cc

not-true : (b : Bool) → not b ≡ true → b ≡ false
not-true true h = cc
not-true false h = refl

steps_on :
    (starting proposed index previous seq : ℕ)
    → (ltb previous seq && leb seq proposed) ≡ true
    → ((index == 0 && starting == 0) || seq == previous + 1) ≡ true
    → (previous < seq) × Continues starting index previous seq
steps_on starting proposed index previous seq h k = ground arith

pub check_message-IsMessage :
    (p : Platform) (starting proposed index previous : ℕ) (v : Value) (m : Message)
    → check_message p starting proposed index previous v ≡ ok m
    → IsMessage p v m × (previous < m.seq) × Continues starting index previous m.seq
unfolding check_message
check_message-IsMessage p starting proposed index previous (obj message) m h =
    let (shape, h₁) = require-eq-ok (has_exactly message message_keys) _ _ h in
    let (seq, numbered, h₂) = >>=-eq-ok (or_fail (bounded (value_at "seq" message)) _) _ h₁ in
    let (within, h₃) = require-eq-ok (ltb previous seq && leb seq proposed) _ _ h₂ in
    let (next, h₄) = require-eq-ok ((index == 0 && starting == 0) || seq == previous + 1) _ _ h₃ in
    let (sender, from, h₅) = >>=-eq-ok (or_fail (did_of (value_at "from" message)) _) _ h₄ in
    let (stamp, h₆) = require-eq-ok (is_timestamp (value_at "ts" message)) _ _ h₅ in
    let (nonce, counted, h₇) = >>=-eq-ok (or_fail (nonce_of (value_at "nonce" message)) _) _ h₆ in
    let (text, written, h₈) = >>=-eq-ok (or_fail (text_of (value_at "text" message)) _) _ h₇ in
    let (seen, h₉) = require-eq-ok (not (any p.is_invisible text)) _ _ h₈ in
    let (signature, sealed, end) =
      >>=-eq-ok (or_fail (signature_of (value_at "sig" message)) _) _ h₉ in
    let (a, did) = did_of-some _ sender (some-or_fail _ _ from) in
    let (below, onward) = steps_on starting proposed index previous seq within next in
    let (b, closed) = signature_of-some _ signature (some-or_fail _ _ sealed) in
    subst
      (λ n.
        IsMessage p (obj message) n × (previous < n.seq) × Continues starting index previous n.seq)
      (ok-injective end)
      (
        record {
          fields = message;
          is_object = refl;
          numbered = some-or_fail _ _ numbered;
          sender = a;
          nonce = nonce_of-some _ nonce (some-or_fail _ _ counted);
          text = text_of-some _ text (some-or_fail _ _ written);
          signature = b;
          did = did;
          visible = not-true (any p.is_invisible text) seen;
          closed = closed;
        },
        below,
        onward,
      )
check_message-IsMessage p starting proposed index previous _ m h = cc

review_message-IsEntry :
    (p : Platform) (verifier : Verifier) (room : Str) (seen : List Str) (v : Value) (m : Message)
    (e : Reviewed)
    → IsMessage p v m
    → review_message p verifier room seen m ≡ ok e
    → IsEntry p verifier room v e × (e.seq ≡ m.seq) × (¬ In e.signature_sha256 seen)
unfolding review_message
review_message-IsEntry p verifier room seen v m e stands h =
    let (u, passed, h₁) = >>=-eq-ok (verify_signature p verifier room m) _ h in
    let (a, signed, h₂) = >>=-eq-ok (redacted_hash p m.signature) _ h₁ in
    let (fresh, h₃) = require-eq-ok (not (mem_str a seen)) _ _ h₂ in
    let (b, sent, h₄) = >>=-eq-ok (redacted_hash p m.sender) _ h₃ in
    let (c, said, h₅) = >>=-eq-ok (redacted_hash p m.text) _ h₄ in
    let (d, wrapped, h₆) =
      >>=-eq-ok (redacted_hash p (room ++ codes "|" ++ decimal m.nonce ++ codes "|" ++ m.text)) _
        h₅ in
    subst (λ o. IsEntry p verifier room v o × (o.seq ≡ m.seq) × (¬ In o.signature_sha256 seen))
      (ok-injective h₆)
      (
        record {
          message = m;
          stands = stands;
          passed = passed;
          seq = refl;
          sender_hash = sent;
          text_hash = said;
          envelope_hash = wrapped;
          signature_hash = signed;
        },
        refl,
        λ i. cc (fresh, (mem_str_iff a seen).1 i),
      )

pub review_messages-Entries :
    (p : Platform) (verifier : Verifier) (room : Str) (starting proposed index previous : ℕ)
    (seen : List Str) (vs : List Value) (es : List Reviewed) (last : ℕ)
    → review_messages p verifier room starting proposed index previous seen vs ≡ ok (es, last)
    → Entries p verifier room starting index previous seen vs es last
unfolding review_messages
review_messages-Entries p verifier room starting proposed index previous seen [] es last h =
    let e : ([], previous) ≡ (es, last) = ok-injective h in
    subst
      (λ (o : List Reviewed × ℕ). Entries p verifier room starting index previous seen [] o.0 o.1) e
      refl
review_messages-Entries p verifier room starting proposed index previous seen (v ∷ vs) es last h =
    let (m, checked, h₁) = >>=-eq-ok (check_message p starting proposed index previous v) _ h in
    let (one, reviewed, h₂) = >>=-eq-ok (review_message p verifier room seen m) _ h₁ in
    let (more, rest, h₃) =
      >>=-eq-ok
        (review_messages p verifier room starting proposed (suc index) m.seq
          (one.signature_sha256 ∷ seen) vs)
        _ h₂ in
    let (stands, below, onward) =
      check_message-IsMessage p starting proposed index previous v m checked in
    let (entry, same, fresh) =
      review_message-IsEntry p verifier room seen v m one stands reviewed in
    let tail =
      review_messages-Entries p verifier room starting proposed (suc index) m.seq
        (one.signature_sha256 ∷ seen) vs more.0 more.1 rest in
    subst
      (λ (o : List Reviewed × ℕ).
        Entries p verifier room starting index previous seen (v ∷ vs) o.0 o.1)
      (ok-injective h₃)
      (
        entry,
        rw same below,
        rw same onward,
        fresh,
        subst
            (λ k.
              Entries p verifier room starting (suc index) k (one.signature_sha256 ∷ seen) vs more.0
                more.1)
            (sym same) tail,
      )
