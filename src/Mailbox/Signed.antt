-- ===== src/Mailbox/Signed.antt =====
-- The review with the envelope verifier of the repository: what stands behind each entry of a receipt.
use mathlib.Core.Path.{subst}
use flop_contributions.Prelude.{
  ℕ, ◌≡◌, refl, sym, ap, ◌∙◌, false, some, [], ◌∷◌, String, inl, inr, map, any, leb, length, arith,
  ◌==◌, Bool-cases,
}
use flop_contributions.Outcome.{
  ok, or_fail, require, >>=-eq-ok, require-eq-ok, some-or_fail, ok-injective,
}
use flop_contributions.Text.{Str, strip}
use flop_contributions.Text.Decimal.{decimal}
use flop_contributions.Json.{Value, get}
use flop_contributions.Json.Plain.{plain, plain_fields, set_field}
use flop_contributions.Platform
use flop_contributions.Platform.{Platform}
use flop_contributions.Envelope.{
  Envelope, max_text_chars, visible, clean_text, read_envelope, verify, verify_envelope,
}
use flop_contributions.Envelope.Clean.{AllVisible, visible_all}
use flop_contributions.Envelope.Sound.{IsSigned, verify-IsSigned}
use flop_contributions.Mailbox.Review.{Verifier, Message, Reviewed, envelope_of, verify_signature}
use flop_contributions.Mailbox.Loop.{IsMessage, IsEntry}

-- The verifier's process is `verify-envelope.py`: it exits with 0 only where its `main` returns.
abbrev pub RunsVerifier : Platform → Verifier → Type 0
RunsVerifier p verifier =
    (input : Str) → verifier.run input ≡ some 0 → verify_envelope p input ≡ ok tt

-- `json.loads` reads what `json.dumps` printed of an envelope.
abbrev pub ReadsBack : Platform → Type 0
ReadsBack p =
    (room nonce text did sig : Str)
    → p.parse_json (p.dumps_as Platform.plain (envelope_of room nonce text did sig))
      ≡ some (envelope_of room nonce text did sig)

abbrev pub envelope_for : Str → Message → Envelope
envelope_for room m = record {
  room = room;
  nonce = decimal m.nonce;
  text = m.text;
  did = m.sender;
  sig = m.signature;
}

read_envelope-envelope_of :
    (room nonce text did sig : Str)
    → read_envelope (plain (envelope_of room nonce text did sig))
      ≡ ok (record { room = room; nonce = nonce; text = text; did = did; sig = sig })
unfolding read_envelope plain plain_fields set_field envelope_of get
read_envelope-envelope_of room nonce text did sig = refl

verify_signature-eq-ok :
    (p : Platform) (verifier : Verifier) (room : Str) (m : Message)
    → verify_signature p verifier room m ≡ ok tt
    → verifier.run
        (p.dumps_as Platform.plain (envelope_of room (decimal m.nonce) m.text m.sender m.signature))
      ≡ some 0
unfolding verify_signature
verify_signature-eq-ok p verifier room m h =
    let (a, h₁) = require-eq-ok verifier.regular _ _ h in
    let (code, ran, h₂) =
      >>=-eq-ok
        (or_fail
          (verifier.run (
            p.dumps_as Platform.plain
              (envelope_of room (decimal m.nonce) m.text m.sender m.signature)))
          _)
        _ h₁ in
    some-or_fail _ _ ran ∙ ap some (zero_code code _ h₂)
  where
    zero_code : (code : ℕ) (message : String) → require (code == 0) message ≡ ok tt → code ≡ 0
    zero_code code message h = ground arith

verify_envelope-eq-ok :
    (p : Platform) (room nonce text did sig : Str)
    → ReadsBack p
    → verify_envelope p (p.dumps_as Platform.plain (envelope_of room nonce text did sig)) ≡ ok tt
    → verify p (record { room = room; nonce = nonce; text = text; did = did; sig = sig }) ≡ ok tt
unfolding verify_envelope
verify_envelope-eq-ok p room nonce text did sig reads h =
    let (v, parsed, h₁) =
      >>=-eq-ok
        (or_fail (p.parse_json (p.dumps_as Platform.plain (envelope_of room nonce text did sig))) _)
        _ h in
    let (e, read, h₂) = >>=-eq-ok (read_envelope (plain v)) _ h₁ in
    let same : envelope_of room nonce text did sig ≡ v =
      cc (reads room nonce text did sig, some-or_fail _ _ parsed) in
    let t : record { room = room; nonce = nonce; text = text; did = did; sig = sig } ≡ e =
      ok-injective (
        sym (read_envelope-envelope_of room nonce text did sig)
        ∙ ap (λ x. read_envelope (plain x)) same
        ∙ read) in
    subst (λ (x : Envelope). verify p x ≡ ok tt) (sym t) h₂

any-AllVisible : (p : Platform) (s : Str) → any p.is_invisible s ≡ false → AllVisible p s
any-AllVisible p [] h = tt
any-AllVisible p (c ∷ s) h = elim (Bool-cases (p.is_invisible c)) [
  | inl e ↦ cc (rw e at h)
  | inr e ↦ (e, any-AllVisible p s (rw e at h))
]

clean_text_visible :
    (p : Platform) (text cleaned : Str)
    → AllVisible p text
    → clean_text p text ≡ ok cleaned
    → cleaned ≡ strip p.is_space text
unfolding clean_text
clean_text_visible p text cleaned v h =
    let stripped = strip p.is_space (map (visible p) text) in
    let (a, h₁) = require-eq-ok (leb 1 (length stripped)) _ _ h in
    let (b, h₂) = require-eq-ok (leb (length stripped) max_text_chars) _ _ h₁ in
    sym (ok-injective h₂) ∙ ap (strip p.is_space) (visible_all p text v)

-- Where the envelope verifier of the repository is run, and JSON texts read back: behind each entry of
-- a receipt stands a message of the batch whose signature is the Ed25519 signature, by the key of the
-- sender's DID, of the room, the nonce and the text without the spaces at its ends.
pub IsEntry-IsSigned :
    (p : Platform) (verifier : Verifier) (room : Str) (v : Value) (e : Reviewed)
    → RunsVerifier p verifier
    → ReadsBack p
    → IsEntry p verifier room v e
    → (m : Message) × IsMessage p v m
      × (e.seq ≡ m.seq)
      × ((s : IsSigned p (envelope_for room m)) × (s.cleaned ≡ strip p.is_space m.text))
IsEntry-IsSigned p verifier room v e runs reads h =
    let m = h.message in
    let signed = verify-IsSigned p (envelope_for room m) (
      verify_envelope-eq-ok p room (decimal m.nonce) m.text m.sender m.signature reads
        (runs _ (verify_signature-eq-ok p verifier room m h.passed))) in
    (
      m,
      h.stands,
      h.seq,
      (
        signed,
        clean_text_visible p m.text signed.cleaned (any-AllVisible p m.text h.stands.visible)
            signed.clean,
      ),
    )
