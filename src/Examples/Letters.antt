-- ===== src/Examples/Letters.antt =====
-- The theorems on the mailbox review at a batch of two messages, with a verifier that runs the model of
-- the envelope verifier, and with a JSON printer that can be read back.
use flop_contributions.Prelude.{
  ℕ, zero, suc, ◌≡◌, ◌↔◌, ◌⊎◌, refl, ap, ◌∙◌, pos, true, false, Option, none, some, List, [], ◌∷◌,
  ◌++◌, length, take, drop, replicate, All, arith,
}
use flop_contributions.Outcome.{Outcome, ok, err}
use flop_contributions.Text.{Str, Bytes, codes, strip, is_closed_signature}
use flop_contributions.Json.{Value, int, str, arr, obj, nil, cons, Fields, end, field}
use flop_contributions.Platform.{Platform, File}
use flop_contributions.Envelope.{clean_text, decode_signature, verify_envelope}
use flop_contributions.Envelope.Clean.{IsClean, clean_text-clean_text}
use flop_contributions.Envelope.Closed.{decode_signature-closed}
use flop_contributions.Envelope.Sound.{IsSigned}
use flop_contributions.Mailbox.Review.{Verifier, Message, Reviewed, envelope_of, review_messages}
use flop_contributions.Mailbox.Loop.{IsMessage, IsEntry, review_messages-Entries}
use flop_contributions.Mailbox.Receipt.{Receipt, validate_batch}
use flop_contributions.Mailbox.Sound.{IsReview, validate_batch-IsReview}
use flop_contributions.Mailbox.Signed.{RunsVerifier, ReadsBack, envelope_for, IsEntry-IsSigned}
use flop_contributions.Mailbox.Replays.{IsCompatible, reject_historical_replays-IsCompatible}
use flop_contributions.Mailbox.History.{reject_historical_replays}
use flop_contributions.Mailbox.Store.{missing, regular, encoded, write_receipt}
use flop_contributions.Mailbox.Writes.{write_receipt_iff}
use flop_contributions.Examples.Open.Mailbox.{opened_mailbox}
use flop_contributions.Examples.Protocol.{result}
use flop_contributions.Examples.Fixtures.{platform, toy_hash, alice, bob}

-- A text behind its length.
abbrev pack : Str → Str → Str
pack s rest = length s ∷ s ++ rest

abbrev packed_fields : Fields → Str
packed_fields (field k (str s) fs) = pack s (packed_fields fs)
packed_fields _ = []

abbrev packed : Value → Str
packed (obj fs) = packed_fields fs
packed _ = []

-- The first `n` texts of a packed one.
abbrev unpack : ℕ → Str → List Str
unpack zero s = []
unpack (suc n) [] = []
unpack (suc n) (l ∷ s) = take l s ∷ unpack n (drop l s)

abbrev five : List Str → Option Value
five (a ∷ b ∷ c ∷ d ∷ e ∷ []) = some (envelope_of a b c d e)
five _ = none

take-append : (s t : Str) → take (length s) (s ++ t) ≡ s
take-append [] t = refl
take-append (c ∷ s) t = ap (λ x. c ∷ x) (take-append s t)

drop-append : (s t : Str) → drop (length s) (s ++ t) ≡ t
drop-append [] t = refl
drop-append (c ∷ s) t = drop-append s t

abbrev post : Platform
post = record platform {
  dumps_as = λ layout v. packed v;
  parse_json = λ text. five (unpack 5 text);
}

unpack-pack : (n : ℕ) (s t : Str) → unpack (suc n) (pack s t) ≡ s ∷ unpack n t
unpack-pack n s t = rw (take-append s t, drop-append s t)

post-ReadsBack : ReadsBack post
unfolding envelope_of
post-ReadsBack a b c d e = ap five (
    unpack-pack 4 a (pack b (pack c (pack d (pack e []))))
    ∙ ap (λ x. a ∷ x) (unpack-pack 3 b (pack c (pack d (pack e []))))
    ∙ ap (λ x. a ∷ b ∷ x) (unpack-pack 2 c (pack d (pack e [])))
    ∙ ap (λ x. a ∷ b ∷ c ∷ x) (unpack-pack 1 d (pack e []))
    ∙ ap (λ x. a ∷ b ∷ c ∷ d ∷ x) (unpack-pack 0 e []))

abbrev exit_code : Outcome (Unit {0}) → ℕ
exit_code (ok u) = 0
exit_code (err e) = 1

abbrev runner : Verifier
runner = record { regular = true; run = λ input. some (exit_code (verify_envelope post input)) }

exit_zero : (o : Outcome (Unit {0})) → exit_code o ≡ 0 → o ≡ ok tt
exit_zero (ok u) h = refl
exit_zero (err e) h = absurd (omega (arith, h))

runner-RunsVerifier : RunsVerifier post runner
runner-RunsVerifier input h =
    exit_zero (verify_envelope post input) (ap (λ o. elim o [ none ↦ 0 | some n ↦ n ]) h)

abbrev sealed : ℕ → Str
sealed c = c ∷ replicate 85 b'A'

abbrev letter_from : ℕ → Str → Str → ℕ → Fields
letter_from seq sender text c = field "seq" (int (pos seq)) (
    field "from" (str sender) (
      field "ts" (str (codes "today")) (
        field "nonce" (int (pos seq))
          (field "text" (str text) (field "sig" (str (sealed c)) end)))))

abbrev letters : Fields
letters = field "status" (str (codes "ok")) (
    field "generation" (int (pos 3)) (
      field "starting_cursor" (int (pos 6)) (
        field "proposed_cursor" (int (pos 8)) (
          field "count" (int (pos 2)) (
            field "first_seq" (int (pos 7)) (
              field "last_seq" (int (pos 8)) (
                field "messages"
                  (arr (
                    cons (obj (letter_from 7 alice (codes "see www.example.org ") b'B'))
                      (cons (obj (letter_from 8 bob (codes "hello") b'C')) nil)))
                  end)))))))

reviewed : (r : Receipt) × (validate_batch post runner (codes "inbox") letters ≡ ok r)
unfolding opened_mailbox
reviewed = result (validate_batch post runner (codes "inbox") letters) refl

validate_batch-IsReview_example : IsReview post runner (codes "inbox") letters reviewed.0
validate_batch-IsReview_example =
    validate_batch-IsReview post runner (codes "inbox") letters reviewed.0 reviewed.1

abbrev greeting : Value
greeting = obj (letter_from 7 alice (codes " see www.example.org ") b'B')

abbrev greeted : Reviewed
greeted = record {
  seq = 7;
  sender_sha256 = toy_hash alice;
  message_sha256 = toy_hash (codes " see www.example.org ");
  envelope_sha256 = toy_hash (codes "inbox|7| see www.example.org ");
  signature_sha256 = toy_hash (sealed b'B');
  has_url = true;
}

reviewing :
    review_messages post runner (codes "inbox") 6 7 0 6 [] (greeting ∷ []) ≡ ok (greeted ∷ [], 7)
unfolding opened_mailbox
reviewing = refl

greeted-IsEntry : IsEntry post runner (codes "inbox") greeting greeted
greeted-IsEntry =
    (review_messages-Entries post runner (codes "inbox") 6 7 0 6 [] (greeting ∷ []) (greeted ∷ []) 7
      reviewing).0

IsEntry-IsSigned_example :
    (m : Message) × IsMessage post greeting m
    × (greeted.seq ≡ m.seq)
    × ((s : IsSigned post (envelope_for (codes "inbox") m)) × (s.cleaned
          ≡ strip post.is_space m.text))
IsEntry-IsSigned_example =
    IsEntry-IsSigned post runner (codes "inbox") greeting greeted runner-RunsVerifier post-ReadsBack
      greeted-IsEntry

abbrev receipt : Receipt
receipt = record {
  generation = 3;
  starting_cursor = 6;
  proposed_cursor = 7;
  count = 1;
  batch_sha256 = codes "0";
  all_valid = true;
  ack_eligible = true;
  ack_cursor = some 7;
  url_count = 1;
  messages = greeted ∷ [];
}

-- An archived receipt of the same generation with another signature.
abbrev archived : Value
archived = obj (
    field "generation" (int (pos 3)) (
      field "messages"
        (arr (
          cons
            (obj (
              field "seq" (int (pos 5))
                (field "signature_sha256" (str (toy_hash (sealed b'D'))) end)))
            nil))
        end))

abbrev archive : Platform
archive = record post { parse_json = λ text. some archived }

abbrev archived_file : File
archived_file = record { regular = true; content = codes "archived" }

let_pass : reject_historical_replays archive receipt false (archived_file ∷ []) ≡ ok tt
unfolding opened_mailbox
let_pass = refl

reject_historical_replays-IsCompatible_example :
    All (IsCompatible archive receipt) (archived_file ∷ [])
reject_historical_replays-IsCompatible_example =
    reject_historical_replays-IsCompatible archive receipt false (archived_file ∷ []) (λ i. i, tt)
      let_pass

write_receipt_iff_example :
    (write_receipt post true missing receipt ≡ ok (regular (encoded post receipt))) ↔ (
      (regular (encoded post receipt) ≡ regular (encoded post receipt))
      × (((missing ≡ missing) × (true ≡ true)) ⊎ (missing ≡ regular (encoded post receipt))))
write_receipt_iff_example =
    write_receipt_iff post true missing (regular (encoded post receipt)) receipt

cleaning : clean_text post (codes " a b ") ≡ ok (codes "a b")
unfolding opened_mailbox
cleaning = refl

space_visible : post.is_invisible b' ' ≡ false
unfolding opened_mailbox
space_visible = refl

clean_text-clean_text_example :
    IsClean post (codes "a b") × (clean_text post (codes "a b") ≡ ok (codes "a b"))
clean_text-clean_text_example =
    clean_text-clean_text post (codes " a b ") (codes "a b") space_visible cleaning

decode_signature-closed_example :
    ((raw : Bytes) × (decode_signature (sealed b'B') ≡ ok raw) × (length raw ≡ 64))
    ↔ (is_closed_signature (sealed b'B') ≡ true)
decode_signature-closed_example = decode_signature-closed (sealed b'B')
