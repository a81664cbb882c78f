-- ===== src/Examples/Protocol.antt =====
-- The tclk/1 theorems at the batch and the contracts of the fixtures.
use flop_contributions.Prelude.{◌∷◌, some, [], inl, ◌≡◌, refl, ◌↔◌, Bool, true, false, pos, ◌<ℤ◌}
use flop_contributions.Outcome.{Outcome, ok, err}
use flop_contributions.Text.{Bytes, codes, is_room}
use flop_contributions.Base58.{base58_decode}
use flop_contributions.Base58.Laws.{IsDecoded, base58_decode-IsDecoded}
use flop_contributions.Json.{Value, str, obj, arr, cons, nil, field, end, reject_duplicates, hook}
use flop_contributions.Json.Laws.{UniqueKeys, AllUnique, reject_duplicates_iff, hook_iff}
use flop_contributions.Tclk.Frame.{locked, claimed}
use flop_contributions.Tclk.Validate.{decode_line}
use flop_contributions.Tclk.Validate.Lines.{IsFrameLine, decode_line-some}
use flop_contributions.Tclk.Contract.{new, apply}
use flop_contributions.Tclk.Contract.Steps.{Permits, apply-Permits}
use flop_contributions.Tclk.Contract.Safety.{
  Edge, Settles, apply-Edge, apply-Settles, apply_terminal, reveal_before_refund,
}
use flop_contributions.Tclk.Contract.Invariant.{
  IsWellFormed, Reach, opening, follow, Reach-IsWellFormed,
}
use flop_contributions.Tclk.Transport.Material.{envelope-injective}
use flop_contributions.Tclk.Report.{Report, validate_transcript}
use flop_contributions.Tclk.Report.Sound.{
  IsReview, Reports, validate_transcript-IsReview, validate_transcript-IsReported,
}
use flop_contributions.Examples.Open.{opened_all}
use flop_contributions.Examples.Fixtures.{
  batch, platform, offer, accept_frame, reveal_frame, refund_frame, agreed_contract,
  locked_contract, claimed_contract, refunded_contract, accept_fields, line, receipt_frame,
}

abbrev pub is_ok {ℓ} : {A : Type ℓ} → Outcome A → Bool
is_ok (ok a) = true
is_ok (err e) = false

pub result {ℓ} : {A : Type ℓ} (o : Outcome A) → is_ok o ≡ true → (a : A) × (o ≡ ok a)
result (ok a) h = (a, refl)
result (err e) h = cc

-- The batch of the fixtures is reviewed, and its contract is reported as claimed.
batch_accepted : (r : Report) × (validate_transcript platform batch (codes "board") ≡ ok r)
unfolding opened_all
batch_accepted = result (validate_transcript platform batch (codes "board")) refl

validate_transcript-IsReview_example : IsReview platform batch (codes "board") batch_accepted.0
validate_transcript-IsReview_example =
    validate_transcript-IsReview platform batch (codes "board") batch_accepted.0 batch_accepted.1

validate_transcript-IsReported_example : Reports platform batch batch_accepted.0
validate_transcript-IsReported_example =
    validate_transcript-IsReported platform batch (codes "board") batch_accepted.0 batch_accepted.1

accepting : apply platform (new offer) accept_frame (pos 10) ≡ ok agreed_contract
unfolding opened_all
accepting = refl

revealing : apply platform locked_contract reveal_frame (pos 150) ≡ ok claimed_contract
unfolding opened_all
revealing = refl

refunding : apply platform locked_contract refund_frame (pos 200) ≡ ok refunded_contract
unfolding opened_all
refunding = refl

apply-Permits_example :
    (apply platform locked_contract reveal_frame (pos 150) ≡ ok claimed_contract)
    ↔ Permits platform locked_contract reveal_frame.sender
        (pos 150)
        claimed_contract
        reveal_frame.body
apply-Permits_example =
    apply-Permits platform locked_contract reveal_frame (pos 150) claimed_contract

apply-Edge_example : Edge locked claimed
apply-Edge_example =
    apply-Edge platform locked_contract reveal_frame (pos 150) claimed_contract revealing

apply-Settles_example :
    Settles platform locked_contract claimed_contract reveal_frame.sender (pos 150) claimed
apply-Settles_example =
    apply-Settles platform locked_contract reveal_frame (pos 150) claimed_contract refl revealing

reveal_before_refund_example : pos 150 <ℤ pos 200
reveal_before_refund_example =
    reveal_before_refund platform locked_contract locked_contract reveal_frame refund_frame
      (pos 150) (pos 200) claimed_contract refunded_contract refl refl refl revealing refl refunding
      refl

reached : Reach platform offer agreed_contract
reached = follow accept_frame (pos 10) opening accepting

Reach-IsWellFormed_example : IsWellFormed platform agreed_contract
Reach-IsWellFormed_example = Reach-IsWellFormed platform offer reached

decoding : decode_line platform (str (line accept_fields)) ≡ ok (some accept_frame)
unfolding opened_all
decoding = refl

decode_line-some_example : IsFrameLine platform (line accept_fields) accept_frame
decode_line-some_example = decode_line-some platform (line accept_fields) accept_frame decoding

receiving : apply platform claimed_contract receipt_frame (pos 300) ≡ ok claimed_contract
unfolding opened_all
receiving = refl

apply_terminal_example : claimed_contract ≡ claimed_contract
apply_terminal_example =
    apply_terminal platform claimed_contract receipt_frame (pos 300) claimed_contract (inl refl)
      receiving

abbrev nested : Value
nested = arr (cons (obj accept_fields) (cons (obj (field "a" (str []) end)) nil))

hook_iff_example : (hook nested ≡ ok nested) ↔ (AllUnique nested × (nested ≡ nested))
hook_iff_example = hook_iff nested nested

reject_duplicates_iff_example :
    (reject_duplicates accept_fields ≡ ok accept_fields)
    ↔ (UniqueKeys accept_fields × (accept_fields ≡ accept_fields))
reject_duplicates_iff_example = reject_duplicates_iff accept_fields accept_fields

-- Two leading ones, and the number 57 * 58.
abbrev ones : Bytes
ones = 0 ∷ 0 ∷ 12 ∷ 234 ∷ []

decoding_ones : base58_decode (codes "11z1") ≡ ok ones
unfolding opened_all
decoding_ones = refl

base58_decode-IsDecoded_example : IsDecoded (codes "11z1") ones
base58_decode-IsDecoded_example = base58_decode-IsDecoded (codes "11z1") ones decoding_ones

is_board : is_room (codes "board") ≡ true
unfolding opened_all
is_board = refl

envelope-injective_example :
    (codes "board" ≡ codes "board")
    × (pos 1700000000000 ≡ pos 1700000000000)
    × (codes "1|a" ≡ codes "1|a")
envelope-injective_example =
    envelope-injective (codes "board") (codes "board") (pos 1700000000000) (pos 1700000000000)
      (codes "1|a") (codes "1|a") is_board is_board refl
