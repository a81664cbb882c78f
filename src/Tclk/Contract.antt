-- ===== src/Tclk/Contract.antt =====
-- `class Contract`: one agreement, from its offer to a terminal state. `apply` returns the new
-- contract, or raises and leaves the contract as it was.
pub mod Invariant
pub mod Safety
pub mod Steps
use flop_contributions.Prelude.{
  ℕ, ◌+◌, ◌-◌, ◌*◌, ℤ, pos, Bool, true, false, not, ◌&&◌, ◌||◌, Option, none, some, List, [], ◌∷◌,
  ◌++◌, drop, leb_ℤ, ltb_ℤ, leb, if◌then◌else◌,
}
use flop_contributions.Outcome.{Outcome, ok, err, value_error, ◌>>=◌, ◌>>◌, guard, or_raise}
use flop_contributions.Text.{Str, Bytes, codes, eq_str, mem_str, is_digit}
use flop_contributions.Json.{Value, str, obj, Fields, end, field}
use flop_contributions.Platform.{Platform, digest}
use flop_contributions.Tclk.Frame.{
  Role, payer, payee, Status, proposed, accepted, locked, claimed, refunded, cancelled, Offer, Body,
  Frame,
}

pub record Contract : Type 0 where
  pub offer : Offer
  pub status : Status
  pub payer : Option Str
  pub payee : Option Str
  pub contract : Option Str
  pub statement : Option Str
  pub rail : Option Str
  pub rail_ref : Option Str

-- `Contract(offer)` with `__post_init__`
unfoldable pub new : Offer → Contract
new offer = record {
  offer = offer;
  status = proposed;
  payer = elim offer.role [ payer ↦ some offer.sender | payee ↦ none ];
  payee = elim offer.role [ payer ↦ none | payee ↦ some offer.sender ];
  contract = none;
  statement = none;
  rail = none;
  rail_ref = none;
}

unfoldable pub eq_status : Status → Status → Bool
eq_status proposed proposed = true
eq_status accepted accepted = true
eq_status locked locked = true
eq_status claimed claimed = true
eq_status refunded refunded = true
eq_status cancelled cancelled = true
eq_status _ _ = false

-- `value == self.field`, where the field may be None
unfoldable pub names : Option Str → Str → Bool
unfolding eq_str
names none s = false
names (some t) s = eq_str t s

-- `frame["from"] in {self.payer, self.payee}`
unfoldable pub is_party : Contract → Str → Bool
unfolding names
is_party c sender = names c.payer sender || names c.payee sender

-- `"ref" in frame and frame["ref"] != self.rail_ref` does not hold
unfoldable pub agrees : Option Str → Option Str → Bool
unfolding names
agrees none kept = true
agrees (some value) kept = names kept value

-- `now_ms >= limit`
unfoldable pub reached : ℤ → ℕ → Bool
reached now limit = leb_ℤ (pos limit) now

-- The digit value of a character of [0-9a-f].
abbrev hex_digit : ℕ → ℕ
hex_digit c = if is_digit c then c - b'0' else c - b'a' + 10

-- `bytes.fromhex` of an even number of lower-case hex digits
unfoldable pub from_hex : Str → Bytes
from_hex (a ∷ b ∷ s) = (hex_digit a * 16 + hex_digit b) ∷ from_hex s
from_hex _ = []

-- The statement that a secret opens.
unfoldable pub opened : Platform → Str → Str
unfolding from_hex
opened p secret = codes "0x" ++ p.sha256 (from_hex (drop 2 secret))

-- {key: frame[key] for key in ("from", "ref", "statement", "nonce")}
abbrev accept_core : Str → Str → Str → Str → Fields
accept_core sender ref statement nonce =
    field "from" (str sender)
      (field "ref" (str ref) (field "statement" (str statement) (field "nonce" (str nonce) end)))

-- The contract id that an offer and an acceptance of it fix.
unfoldable pub contract_id : Platform → Offer → Str → Str → Str → Str → Str
contract_id p offer sender ref statement nonce = digest p (codes "contract") (
    obj (
      field "offer" (obj offer.fields)
        (field "accept" (obj (accept_core sender ref statement nonce)) end)))

unfoldable pub apply_accept :
    Platform → Contract → Str → ℤ → Str → Str → Str → Str → Outcome Contract
unfolding eq_status reached contract_id
apply_accept p c sender now ref statement contract nonce = do
  guard (eq_status c.status proposed && eq_str ref c.offer.id)
      "accept is out of turn or names another offer"
  guard (not (eq_str sender c.offer.sender) && not (reached now c.offer.expires_ms))
      "self-accept or expired offer"
  guard (eq_str contract (contract_id p c.offer sender ref statement nonce)) "contract id mismatch"
  ok (record c {
    contract = some (contract_id p c.offer sender ref statement nonce);
    statement = some statement;
    payer = elim c.offer.role [ payer ↦ c.payer | payee ↦ some sender ];
    payee = elim c.offer.role [ payer ↦ some sender | payee ↦ c.payee ];
    status = accepted;
  })

unfoldable pub apply_lock : Contract → Str → ℤ → Str → Str → Str → Outcome Contract
unfolding eq_status names reached mem_str
apply_lock c sender now contract rail ref = do
  guard (eq_status c.status accepted && names c.contract contract)
      "lock is out of turn or names another contract"
  guard (names c.payer sender && mem_str rail c.offer.rails)
      "lock has the wrong party or an unoffered rail"
  guard (not (reached now c.offer.refund_after_ms)) "lock appears after the refund window opened"
  ok (record c { rail = some rail; rail_ref = some ref; status = locked })

unfoldable pub apply_reveal :
    Platform → Contract → Str → ℤ → Str → Str → Option Str → Outcome Contract
unfolding eq_status names reached agrees opened
apply_reveal p c sender now contract secret ref = do
  guard (eq_status c.status locked && names c.contract contract)
      "reveal is out of turn or names another contract"
  guard (names c.payee sender && not (reached now c.offer.refund_after_ms))
      "reveal has the wrong party or is too late"
  guard (agrees ref c.rail_ref) "reveal names another rail reference"
  guard (names c.statement (opened p secret)) "secret does not open the statement"
  ok (record c { status = claimed })

unfoldable pub apply_refund : Contract → Str → ℤ → Str → Option Str → Outcome Contract
unfolding eq_status names reached agrees
apply_refund c sender now contract ref = do
  guard (eq_status c.status locked && names c.contract contract)
      "refund is out of turn or names another contract"
  guard (names c.payer sender && reached now c.offer.refund_after_ms)
      "refund has the wrong party or is too early"
  guard (agrees ref c.rail_ref) "refund names another rail reference"
  ok (record c { status = refunded })

unfoldable pub apply_heartbeat : Contract → Str → Str → Outcome Contract
unfolding eq_status names is_party
apply_heartbeat c sender contract = do
  guard ((eq_status c.status accepted || eq_status c.status locked) && names c.contract contract)
      "heartbeat is outside an active contract"
  guard (is_party c sender) "heartbeat is from a non-party"
  ok c

unfoldable pub apply_cancel : Contract → Str → Str → Outcome Contract
unfolding eq_status names is_party
apply_cancel c sender contract = do
  guard (not (eq_status c.status proposed)) "proposed-state cancel is deferred"
  guard (eq_status c.status accepted && names c.contract contract)
      "cancel is out of turn or names another contract"
  guard (is_party c sender) "cancel is from a non-party"
  ok (record c { status = cancelled })

abbrev pub is_terminal : Status → Bool
is_terminal claimed = true
is_terminal refunded = true
is_terminal cancelled = true
is_terminal _ = false

unfoldable pub apply_receipt :
    Contract → Str → Str → Status → Option Str → Option Str → Outcome Contract
unfolding eq_status names is_party agrees
apply_receipt c sender contract outcome rail ref = do
  guard (is_terminal c.status) "receipt precedes a terminal state"
  guard (names c.contract contract && is_party c sender)
      "receipt names another contract or a non-party"
  guard (eq_status outcome c.status) "receipt outcome contradicts the terminal state"
  guard (agrees rail c.rail) "receipt contradicts the locked rail"
  guard (agrees ref c.rail_ref) "receipt contradicts the locked rail reference"
  ok c

-- `Contract.apply(frame, now_ms)`
unfoldable pub apply_body : Platform → Contract → Str → Body → ℤ → Outcome Contract
unfolding apply_accept apply_lock apply_reveal apply_refund apply_heartbeat apply_cancel
    apply_receipt
apply_body p c sender (Body.offer o) now =
    err (value_error "additional offer cannot enter an open contract")
apply_body p c sender (Body.accept ref statement contract nonce) now =
    apply_accept p c sender now ref statement contract nonce
apply_body p c sender (Body.lock contract rail ref) now = apply_lock c sender now contract rail ref
apply_body p c sender (Body.reveal contract secret ref) now =
    apply_reveal p c sender now contract secret ref
apply_body p c sender (Body.refund contract ref) now = apply_refund c sender now contract ref
apply_body p c sender (Body.heartbeat contract) now = apply_heartbeat c sender contract
apply_body p c sender (Body.cancel contract) now = apply_cancel c sender contract
apply_body p c sender (Body.receipt contract outcome rail ref) now =
    apply_receipt c sender contract outcome rail ref

unfoldable pub apply : Platform → Contract → Frame → ℤ → Outcome Contract
unfolding apply_body
apply p c frame now = apply_body p c frame.sender frame.body now
