-- ===== src/Tclk/Contract/Steps.antt =====
-- The rules of a tclk/1 hash-lock contract, stated without the code's tests, and that
-- `Contract.apply` accepts exactly the frames that the rules permit.
use flop_contributions.Prelude.{
  ℕ, ℤ, ◌≡◌, ◌≢◌, ◌⊎◌, ◌↔◌, true, false, Option, none, some, arith, pos, ◌≤ℤ◌, ◌<ℤ◌, negsuc,
}
use flop_contributions.Outcome.{ok}
use flop_contributions.Text.{Str}
use flop_contributions.Text.Laws.{eq_str_iff}
use flop_contributions.Text.Membership.{In, mem_str_iff}
use flop_contributions.Platform.{Platform}
use flop_contributions.Tclk.Frame.{
  payer, payee, Status, proposed, accepted, locked, claimed, refunded, cancelled, Body, Frame,
}
use flop_contributions.Tclk.Contract.{
  Contract, eq_status, names, is_party, agrees, reached, opened, contract_id, apply_accept,
  apply_lock, apply_reveal, apply_refund, apply_heartbeat, apply_cancel, apply_receipt, apply_body,
  apply,
}

eq_status_iff : (a b : Status) → (eq_status a b ≡ true) ↔ (a ≡ b)
unfolding eq_status
eq_status_iff a b = ground arith

names_iff : (o : Option Str) (s : Str) → (names o s ≡ true) ↔ (o ≡ some s)
unfolding names
names_iff none s = ground arith
names_iff (some t) s = ground (arith, eq_str_iff t s)

pub reached_iff : (now : ℤ) (limit : ℕ) → (reached now limit ≡ true) ↔ (pos limit ≤ℤ now)
unfolding reached
reached_iff (pos n) limit = ground arith
reached_iff (negsuc n) limit = ground arith

pub not-reached_iff : (now : ℤ) (limit : ℕ) → (reached now limit ≡ false) ↔ (now <ℤ pos limit)
unfolding reached
not-reached_iff (pos n) limit = ground arith
not-reached_iff (negsuc n) limit = ground arith

-- A reference that a frame may leave out is the one that was kept, where it is given.
abbrev pub Agrees : Option Str → Option Str → Type 0
Agrees none kept = Unit
Agrees (some s) kept = kept ≡ some s

agrees_iff : (given kept : Option Str) → (agrees given kept ≡ true) ↔ Agrees given kept
unfolding agrees
agrees_iff none kept = ground arith
agrees_iff (some s) kept = names_iff kept s

abbrev pub IsParty : Contract → Str → Type 0
IsParty c sender = (c.payer ≡ some sender) ⊎ (c.payee ≡ some sender)

is_party_iff : (c : Contract) (sender : Str) → (is_party c sender ≡ true) ↔ IsParty c sender
unfolding is_party
is_party_iff c sender = ground (arith, names_iff c.payer sender, names_iff c.payee sender)

abbrev pub IsActive : Status → Type 0
IsActive s = (s ≡ accepted) ⊎ (s ≡ locked)

abbrev pub IsTerminal : Status → Type 0
IsTerminal s = (s ≡ claimed) ⊎ (s ≡ refunded) ⊎ (s ≡ cancelled)

-- The rules: when `sender` may send the frame at the venue time `now`, and what it leads to.
abbrev pub Permits : Platform → Contract → Str → ℤ → Contract → Body → Type 0
Permits p c sender now next (Body.offer o) = ⊥
Permits p c sender now next (Body.accept ref statement contract nonce) =
    (c.status ≡ proposed)
    × (ref ≡ c.offer.id)
    × (sender ≢ c.offer.sender)
    × (now <ℤ pos c.offer.expires_ms)
    × (contract ≡ contract_id p c.offer sender ref statement nonce)
    × (next ≡ record c {
      contract = some contract;
      statement = some statement;
      payer = elim c.offer.role [ payer ↦ c.payer | payee ↦ some sender ];
      payee = elim c.offer.role [ payer ↦ some sender | payee ↦ c.payee ];
      status = accepted;
    })
Permits p c sender now next (Body.lock contract rail ref) =
    (c.status ≡ accepted)
    × (c.contract ≡ some contract)
    × (c.payer ≡ some sender)
    × In rail c.offer.rails
    × (now <ℤ pos c.offer.refund_after_ms)
    × (next ≡ record c { rail = some rail; rail_ref = some ref; status = locked })
Permits p c sender now next (Body.reveal contract secret ref) =
    (c.status ≡ locked)
    × (c.contract ≡ some contract)
    × (c.payee ≡ some sender)
    × (now <ℤ pos c.offer.refund_after_ms)
    × Agrees ref c.rail_ref
    × (c.statement ≡ some (opened p secret))
    × (next ≡ record c { status = claimed })
Permits p c sender now next (Body.refund contract ref) =
    (c.status ≡ locked)
    × (c.contract ≡ some contract)
    × (c.payer ≡ some sender)
    × (pos c.offer.refund_after_ms ≤ℤ now)
    × Agrees ref c.rail_ref
    × (next ≡ record c { status = refunded })
Permits p c sender now next (Body.heartbeat contract) =
    IsActive c.status × (c.contract ≡ some contract) × IsParty c sender × (next ≡ c)
Permits p c sender now next (Body.cancel contract) =
    (c.status ≡ accepted)
    × (c.contract ≡ some contract)
    × IsParty c sender
    × (next ≡ record c { status = cancelled })
Permits p c sender now next (Body.receipt contract outcome rail ref) =
    IsTerminal c.status
    × (c.contract ≡ some contract)
    × IsParty c sender
    × (outcome ≡ c.status)
    × Agrees rail c.rail
    × Agrees ref c.rail_ref
    × (next ≡ c)

module _ (p : Platform) (c : Contract) (sender : Str) (now : ℤ) (next : Contract) where
  accept-Permits :
      (ref statement contract nonce : Str)
      → (apply_accept p c sender now ref statement contract nonce ≡ ok next)
        ↔ Permits p c sender now next (Body.accept ref statement contract nonce)
  unfolding apply_accept
  accept-Permits ref statement contract nonce = ground (
    arith,
    eq_status_iff c.status proposed,
    eq_str_iff ref c.offer.id,
    eq_str_iff sender c.offer.sender,
    not-reached_iff now c.offer.expires_ms,
    eq_str_iff contract (contract_id p c.offer sender ref statement nonce),
  )

  lock-Permits :
      (contract rail ref : Str)
      → (apply_lock c sender now contract rail ref ≡ ok next)
        ↔ Permits p c sender now next (Body.lock contract rail ref)
  unfolding apply_lock
  lock-Permits contract rail ref = ground (
    arith,
    eq_status_iff c.status accepted,
    names_iff c.contract contract,
    names_iff c.payer sender,
    mem_str_iff rail c.offer.rails,
    not-reached_iff now c.offer.refund_after_ms,
  )

  reveal-Permits :
      (contract secret : Str) (ref : Option Str)
      → (apply_reveal p c sender now contract secret ref ≡ ok next)
        ↔ Permits p c sender now next (Body.reveal contract secret ref)
  unfolding apply_reveal
  reveal-Permits contract secret ref = ground (
    arith,
    eq_status_iff c.status locked,
    names_iff c.contract contract,
    names_iff c.payee sender,
    not-reached_iff now c.offer.refund_after_ms,
    agrees_iff ref c.rail_ref,
    names_iff c.statement (opened p secret),
  )

  refund-Permits :
      (contract : Str) (ref : Option Str)
      → (apply_refund c sender now contract ref ≡ ok next)
        ↔ Permits p c sender now next (Body.refund contract ref)
  unfolding apply_refund
  refund-Permits contract ref = ground (
    arith,
    eq_status_iff c.status locked,
    names_iff c.contract contract,
    names_iff c.payer sender,
    reached_iff now c.offer.refund_after_ms,
    agrees_iff ref c.rail_ref,
  )

  heartbeat-Permits :
      (contract : Str)
      → (apply_heartbeat c sender contract ≡ ok next)
        ↔ Permits p c sender now next (Body.heartbeat contract)
  unfolding apply_heartbeat
  heartbeat-Permits contract = ground (
    arith,
    eq_status_iff c.status accepted,
    eq_status_iff c.status locked,
    names_iff c.contract contract,
    is_party_iff c sender,
  )

  cancel-Permits :
      (contract : Str)
      → (apply_cancel c sender contract ≡ ok next)
        ↔ Permits p c sender now next (Body.cancel contract)
  unfolding apply_cancel
  cancel-Permits contract = ground (
    arith,
    eq_status_iff c.status proposed,
    eq_status_iff c.status accepted,
    names_iff c.contract contract,
    is_party_iff c sender,
  )

  receipt-Permits :
      (contract : Str) (outcome : Status) (rail ref : Option Str)
      → (apply_receipt c sender contract outcome rail ref ≡ ok next)
        ↔ Permits p c sender now next (Body.receipt contract outcome rail ref)
  unfolding apply_receipt
  receipt-Permits contract outcome rail ref = ground (
    arith,
    eq_status_iff outcome c.status,
    names_iff c.contract contract,
    is_party_iff c sender,
    agrees_iff rail c.rail,
    agrees_iff ref c.rail_ref,
  )

  apply_body-Permits :
      (body : Body) → (apply_body p c sender body now ≡ ok next) ↔ Permits p c sender now next body
  unfolding apply_body
  apply_body-Permits (Body.offer o) = (λ h. cc, λ h. absurd h)
  apply_body-Permits (Body.accept ref statement contract nonce) =
      accept-Permits ref statement contract nonce
  apply_body-Permits (Body.lock contract rail ref) = lock-Permits contract rail ref
  apply_body-Permits (Body.reveal contract secret ref) = reveal-Permits contract secret ref
  apply_body-Permits (Body.refund contract ref) = refund-Permits contract ref
  apply_body-Permits (Body.cancel contract) = cancel-Permits contract
  apply_body-Permits (Body.receipt contract outcome rail ref) =
      receipt-Permits contract outcome rail ref
  apply_body-Permits (Body.heartbeat contract) = heartbeat-Permits contract

-- A frame is applied to a contract, with a given result, exactly when the rules permit the frame's
-- body from its sender at that time with that result.
pub apply-Permits :
    (p : Platform) (c : Contract) (frame : Frame) (now : ℤ) (next : Contract)
    → (apply p c frame now ≡ ok next) ↔ Permits p c frame.sender now next frame.body
unfolding apply
apply-Permits p c frame now next = apply_body-Permits p c frame.sender now next frame.body
