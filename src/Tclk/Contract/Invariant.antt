-- ===== src/Tclk/Contract/Invariant.antt =====
-- The facts that each state of a contract carries, and the contracts that frames can lead to.
use flop_contributions.Prelude.{ℤ, ◌≡◌, ◌≢◌, refl, sym, ◌∙◌, Option, none, some, List, arith}
use mathlib.Core.Path.{subst}
use flop_contributions.Outcome.{ok}
use flop_contributions.Text.{Str}
use flop_contributions.Text.Membership.{In}
use flop_contributions.Platform.{Platform}
use flop_contributions.Tclk.Frame.{
  Role, payer, payee, Status, proposed, accepted, locked, claimed, refunded, cancelled, Offer, Body,
  Frame,
}
use flop_contributions.Tclk.Contract.{Contract, new, opened, apply}
use flop_contributions.Tclk.Contract.Steps.{Permits, apply-Permits}

abbrev pub IsKnown : Option Str → Type 0
IsKnown none = ⊥
IsKnown (some s) = Unit

-- Two parties, and they differ.
abbrev pub TwoParties : Option Str → Option Str → Type 0
TwoParties (some a) (some b) = a ≢ b
TwoParties _ _ = ⊥

abbrev pub OfferedRail : Option Str → List Str → Type 0
OfferedRail none rails = ⊥
OfferedRail (some r) rails = In r rails

-- The proposer stands in the role that the offer gives, and nobody else before an acceptance.
abbrev pub Proposed : Role → Str → Option Str → Option Str → Type 0
Proposed payer sender p q = (p ≡ some sender) × (q ≡ none)
Proposed payee sender p q = (q ≡ some sender) × (p ≡ none)

abbrev pub Proposer : Role → Str → Option Str → Option Str → Type 0
Proposer payer sender p q = p ≡ some sender
Proposer payee sender p q = q ≡ some sender

abbrev pub Funded : Contract → Type 0
Funded c = OfferedRail c.rail c.offer.rails × IsKnown c.rail_ref

abbrev pub NotFunded : Contract → Type 0
NotFunded c = (c.rail ≡ none) × (c.rail_ref ≡ none)

abbrev pub Agreed : Contract → Type 0
Agreed c =
    TwoParties c.payer c.payee
    × Proposer c.offer.role c.offer.sender c.payer c.payee
    × IsKnown c.contract
    × IsKnown c.statement

-- What holds of a contract in each state.
abbrev pub Holds : Platform → Contract → Status → Type 0
Holds p c proposed =
    Proposed c.offer.role c.offer.sender c.payer c.payee
    × (c.contract ≡ none)
    × (c.statement ≡ none)
    × NotFunded c
Holds p c accepted = Agreed c × NotFunded c
Holds p c locked = Agreed c × Funded c
Holds p c claimed = Agreed c × Funded c × ((secret : Str) × (c.statement ≡ some (opened p secret)))
Holds p c refunded = Agreed c × Funded c
Holds p c cancelled = Agreed c × NotFunded c

abbrev pub IsWellFormed : Platform → Contract → Type 0
IsWellFormed p c = Holds p c c.status

pub new-IsWellFormed : (p : Platform) (offer : Offer) → IsWellFormed p (new offer)
unfolding new
new-IsWellFormed p offer = ground arith

Permits-IsWellFormed :
    (p : Platform) (c next : Contract) (sender : Str) (now : ℤ) (body : Body)
    → IsWellFormed p c
    → Permits p c sender now next body
    → IsWellFormed p next
Permits-IsWellFormed p c next sender now (Body.offer o) w h = absurd h
Permits-IsWellFormed p c next sender now (Body.accept ref statement contract nonce) w h =
    let k : Holds p c proposed = subst (Holds p c) h.0 w in
    subst (IsWellFormed p) (sym h.5) (ground arith)
Permits-IsWellFormed p c next sender now (Body.lock contract rail ref) w h = ground arith
Permits-IsWellFormed p c next sender now (Body.reveal contract secret ref) w h =
    let k : Holds p c locked = subst (Holds p c) h.0 w in
    subst (IsWellFormed p) (sym h.6) (k.0, k.1, (secret, h.5))
Permits-IsWellFormed p c next sender now (Body.refund contract ref) w h = ground arith
Permits-IsWellFormed p c next sender now (Body.cancel contract) w h = ground arith
Permits-IsWellFormed p c next sender now (Body.receipt contract outcome rail ref) w h =
    subst (IsWellFormed p) (sym h.6) w
Permits-IsWellFormed p c next sender now (Body.heartbeat contract) w h =
    subst (IsWellFormed p) (sym h.3) w

-- An accepted frame keeps the facts of the states.
pub apply-IsWellFormed :
    (p : Platform) (c : Contract) (frame : Frame) (now : ℤ) (next : Contract)
    → IsWellFormed p c
    → apply p c frame now ≡ ok next
    → IsWellFormed p next
apply-IsWellFormed p c frame now next w h =
    Permits-IsWellFormed p c next frame.sender now frame.body w
      ((apply-Permits p c frame now next).0 h)

-- The contracts that accepted frames can lead to from an offer, whatever the frames and times.
pub data Reach (p : Platform) (offer : Offer) : Contract → Type 0 where
  opening : Reach p offer (new offer)
  follow :
      {c c' : Contract} (frame : Frame) (now : ℤ)
      → Reach p offer c
      → apply p c frame now ≡ ok c'
      → Reach p offer c'

-- A contract that accepted frames lead to from an offer carries the facts of its state: before an
-- acceptance only the proposer is known; behind it both parties are known and differ, and so are the
-- contract id and the statement; a rail is known, and was offered, exactly from the lock on; and a
-- claimed contract has a secret that opens its statement.
pub Reach-IsWellFormed :
    (p : Platform) (offer : Offer) {c : Contract} → Reach p offer c → IsWellFormed p c
Reach-IsWellFormed p offer opening = new-IsWellFormed p offer
Reach-IsWellFormed p offer (follow {c} {c'} frame now r h) =
    apply-IsWellFormed p c frame now c' (Reach-IsWellFormed p offer r) h

Permits-offer :
    (p : Platform) (c next : Contract) (sender : Str) (now : ℤ) (body : Body)
    → Permits p c sender now next body
    → next.offer ≡ c.offer
Permits-offer p c next sender now (Body.offer o) h = absurd h
Permits-offer p c next sender now _ h = ground arith

-- Frames never replace the offer.
pub Reach-offer : (p : Platform) (offer : Offer) {c : Contract} → Reach p offer c → c.offer ≡ offer
unfolding new
Reach-offer p offer opening = refl
Reach-offer p offer (follow {c} {c'} frame now r h) =
    Permits-offer p c c' frame.sender now frame.body ((apply-Permits p c frame now c').0 h)
    ∙ Reach-offer p offer r
