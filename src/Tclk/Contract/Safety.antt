-- ===== src/Tclk/Contract/Safety.antt =====
-- What the state machine keeps: its diagram, the facts that each state carries, and the windows
-- that keep a reveal and a refund apart.
use flop_contributions.Prelude.{ℤ, ◌≡◌, ◌≢◌, ap, some, arith, pos, ◌≤ℤ◌, ◌<ℤ◌}
use mathlib.Core.Path.{subst}
use flop_contributions.Outcome.{ok}
use flop_contributions.Text.{Str}
use flop_contributions.Platform.{Platform}
use flop_contributions.Tclk.Frame.{
  Status, proposed, accepted, locked, claimed, refunded, cancelled, Offer, Body, Frame,
}
use flop_contributions.Tclk.Contract.{Contract, opened, apply}
use flop_contributions.Tclk.Contract.Steps.{Permits, IsTerminal, apply-Permits}

-- The diagram of the states.
pub data Edge : Status → Status → Type 0 where
  agree : Edge proposed accepted
  fund : Edge accepted locked
  claim : Edge locked claimed
  return : Edge locked refunded
  withdraw : Edge accepted cancelled
  stay : {s : Status} → s ≢ proposed → Edge s s

Permits-Edge :
    (p : Platform) (c next : Contract) (sender : Str) (now : ℤ) (body : Body)
    → Permits p c sender now next body
    → Edge c.status next.status
Permits-Edge p c next sender now (Body.offer o) h = absurd h
Permits-Edge p c next sender now _ h = grind (arith, agree, fund, claim, return, withdraw, stay)

-- An accepted frame moves the status along an edge of the diagram.
pub apply-Edge :
    (p : Platform) (c : Contract) (frame : Frame) (now : ℤ) (next : Contract)
    → apply p c frame now ≡ ok next
    → Edge c.status next.status
apply-Edge p c frame now next h =
    Permits-Edge p c next frame.sender now frame.body ((apply-Permits p c frame now next).0 h)

Permits-terminal :
    (p : Platform) (c next : Contract) (sender : Str) (now : ℤ) (body : Body)
    → IsTerminal c.status
    → Permits p c sender now next body
    → next ≡ c
Permits-terminal p c next sender now (Body.offer o) t h = absurd h
Permits-terminal p c next sender now _ t h = ground arith

-- A claimed, refunded or cancelled contract never changes again: whatever frame it still accepts
-- leaves it as it is.
pub apply_terminal :
    (p : Platform) (c : Contract) (frame : Frame) (now : ℤ) (next : Contract)
    → IsTerminal c.status
    → apply p c frame now ≡ ok next
    → next ≡ c
apply_terminal p c frame now next t h =
    Permits-terminal p c next frame.sender now frame.body t ((apply-Permits p c frame now next).0 h)

-- What `sender` and `now` are where a locked contract is settled with a status.
abbrev pub Settles : Platform → Contract → Contract → Str → ℤ → Status → Type 0
Settles p c next sender now claimed =
    (c.payee ≡ some sender)
    × (now <ℤ pos c.offer.refund_after_ms)
    × ((secret : Str) × (c.statement ≡ some (opened p secret)))
Settles p c next sender now refunded =
    (c.payer ≡ some sender) × (pos c.offer.refund_after_ms ≤ℤ now)
Settles p c next sender now _ = Unit

Permits-Settles :
    (p : Platform) (c next : Contract) (sender : Str) (now : ℤ) (body : Body)
    → c.status ≡ locked
    → Permits p c sender now next body
    → Settles p c next sender now next.status
Permits-Settles p c next sender now (Body.offer o) l h = absurd h
Permits-Settles p c next sender now (Body.reveal contract secret ref) l h =
    rw (ap (λ (d : Contract). d.status) h.6) (h.2, h.3, (secret, h.5))
Permits-Settles p c next sender now _ l h = ground arith

-- Where an accepted frame takes a locked contract to claimed, the payee sent it before the refund
-- window and some secret opens the statement; where it takes it to refunded, the payer sent it with
-- the window open.
pub apply-Settles :
    (p : Platform) (c : Contract) (frame : Frame) (now : ℤ) (next : Contract)
    → c.status ≡ locked
    → apply p c frame now ≡ ok next
    → Settles p c next frame.sender now next.status
apply-Settles p c frame now next l h =
    Permits-Settles p c next frame.sender now frame.body l ((apply-Permits p c frame now next).0 h)

-- For locked contracts of one offer, the time of a frame that claims is before the time of a frame that
-- refunds: no two accepted frames can settle the same agreement both ways at one time.
pub reveal_before_refund :
    (p : Platform) (c d : Contract) (f g : Frame) (s t : ℤ) (c' d' : Contract)
    → c.offer ≡ d.offer
    → c.status ≡ locked
    → d.status ≡ locked
    → apply p c f s ≡ ok c'
    → c'.status ≡ claimed
    → apply p d g t ≡ ok d'
    → d'.status ≡ refunded
    → s <ℤ t
reveal_before_refund p c d f g s t c' d' o lc ld hc kc hd kd =
    let x : Settles p c c' f.sender s claimed =
      subst (Settles p c c' f.sender s) kc (apply-Settles p c f s c' lc hc) in
    let y : Settles p d d' g.sender t refunded =
      subst (Settles p d d' g.sender t) kd (apply-Settles p d g t d' ld hd) in
    omega (arith, x.1, y.1, ap (λ (e : Offer). e.refund_after_ms) o)
