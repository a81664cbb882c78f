-- ===== src/Audit/Named.antt =====
-- The selected contract is the one with the target's id.
use flop_contributions.Prelude.{ℤ, ◌≡◌, ap, ◌∙◌, some, List, [], ◌∷◌, arith, inl, inr}
use flop_contributions.Text.{Str}
use flop_contributions.Platform.{Platform}
use flop_contributions.Tclk.Frame.{Body}
use flop_contributions.Tclk.Contract.{Contract, new}
use flop_contributions.Tclk.Contract.Steps.{Permits}
use flop_contributions.Tclk.Transcript.{contract_of}
use flop_contributions.Tclk.Transcript.History.{Dated}
use flop_contributions.Audit.Chosen.{ChosenBy, Chosen}
use flop_contributions.Audit.Room.{Selected}

-- An acceptance fixes the contract id that its frame names.
Permits-named :
    (p : Platform) (c next : Contract) (sender : Str) (now : ℤ) (body : Body) (target : Str)
    → contract_of body ≡ target
    → Permits p c sender now next body
    → next.contract ≡ some target
unfolding contract_of
Permits-named p c next sender now (Body.offer o) target n h = absurd h
Permits-named p c next sender now _ target n h = ground arith

ChosenBy-contract :
    (p : Platform) (target sender : Str) (now : ℤ) (body : Body) (older : List Dated) (s : Selected)
    → (Chosen p target older (some s) → s.contract.contract ≡ some target)
    → ChosenBy p target sender now body older (Chosen p target older) (some s)
    → s.contract.contract ≡ some target
unfolding contract_of
ChosenBy-contract p target sender now (Body.offer o) older s before h = before h
ChosenBy-contract p target sender now (Body.accept ref statement contract nonce) older s before
      (o, t, c, offered, since, permits, inl (names, same)) =
    let k : s.contract ≡ c = cc same in
    ap (λ (x : Contract). x.contract) k
    ∙ Permits-named p (new o) c sender now (Body.accept ref statement contract nonce) target names
        permits
ChosenBy-contract p target sender now (Body.accept ref statement contract nonce) older s before
      (o, t, c, offered, since, permits, inr (other, h)) =
    before h
ChosenBy-contract p target sender now body older s before (old, c, h, names, since, permits, same) =
    let k : s.contract ≡ c = cc same in
    ap (λ (x : Contract). x.contract) k
    ∙ Permits-named p old.contract c sender now body target names permits

pub Chosen-contract :
    (p : Platform) (target : Str) (hist : List Dated) (s : Selected)
    → Chosen p target hist (some s)
    → s.contract.contract ≡ some target
Chosen-contract p target [] s h = cc
Chosen-contract p target ((frame, now) ∷ older) s h =
    ChosenBy-contract p target frame.sender now frame.body older s
      (Chosen-contract p target older s) h
