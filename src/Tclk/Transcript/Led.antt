-- ===== src/Tclk/Transcript/Led.antt =====
-- The contracts that the frames of a batch lead to, described by the frames alone.
use flop_contributions.Prelude.{ℤ, ◌≡◌, ◌≢◌, ◌⊎◌, Option, none, some, List, [], ◌∷◌}
use flop_contributions.Text.{Str}
use flop_contributions.Platform.{Platform}
use flop_contributions.Tclk.Frame.{Body}
use flop_contributions.Tclk.Contract.{Contract, new}
use flop_contributions.Tclk.Contract.Steps.{Permits}
use flop_contributions.Tclk.Transcript.{contract_of}
use flop_contributions.Tclk.Transcript.History.{Dated, owner_of}

-- A frame that the rules permit leads from a contract to `c`.
abbrev pub Follows :
    Platform → Str → ℤ → Body → (Option Contract → Type 0) → Option Contract → Type 0
Follows p sender now body before c =
    (old : Contract) × (next : Contract) × before (some old)
    × Permits p old sender now next body
    × (c ≡ some next)

abbrev pub LedBy :
    Platform
    → Str
    → Str
    → ℤ
    → Body
    → (Str → Option Str)
    → (Option Contract → Type 0)
    → Option Contract
    → Type 0
LedBy p id sender now (Body.offer o) owner before c =
    ((o.id ≡ id) × before none × (c ≡ some (new o))) ⊎ ((o.id ≢ id) × before c)
LedBy p id sender now (Body.accept ref statement contract nonce) owner before c =
    ((ref ≡ id) × Follows p sender now (Body.accept ref statement contract nonce) before c)
    ⊎ ((ref ≢ id) × before c)
LedBy p id sender now body owner before c =
    (o : Str) × (owner (contract_of body) ≡ some o)
    × (((o ≡ id) × Follows p sender now body before c) ⊎ ((o ≢ id) × before c))

-- What the frames lead to under the offer id `id`: an offer, made once, opens its contract; an
-- acceptance that refers to it, and every other frame that names a contract id which its acceptance
-- gave, leads on by the rules; frames for other offers change nothing.
abbrev pub Led : Platform → Str → List Dated → Option Contract → Type 0
Led p id [] c = c ≡ none
Led p id ((frame, now) ∷ older) c =
    LedBy p id frame.sender now frame.body (owner_of older) (Led p id older) c
