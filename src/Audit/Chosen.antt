-- ===== src/Audit/Chosen.antt =====
-- The contract that the frames of two exports select, described by the frames alone.
use flop_contributions.Prelude.{
  ℤ, ◌≤ℤ◌, ◌≡◌, ◌≢◌, ◌⊎◌, ◌++◌, if◌then◌else◌, Option, none, some, List, [], ◌∷◌,
}
use flop_contributions.Text.{Str}
use flop_contributions.Json.{Fields, has_key}
use flop_contributions.Platform.{Platform}
use flop_contributions.Tclk.Frame.{Offer, Body}
use flop_contributions.Tclk.Contract.{Contract, new}
use flop_contributions.Tclk.Contract.Steps.{Permits}
use flop_contributions.Tclk.Transcript.{contract_of}
use flop_contributions.Tclk.Transcript.History.{Dated, dated}
use flop_contributions.Audit.Room.{Selected}

-- The frames of the records that carry a signature, in front of the older ones.
abbrev pub audit_history : Platform → List Dated → List Fields → List Dated
audit_history p older [] = older
audit_history p older (r ∷ rs) =
    audit_history p ((if has_key "sig" r then dated p r else []) ++ older) rs

abbrev pub OfferedBy : Body → ℤ → Str → Offer → ℤ → Type 0 → Type 0
OfferedBy (Body.offer q) now ref o t before =
    ((q.id ≡ ref) × (o ≡ q) × (t ≡ now)) ⊎ ((q.id ≢ ref) × before)
OfferedBy (Body.accept r statement contract nonce) now ref o t before = (r ≢ ref) × before
OfferedBy _ now ref o t before = before

-- The last offer frame with the id `ref` was `o`, at the time `t`, and none accepted it since.
abbrev pub Offered : List Dated → Str → Offer → ℤ → Type 0
Offered [] ref o t = ⊥
Offered ((frame, now) ∷ older) ref o t = OfferedBy frame.body now ref o t (Offered older ref o t)

abbrev pub ChosenBy :
    Platform
    → Str
    → Str
    → ℤ
    → Body
    → List Dated
    → (Option Selected → Type 0)
    → Option Selected
    → Type 0
ChosenBy p target sender now (Body.offer q) older before s = before s
ChosenBy p target sender now (Body.accept ref statement contract nonce) older before s =
    (o : Offer) × (t : ℤ) × (c : Contract) × Offered older ref o t
    × (t ≤ℤ now)
    × Permits p (new o) sender now c (Body.accept ref statement contract nonce)
    × (((contract ≡ target) × (s ≡ some (record { contract = c; time = now })))
        ⊎ ((contract ≢ target) × before s))
ChosenBy p target sender now body older before s =
    (old : Selected) × (c : Contract) × before (some old)
    × (contract_of body ≡ target)
    × (old.time ≤ℤ now)
    × Permits p old.contract sender now c body
    × (s ≡ some (record { contract = c; time = now }))

-- What the frames select: an acceptance that names `target` opens the contract of an offer that was made
-- before it, at no later time, and not accepted yet; every other frame of a deal goes on with the
-- selected contract, at no earlier time. All of them are permitted by the rules of the protocol.
abbrev pub Chosen : Platform → Str → List Dated → Option Selected → Type 0
Chosen p target [] s = s ≡ none
Chosen p target ((frame, now) ∷ older) s =
    ChosenBy p target frame.sender now frame.body older (Chosen p target older) s
