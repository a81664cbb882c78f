-- ===== src/Tclk/Report/Entries.antt =====
-- The entries of a report beside the contracts that the frames of the batch lead to.
use mathlib.Core.Path.{subst}
use flop_contributions.Prelude.{
  ℤ, ◌≡◌, ◌≢◌, ◌⊎◌, inl, inr, refl, sym, ◌∙◌, Option, none, some, List, [], ◌∷◌, Option-cases,
  Bool-cases,
}
use flop_contributions.Outcome.{ok-injective, ok, >>=-eq-ok}
use flop_contributions.Text.{Str, eq_str}
use flop_contributions.Text.Laws.{eq_str→≡, eq_str_iff}
use flop_contributions.Table.{find}
use flop_contributions.Table.Keys.{keys, Apart}
use flop_contributions.Platform.{Platform, redacted_hash}
use flop_contributions.Tclk.Frame.{Body}
use flop_contributions.Tclk.Contract.{Contract}
use flop_contributions.Tclk.Transcript.{contract_of}
use flop_contributions.Tclk.Transcript.History.{Dated, owner_of}
use flop_contributions.Tclk.Transcript.Led.{Follows, LedBy, Led}
use flop_contributions.Tclk.Report.{
  ContractReport, hash_contract, report_contract, report_contracts,
}

-- An entry gives the contract that the frames lead to under the offer id, and the hashes of both ids.
abbrev pub IsReported : Platform → List Dated → Str → ContractReport → Type 0
IsReported p hist id entry =
    (c : Contract) × Led p id hist (some c)
    × (redacted_hash p id ≡ ok entry.offer_sha256)
    × (hash_contract p c.contract ≡ ok entry.contract_sha256)
    × (entry.status ≡ c.status)
    × (entry.rail ≡ c.rail)

-- Entry by entry.
abbrev pub AllReported : Platform → List Dated → List Str → List ContractReport → Type 0
AllReported p hist [] [] = Unit
AllReported p hist (id ∷ ids) (entry ∷ entries) =
    IsReported p hist id entry × AllReported p hist ids entries
AllReported p hist _ _ = ⊥

-- Frames that lead to a contract do not lead to none.
module _ (p : Platform) (id sender : Str) (now : ℤ) (older : List Dated) (c : Contract)
    (apart : Led p id older none → Led p id older (some c) → ⊥) where
  abbrev Goes : Body → Str → Option Contract → Type 0
  Goes body key o =
      ((key ≡ id) × Follows p sender now body (Led p id older) o) ⊎ ((key ≢ id) × Led p id older o)

  Goes-none : (body : Body) (k j : Str) → k ≡ j → Goes body k none → Goes body j (some c) → ⊥
  Goes-none body k j e (inl (same, (old, next, led, permits, absent))) h = cc
  Goes-none body k j e (inr (other, absent)) (inl (same, h)) = other (e ∙ same)
  Goes-none body k j e (inr (other, absent)) (inr (other', h)) = apart absent h

  abbrev Named : Body → Option Contract → Type 0
  Named body c = (o : Str) × (owner_of older (contract_of body) ≡ some o) × Goes body o c

  Named-none : (body : Body) → Named body none → Named body (some c) → ⊥
  Named-none body (o, at, absent) (o', at', h) =
      let k : o ≡ o' = cc (at, at') in Goes-none body o o' k absent h

  LedBy-none :
      (body : Body)
      → LedBy p id sender now body (owner_of older) (Led p id older) none
      → LedBy p id sender now body (owner_of older) (Led p id older) (some c)
      → ⊥
  LedBy-none (Body.offer o) (inl (same, free, absent)) h = cc
  LedBy-none (Body.offer o) (inr (other, absent)) (inl (same, free, h)) = other same
  LedBy-none (Body.offer o) (inr (other, absent)) (inr (other', h)) = apart absent h
  LedBy-none (Body.accept ref statement contract nonce) absent h =
      Goes-none (Body.accept ref statement contract nonce) ref ref refl absent h
  LedBy-none (Body.lock contract rail ref) absent h =
      Named-none (Body.lock contract rail ref) absent h
  LedBy-none (Body.reveal contract secret ref) absent h =
      Named-none (Body.reveal contract secret ref) absent h
  LedBy-none (Body.refund contract ref) absent h = Named-none (Body.refund contract ref) absent h
  LedBy-none (Body.cancel contract) absent h = Named-none (Body.cancel contract) absent h
  LedBy-none (Body.receipt contract outcome rail ref) absent h =
      Named-none (Body.receipt contract outcome rail ref) absent h
  LedBy-none (Body.heartbeat contract) absent h = Named-none (Body.heartbeat contract) absent h

Led-none :
    (p : Platform) (id : Str) (hist : List Dated) (c : Contract)
    → Led p id hist none
    → Led p id hist (some c)
    → ⊥
Led-none p id [] c absent h = cc
Led-none p id ((frame, now) ∷ older) c absent h =
    LedBy-none p id frame.sender now older c (Led-none p id older c) frame.body absent h

module _ (p : Platform) (hist : List Dated) where
  pub Led-find :
      (id : Str) (c : Contract) (d : List (Str × Contract))
      → Led p id hist (find id d)
      → Led p id hist (some c)
      → (b : Contract) × (find id d ≡ some b)
  Led-find id c d at h = elim (Option-cases (find id d)) [
    | inl free ↦ absurd (Led-none p id hist c (subst (Led p id hist) free at) h)
    | inr found ↦ found
  ]

  report_contract-IsReported :
      (id : Str) (c : Contract) (entry : ContractReport)
      → Led p id hist (some c)
      → report_contract p (id, c) ≡ ok entry
      → IsReported p hist id entry
  unfolding report_contract
  report_contract-IsReported id c entry led h =
      let (a, hashed, h₁) = >>=-eq-ok (redacted_hash p id) _ h in
      let (b, agreed, h₂) = >>=-eq-ok (hash_contract p c.contract) _ h₁ in
      subst (IsReported p hist id) (ok-injective h₂) (c, led, hashed, agreed, refl, refl)

  -- Every item of the table is led to.
  abbrev pub AllLed : List (Str × Contract) → Type 0
  AllLed [] = Unit
  AllLed ((id, c) ∷ d) = Led p id hist (some c) × AllLed d

  pub Apart-AllLed :
      (d : List (Str × Contract))
      → Apart d
      → ((id : Str) (c : Contract) → find id d ≡ some c → Led p id hist (some c))
      → AllLed d
  unfolding find
  Apart-AllLed [] a h = tt
  Apart-AllLed ((id, c) ∷ d) a h = (
    h id c (rw ((eq_str_iff id id).1 refl) refl),
    Apart-AllLed d a.1 (λ j b found. h j b (elim (Bool-cases (eq_str id j)) [
      | inl e ↦
          let k : some b ≡ none = sym found ∙ subst (λ i. find i d ≡ none) (eq_str→≡ id j e) a.0 in
          cc
      | inr e ↦ rw e found
    ])),
  )

  pub report_contracts-AllReported :
      (d : List (Str × Contract)) (entries : List ContractReport)
      → AllLed d
      → report_contracts p d ≡ ok entries
      → AllReported p hist (keys d) entries
  unfolding report_contracts
  report_contracts-AllReported [] entries a h = subst (AllReported p hist []) (ok-injective h) tt
  report_contracts-AllReported ((id, c) ∷ d) entries a h =
      let (r, one, h₁) = >>=-eq-ok (report_contract p (id, c)) _ h in
      let (rs, more, h₂) = >>=-eq-ok (report_contracts p d) _ h₁ in
      subst (AllReported p hist (id ∷ keys d)) (ok-injective h₂)
        (report_contract-IsReported id c r a.0 one, report_contracts-AllReported d rs a.1 more)
