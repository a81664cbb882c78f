-- ===== src/Tclk/Transcript/Follow.antt =====
-- The loop holds the contracts that the frames so far lead to.
use mathlib.Core.Path.{subst}
use flop_contributions.Prelude.{
  ℕ, suc, ℤ, ◌≡◌, ◌≢◌, ◌⊎◌, ◌++◌, inl, inr, false, refl, ap, sym, ◌∙◌, Option, none, some, List, [],
  ◌∷◌, arith, Option-cases, Bool-cases, if◌then◌else◌,
}
use flop_contributions.Outcome.{some-or_raise, ok, or_raise, >>=-eq-ok}
use flop_contributions.Text.{Str, eq_str}
use flop_contributions.Text.Laws.{eq_str→≡, eq_str_iff}
use flop_contributions.Json.{Value, Fields, get}
use flop_contributions.Table.{find, put}
use flop_contributions.Table.Laws.{find-put}
use flop_contributions.Platform.{Platform}
use flop_contributions.Tclk.Frame.{Offer, Body, Frame}
use flop_contributions.Tclk.Contract.{Contract, new, apply}
use flop_contributions.Tclk.Contract.Steps.{Permits, apply-Permits}
use flop_contributions.Tclk.Transport.{parse_time}
use flop_contributions.Tclk.Transcript.{
  State, enter_offer, enter_accept, enter_other, held, enter_body, enter, enter_line, process_all,
  contract_of, text_or_empty, value_at,
}
use flop_contributions.Tclk.Transcript.Loop.{process_all-eq-ok, enter_line-eq-ok}
use flop_contributions.Tclk.Transcript.History.{
  Dated, dated, dated_from, history, owner_in, owner_of,
}
use flop_contributions.Tclk.Transcript.Led.{Follows, LedBy, Led}

abbrev pub Follow : Platform → List Dated → State → Type 0
Follow p hist s =
    ((id : Str) → Led p id hist (find id s.contracts))
    × ((x : Str) → find x s.contract_by_id ≡ owner_of hist x)

abbrev FollowBy : Platform → List Dated → Str → ℤ → Body → State → Type 0
FollowBy p hist sender now body s =
    ((id : Str) → LedBy p id sender now body (owner_of hist) (Led p id hist) (find id s.contracts))
    × ((x : Str) → find x s.contract_by_id ≡ owner_in body x (owner_of hist x))

no-eq_str : (s t : Str) → eq_str s t ≡ false → s ≢ t
no-eq_str s t e same = cc ((eq_str_iff s t).1 same, e)

held-eq-ok : (id : Str) (s : State) (c : Contract) → held id s ≡ ok c → find id s.contracts ≡ some c
unfolding held
held-eq-ok id s c h = ground arith

module _ (p : Platform) (hist : List Dated) (s next : State) (follow : Follow p hist s) where
  -- The contract that an accepted frame replaces.
  replaced :
      (key sender : Str) (now : ℤ) (body : Body) (c c' : Contract) (id : Str)
      → find key s.contracts ≡ some c
      → Permits p c sender now c' body
      → ((key ≡ id) × Follows p sender now body (Led p id hist) (find id (put key c' s.contracts)))
        ⊎ ((key ≢ id) × Led p id hist (find id (put key c' s.contracts)))
  replaced key sender now body c c' id found permits = elim (Bool-cases (eq_str key id)) [
    | inl same ↦
        let k = eq_str→≡ key id same in
        inl (
          k,
          (
            c,
            c',
            subst (Led p id hist) (ap (λ j. find j s.contracts) (sym k) ∙ found) (follow.0 id),
            permits,
            rw (find-put key id c' s.contracts, same) refl,
          ),
        )
    | inr other ↦ inr (
      no-eq_str key id other,
      subst (Led p id hist) (sym (rw (find-put key id c' s.contracts, other) refl)) (follow.0 id),
    )
  ]

  offer-FollowBy :
      (sender : Str) (now : ℤ) (o : Offer)
      → enter_offer s o ≡ ok next
      → FollowBy p hist sender now (Body.offer o) next
  unfolding enter_offer
  offer-FollowBy sender now o e = elim (Option-cases (find o.id s.contracts)) [
    | inr (c, old) ↦ ground (arith, old)
    | inl free ↦
        let t : record s { contracts = put o.id (new o) s.contracts } ≡ next =
          ground (arith, free) in
        subst (FollowBy p hist sender now (Body.offer o)) t (
          λ id. elim (Bool-cases (eq_str o.id id)) [
            | inl same ↦
                let k = eq_str→≡ o.id id same in
                inl (
                  k,
                  subst (Led p id hist) (ap (λ j. find j s.contracts) (sym k) ∙ free) (follow.0 id),
                  rw (find-put o.id id (new o) s.contracts, same) refl,
                )
            | inr other ↦ inr (
              no-eq_str o.id id other,
              subst (Led p id hist) (sym (rw (find-put o.id id (new o) s.contracts, other) refl))
                  (follow.0 id),
            )
          ],
          follow.1,
        )
  ]

  accept-FollowBy :
      (frame : Frame) (now : ℤ) (ref statement contract nonce : Str)
      → frame.body ≡ Body.accept ref statement contract nonce
      → enter_accept p s frame now ref contract ≡ ok next
      → FollowBy p hist frame.sender now (Body.accept ref statement contract nonce) next
  unfolding enter_accept
  accept-FollowBy frame now ref statement contract nonce b e =
      let (c, found, e₁) = >>=-eq-ok (or_raise (find ref s.contracts) _) _ e in
      let (c', applied, e₂) = >>=-eq-ok (apply p c frame now) _ e₁ in
      let permits =
        subst (Permits p c frame.sender now c') b ((apply-Permits p c frame now c').0 applied) in
      let t : record s {
        contracts = put ref c' s.contracts;
        contract_by_id = put contract ref s.contract_by_id;
      }
          ≡ next =
        ground arith in
      subst (FollowBy p hist frame.sender now (Body.accept ref statement contract nonce)) t (
        λ id.
            replaced ref frame.sender now (Body.accept ref statement contract nonce) c c' id
              (some-or_raise _ _ found) permits,
        λ x.
            find-put contract x ref s.contract_by_id
            ∙ ap (λ o. if eq_str contract x then some ref else o) (follow.1 x),
      )

  abbrev Goes : Str → ℤ → Body → Type 0
  Goes sender now body =
      ((id : Str)
        → (o : Str) × (owner_of hist (contract_of body) ≡ some o)
          × (((o ≡ id) × Follows p sender now body (Led p id hist) (find id next.contracts))
              ⊎ ((o ≢ id) × Led p id hist (find id next.contracts))))
      × ((x : Str) → find x next.contract_by_id ≡ owner_of hist x)

  other-Goes :
      (frame : Frame) (now : ℤ) (body : Body)
      → frame.body ≡ body
      → enter_other p s frame now ≡ ok next
      → Goes frame.sender now body
  unfolding enter_other
  other-Goes frame now body b e =
      let (owner, known, e₁) =
        >>=-eq-ok (or_raise (find (contract_of frame.body) s.contract_by_id) _) _ e in
      let (c, found, e₂) = >>=-eq-ok (held owner s) _ e₁ in
      let (c', applied, e₃) = >>=-eq-ok (apply p c frame now) _ e₂ in
      let permits =
        subst (Permits p c frame.sender now c') b ((apply-Permits p c frame now c').0 applied) in
      let t : put owner c' s.contracts ≡ next.contracts = ground arith in
      let u : next.contract_by_id ≡ s.contract_by_id = ground arith in
      let owned : owner_of hist (contract_of body) ≡ some owner =
        sym (follow.1 (contract_of body))
        ∙ ap (λ y. find (contract_of y) s.contract_by_id) (sym b)
        ∙ some-or_raise _ _ known in
      (
        λ id. (
          owner,
          owned,
          subst
              (λ d.
                ((owner ≡ id) × Follows p frame.sender now body (Led p id hist) (find id d))
                ⊎ ((owner ≢ id) × Led p id hist (find id d)))
              t (replaced owner frame.sender now body c c' id (held-eq-ok owner s c found) permits),
        ),
        λ x. ap (find x) u ∙ follow.1 x,
      )

  enter_body-FollowBy :
      (frame : Frame) (now : ℤ) (body : Body)
      → frame.body ≡ body
      → enter_body p s frame now body ≡ ok next
      → FollowBy p hist frame.sender now body next
  unfolding enter_body
  enter_body-FollowBy frame now (Body.offer o) b e = offer-FollowBy frame.sender now o e
  enter_body-FollowBy frame now (Body.accept ref statement contract nonce) b e =
      accept-FollowBy frame now ref statement contract nonce b e
  enter_body-FollowBy frame now (Body.lock contract rail ref) b e =
      other-Goes frame now (Body.lock contract rail ref) b e
  enter_body-FollowBy frame now (Body.reveal contract secret ref) b e =
      other-Goes frame now (Body.reveal contract secret ref) b e
  enter_body-FollowBy frame now (Body.refund contract ref) b e =
      other-Goes frame now (Body.refund contract ref) b e
  enter_body-FollowBy frame now (Body.cancel contract) b e =
      other-Goes frame now (Body.cancel contract) b e
  enter_body-FollowBy frame now (Body.receipt contract outcome rail ref) b e =
      other-Goes frame now (Body.receipt contract outcome rail ref) b e
  enter_body-FollowBy frame now (Body.heartbeat contract) b e =
      other-Goes frame now (Body.heartbeat contract) b e

enter_line-Follow :
    (p : Platform) (message : Fields) (hist : List Dated) (s next : State) (text : Str)
    (frame : Option Frame)
    → Follow p hist s
    → enter_line p message s text frame ≡ ok next
    → Follow p (dated_from (ok frame) (parse_time p (get "ts" message)) ++ hist) next
enter_line-Follow p message hist s next text none h e =
    let t : next.contracts ≡ s.contracts = unfold enter_line in ground arith in
    let u : next.contract_by_id ≡ s.contract_by_id = unfold enter_line in ground arith in
    (λ id. rw t (h.0 id), λ x. rw u (h.1 x))
enter_line-Follow p message hist s next text (some frame) h e =
    let i = enter_line-eq-ok p message s text frame next e in
    let after : Follow p ((frame, i.now) ∷ hist) i.mid =
      enter_body-FollowBy p hist (record s { seen_lines = text ∷ s.seen_lines }) i.mid h frame i.now
        frame.body refl (unfold enter in i.entered) in
    subst (λ o. Follow p (dated_from (ok (some frame)) o ++ hist) next) (sym i.time)
      (subst (Follow p ((frame, i.now) ∷ hist)) (sym i.counted) after)

-- The contracts of the loop are those that the frames so far lead to.
pub process_all-Follow :
    (p : Platform) (room : Str) (starting proposed index : ℕ) (hist : List Dated) (s : State)
    (vs : List Value) (last : State)
    → Follow p hist s
    → process_all p room starting proposed index s vs ≡ ok last
    → Follow p (history p hist vs) last
process_all-Follow p room starting proposed index hist s [] last h e =
    unfold process_all in let t : s ≡ last = cc in subst (Follow p hist) t h
process_all-Follow p room starting proposed index hist s (v ∷ vs) last h e =
    let (next, a, rest) = process_all-eq-ok p room starting proposed index s v vs last e in
    let after : Follow p (dated p a.message ++ hist) next =
      subst (λ o. Follow p (dated_from o (parse_time p (get "ts" a.message)) ++ hist) next)
        (sym a.decoded)
        (enter_line-Follow p a.message hist (record s { previous_seq = a.seq }) next
          (text_or_empty (value_at "text" a.message)) a.frame h a.entered) in
    subst (λ w. Follow p (history p hist (w ∷ vs)) last) (sym a.is_object)
      (process_all-Follow p room starting proposed (suc index) (dated p a.message ++ hist) next vs
        last after rest)
