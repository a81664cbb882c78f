-- ===== src/Audit/Tracks.antt =====
-- A frame in the loop of the audit selects what the frames so far give, with their venue times.
use mathlib.Core.Path.{subst}
use flop_contributions.Prelude.{
  ℤ, pos, negsuc, ◌≤ℤ◌, ◌≡◌, ◌≢◌, ◌⊎◌, if◌then◌else◌, refl, ap, sym, ◌∙◌, Bool, true, false, not,
  ◌&&◌, some, List, [], arith, ltb_ℤ, Bool-cases, inl, inr,
}
use flop_contributions.Outcome.{ok-injective, some-or_raise, ok, or_raise, >>=-eq-ok, guard-eq-ok}
use flop_contributions.Text.{Str, eq_str}
use flop_contributions.Text.Laws.{eq_str→≡, eq_str_iff}
use flop_contributions.Platform.{Platform}
use flop_contributions.Table.{find}
use flop_contributions.Table.Laws.{find-put}
use flop_contributions.Tclk.Frame.{Offer, Body, Frame}
use flop_contributions.Tclk.Contract.{Contract, new, apply}
use flop_contributions.Tclk.Contract.Steps.{Permits, apply-Permits}
use flop_contributions.Tclk.Transcript.{contract_of}
use flop_contributions.Tclk.Transcript.History.{Dated}
use flop_contributions.Audit.Chosen.{OfferedBy, Offered, ChosenBy, Chosen}
use flop_contributions.Audit.Room.{
  list_offer, Listed, Selected, Progress, accept_offer, advance_selected, audit_body, nothing_seen,
}

-- The variables of the loop are what the frames so far give.
abbrev pub Tracks : Platform → Str → List Dated → Progress → Type 0
Tracks p target hist s =
    Chosen p target hist s.selected
    × ((ref : Str) (l : Listed)
        → find ref s.offers ≡ some l
        → l.bound ≡ false
        → Offered hist ref l.offer l.offered_time)

nothing_offered : (ref : Str) (l : Listed) → find ref nothing_seen.offers ≡ some l → ⊥
unfolding find
nothing_offered ref l e = cc

pub nothing_seen-Tracks : (p : Platform) (target : Str) → Tracks p target [] nothing_seen
nothing_seen-Tracks p target = (refl, λ ref l found free. absurd (nothing_offered ref l found))

pub second : (a b : Bool) → (a && b) ≡ true → b ≡ true
second true b h = h
second false b h = cc

not-before : (now t : ℤ) → not (ltb_ℤ now t) ≡ true → t ≤ℤ now
not-before (pos n) (pos m) h = ground arith
not-before (pos n) (negsuc m) h = ground arith
not-before (negsuc n) (pos m) h = ground arith
not-before (negsuc n) (negsuc m) h = ground arith

-- The same, where the last frame has the given sender and body.
abbrev TracksBy : Platform → Str → List Dated → Str → ℤ → Body → Progress → Type 0
TracksBy p target hist sender now body s =
    ChosenBy p target sender now body hist (Chosen p target hist) s.selected
    × ((ref : Str) (l : Listed)
        → find ref s.offers ≡ some l
        → l.bound ≡ false
        → OfferedBy body now ref l.offer l.offered_time (Offered hist ref l.offer l.offered_time))

no-eq_str : (s t : Str) → eq_str s t ≡ false → s ≢ t
no-eq_str s t e same = cc ((eq_str_iff s t).1 same, e)

module _ (p : Platform) (target : Str) (hist : List Dated) (s next : Progress)
    (tracks : Tracks p target hist s) where
  list_offer-TracksBy :
      (sender : Str) (now : ℤ) (o : Offer)
      → list_offer s o now ≡ ok next
      → TracksBy p target hist sender now (Body.offer o) next
  unfolding list_offer
  list_offer-TracksBy sender now o e =
      subst (TracksBy p target hist sender now (Body.offer o)) (ok-injective e) (
        tracks.0,
        λ ref l found free. elim (Bool-cases (eq_str o.id ref)) [
          | inl same ↦
              let l₀ : record { offer = o; offered_time = now; bound = false } ≡ l =
                cc (sym (find-put o.id ref _ s.offers) ∙ found, same) in
              subst
                (λ (x : Listed).
                  OfferedBy (Body.offer o) now ref x.offer x.offered_time
                    (Offered hist ref x.offer x.offered_time))
                l₀ (inl (eq_str→≡ o.id ref same, refl, refl))
          | inr other ↦ inr (
            no-eq_str o.id ref other,
            tracks.1 ref l (cc (sym (find-put o.id ref _ s.offers) ∙ found, other)) free,
          )
        ],
      )

  accept_offer-TracksBy :
      (frame : Frame) (now : ℤ) (ref statement contract nonce : Str)
      → frame.body ≡ Body.accept ref statement contract nonce
      → accept_offer p target s frame now ref contract ≡ ok next
      → TracksBy p target hist frame.sender now (Body.accept ref statement contract nonce) next
  unfolding accept_offer
  accept_offer-TracksBy frame now ref statement contract nonce b e =
      let (listed, found, e₁) = >>=-eq-ok (or_raise (find ref s.offers) _) _ e in
      let (fits, e₂) =
        guard-eq-ok (not listed.bound && not (ltb_ℤ now listed.offered_time)) _ _ e₁ in
      let (c, applied, e₃) = >>=-eq-ok (apply p (new listed.offer) frame now) _ e₂ in
      let free = not_true listed.bound (first (not listed.bound) _ fits) in
      let offered = tracks.1 ref listed (some-or_raise _ _ found) free in
      let permits : Permits p (new listed.offer) frame.sender now c
          (Body.accept ref statement contract nonce) =
        subst (Permits p (new listed.offer) frame.sender now c) b
          ((apply-Permits p (new listed.offer) frame now c).0 applied) in
      subst (TracksBy p target hist frame.sender now (Body.accept ref statement contract nonce))
        (ok-injective e₃)
        (
          (
            listed.offer,
            listed.offered_time,
            c,
            offered,
            not-before now listed.offered_time (second _ _ fits),
            permits,
            chosen c (eq_str contract target) refl,
          ),
          λ r l at unbound. elim (Bool-cases (eq_str ref r)) [
            | inl same ↦
                let l₀ : record listed { bound = true } ≡ l =
                  cc (sym (find-put ref r _ s.offers) ∙ at, same) in
                absurd (true_false (ap (λ (x : Listed). x.bound) l₀ ∙ unbound))
            | inr other ↦ (
              no-eq_str ref r other,
              tracks.1 r l (cc (sym (find-put ref r _ s.offers) ∙ at, other)) unbound,
            )
          ],
        )
    where
      chosen :
          (c : Contract) (b : Bool)
          → eq_str contract target ≡ b
          → ((contract ≡ target)
              × ((if b then some (record { contract = c; time = now }) else s.selected)
                  ≡ some (record { contract = c; time = now })))
            ⊎ ((contract ≢ target)
                × Chosen p target hist
                    (if b then some (record { contract = c; time = now }) else s.selected))
      chosen c true e = inl (eq_str→≡ contract target e, refl)
      chosen c false e = inr (no-eq_str contract target e, tracks.0)

      not_true : (x : Bool) → not x ≡ true → x ≡ false
      not_true false h = refl
      not_true true h = cc

      first : (x y : Bool) → (x && y) ≡ true → x ≡ true
      first true y h = refl
      first false y h = cc

      true_false : true ≡ false → ⊥
      true_false h = cc

  -- What `advance_selected` gives for a body that is neither an offer nor an acceptance.
  abbrev Goes : Str → ℤ → Body → Type 0
  Goes sender now body =
      ((old : Selected) × (c : Contract) × Chosen p target hist (some old)
        × (contract_of body ≡ target)
        × (old.time ≤ℤ now)
        × Permits p old.contract sender now c body
        × (next.selected ≡ some (record { contract = c; time = now })))
      × (next.offers ≡ s.offers)

  advance-Goes :
      (frame : Frame) (now : ℤ) (body : Body)
      → frame.body ≡ body
      → advance_selected p target s frame now ≡ ok next
      → Goes frame.sender now body
  unfolding advance_selected
  advance-Goes frame now body b e =
      let (current, found, e₁) = >>=-eq-ok (or_raise s.selected _) _ e in
      let (names, e₂) = guard-eq-ok (eq_str (contract_of frame.body) target) _ _ e₁ in
      let (fits, e₃) = guard-eq-ok (not (ltb_ℤ now current.time)) _ _ e₂ in
      let (c, applied, e₄) = >>=-eq-ok (apply p current.contract frame now) _ e₃ in
      let t : record s { selected = some (record { contract = c; time = now }) } ≡ next =
        ok-injective e₄ in
      (
        (
          current,
          c,
          subst (Chosen p target hist) (some-or_raise _ _ found) tracks.0,
          ap contract_of (sym b) ∙ eq_str→≡ _ target names,
          not-before now current.time fits,
          subst (Permits p current.contract frame.sender now c) b
              ((apply-Permits p current.contract frame now c).0 applied),
          ap (λ (x : Progress). x.selected) (sym t),
        ),
        ap (λ (x : Progress). x.offers) (sym t),
      )

  same_offers :
      next.offers ≡ s.offers
      → (ref : Str) (l : Listed) → find ref next.offers ≡ some l
      → l.bound ≡ false
      → Offered hist ref l.offer l.offered_time
  same_offers e ref l found = tracks.1 ref l (ap (find ref) (sym e) ∙ found)

  pub audit_body-TracksBy :
      (frame : Frame) (now : ℤ) (body : Body)
      → frame.body ≡ body
      → audit_body p target s frame now body ≡ ok next
      → TracksBy p target hist frame.sender now body next
  unfolding audit_body
  audit_body-TracksBy frame now (Body.offer o) b e = list_offer-TracksBy frame.sender now o e
  audit_body-TracksBy frame now (Body.accept ref statement contract nonce) b e =
      accept_offer-TracksBy frame now ref statement contract nonce b e
  audit_body-TracksBy frame now (Body.lock contract rail ref) b e =
      let (goes, kept) = advance-Goes frame now (Body.lock contract rail ref) b e in
      (goes, same_offers kept)
  audit_body-TracksBy frame now (Body.reveal contract secret ref) b e =
      let (goes, kept) = advance-Goes frame now (Body.reveal contract secret ref) b e in
      (goes, same_offers kept)
  audit_body-TracksBy frame now (Body.refund contract ref) b e =
      let (goes, kept) = advance-Goes frame now (Body.refund contract ref) b e in
      (goes, same_offers kept)
  audit_body-TracksBy frame now (Body.cancel contract) b e =
      let (goes, kept) = advance-Goes frame now (Body.cancel contract) b e in
      (goes, same_offers kept)
  audit_body-TracksBy frame now (Body.receipt contract outcome rail ref) b e =
      let (goes, kept) = advance-Goes frame now (Body.receipt contract outcome rail ref) b e in
      (goes, same_offers kept)
  audit_body-TracksBy frame now (Body.heartbeat contract) b e =
      let (goes, kept) = advance-Goes frame now (Body.heartbeat contract) b e in
      (goes, same_offers kept)
