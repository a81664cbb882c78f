-- ===== src/Audit/Replays.antt =====
-- No protocol frame stands twice in the exports of an accepted audit.
use mathlib.Core.Path.{subst}
use flop_contributions.Prelude.{
  ℤ, ◌≡◌, refl, sym, ap, ◌∙◌, not, ◌&&◌, Option, none, some, List, [], ◌∷◌, ◌++◌, All,
  if◌then◌else◌, Bool-cases, inl, inr, ltb_ℤ,
}
use flop_contributions.Outcome.{ok, or_raise, >>=-eq-ok, guard-eq-ok, ok-injective}
use flop_contributions.Text.{Str, mem_str, eq_str}
use flop_contributions.Text.Membership.{In, Distinct, mem_str_iff}
use flop_contributions.Json.{Fields, get, is_str}
use flop_contributions.Platform.{Platform}
use flop_contributions.Table.{find}
use flop_contributions.Tclk.Frame.{Body, Frame}
use flop_contributions.Tclk.Validate.{decode_line}
use flop_contributions.Tclk.Transport.{parse_time}
use flop_contributions.Tclk.Contract.{new, apply}
use flop_contributions.Tclk.Transcript.{value_at, contract_of, text_or_empty}
use flop_contributions.Tclk.Transcript.Replays.{fresh-head, fresh-tail}
use flop_contributions.Audit.Room.{
  Source, board, deal, Progress, belongs, count_frame, accept_offer, list_offer, advance_selected,
  audit_body, audit_frame, is_protocol, audit_record, audit_records,
}

-- The texts of the records that the audit reads as frames, in their order.
abbrev pub frame_texts : List Fields → List Str
frame_texts [] = []
frame_texts (r ∷ rs) =
    if is_protocol r then text_or_empty (value_at "text" r) ∷ frame_texts rs else frame_texts rs

-- New texts that are added to the seen ones one after another.
abbrev pub Adds : List Str → List Str → List Str → Type 0
Adds seen [] after = seen ≡ after
Adds seen (t ∷ ts) after = (¬ In t seen) × Adds (t ∷ seen) ts after

Adds-append :
    (seen middle after ts us : List Str)
    → Adds seen ts middle
    → Adds middle us after
    → Adds seen (ts ++ us) after
Adds-append seen middle after [] us a b = subst (λ m. Adds m us after) (sym a) b
Adds-append seen middle after (t ∷ ts) us a b =
    (a.0, Adds-append (t ∷ seen) middle after ts us a.1 b)

Adds-Distinct :
    (seen after ts : List Str) → Adds seen ts after → Distinct ts × All (λ t. ¬ In t seen) ts
Adds-Distinct seen after [] a = (tt, tt)
Adds-Distinct seen after (t ∷ ts) a =
    let (distinct, fresh) = Adds-Distinct (t ∷ seen) after ts a.1 in
    ((fresh-head t seen ts fresh, distinct), (a.0, fresh-tail t seen ts fresh))

pub Adds-both :
    (middle after ts us : List Str) → Adds [] ts middle → Adds middle us after → Distinct (ts ++ us)
Adds-both middle after ts us a b =
    (Adds-Distinct [] after (ts ++ us) (Adds-append [] middle after ts us a b)).0

seen-advance_selected :
    (p : Platform) (target : Str) (s next : Progress) (frame : Frame) (now : ℤ)
    → advance_selected p target s frame now ≡ ok next
    → next.seen ≡ s.seen
unfolding advance_selected
seen-advance_selected p target s next frame now e =
    let (current, found, e₁) = >>=-eq-ok (or_raise s.selected _) _ e in
    let (names, e₂) = guard-eq-ok (eq_str (contract_of frame.body) target) _ _ e₁ in
    let (fits, e₃) = guard-eq-ok (not (ltb_ℤ now current.time)) _ _ e₂ in
    let (c, applied, e₄) = >>=-eq-ok (apply p current.contract frame now) _ e₃ in
    sym (ap (λ (n : Progress). n.seen) (ok-injective e₄))

seen-accept_offer :
    (p : Platform) (target : Str) (s next : Progress) (frame : Frame) (now : ℤ) (ref contract : Str)
    → accept_offer p target s frame now ref contract ≡ ok next
    → next.seen ≡ s.seen
unfolding accept_offer
seen-accept_offer p target s next frame now ref contract e =
    let (listed, found, e₁) = >>=-eq-ok (or_raise (find ref s.offers) _) _ e in
    let (fits, e₂) = guard-eq-ok (not listed.bound && not (ltb_ℤ now listed.offered_time)) _ _ e₁ in
    let (c, applied, e₃) = >>=-eq-ok (apply p (new listed.offer) frame now) _ e₂ in
    sym (ap (λ (n : Progress). n.seen) (ok-injective e₃))

seen-audit_body :
    (p : Platform) (target : Str) (s next : Progress) (frame : Frame) (now : ℤ) (body : Body)
    → audit_body p target s frame now body ≡ ok next
    → next.seen ≡ s.seen
unfolding audit_body
seen-audit_body p target s next frame now (Body.offer o) e =
    unfold list_offer in sym (ap (λ (n : Progress). n.seen) (ok-injective e))
seen-audit_body p target s next frame now (Body.accept ref statement contract nonce) e =
    seen-accept_offer p target s next frame now ref contract e
seen-audit_body p target s next frame now _ e = seen-advance_selected p target s next frame now e

seen-count_frame : (source : Source) (s : Progress) → (count_frame source s).seen ≡ s.seen
unfolding count_frame
seen-count_frame board s = refl
seen-count_frame deal s = refl

audit_frame-seen :
    (p : Platform) (target : Str) (source : Source) (s next : Progress) (fields : Fields)
    (text : Str) (frame : Option Frame)
    → audit_frame p target source s fields text frame ≡ ok next
    → (¬ In text s.seen) × (text ∷ s.seen ≡ next.seen)
audit_frame-seen p target source s next fields text none e = unfold audit_frame in cc
audit_frame-seen p target source s next fields text (some frame) e =
    unfold audit_frame in
    let (same, e₁) = guard-eq-ok (is_str (value_at "from" fields) frame.sender) _ _ e in
    let (routed, e₂) = guard-eq-ok (belongs source frame.body) _ _ e₁ in
    let (fresh, e₃) = guard-eq-ok (not (mem_str text s.seen)) _ _ e₂ in
    let (now, timed, e₄) = >>=-eq-ok (parse_time p (get "ts" fields)) _ e₃ in
    let (mid, entered, e₅) =
      >>=-eq-ok (audit_body p target (record s { seen = text ∷ s.seen }) frame now frame.body) _
        e₄ in
    (
      λ i. cc (fresh, (mem_str_iff text s.seen).1 i),
      sym (
          ap (λ (n : Progress). n.seen) (sym (ok-injective e₅))
          ∙ seen-count_frame source mid
          ∙ seen-audit_body p target (record s { seen = text ∷ s.seen }) mid frame now frame.body
              entered),
    )

-- One record: a frame adds its text, any other record adds nothing.
audit_record-Adds :
    (p : Platform) (target : Str) (source : Source) (s next : Progress) (r : Fields)
    (rs : List Fields) (after : List Str)
    → audit_record p target source s r ≡ ok next
    → Adds next.seen (frame_texts rs) after
    → Adds s.seen (frame_texts (r ∷ rs)) after
unfolding audit_record
audit_record-Adds p target source s next r rs after one rest = elim (Bool-cases (is_protocol r)) [
  | inr off ↦
      let t : next ≡ s = cc (rw off at one) in
      rw off (subst (λ (n : Progress). Adds n.seen (frame_texts rs) after) t rest)
  | inl on ↦
      let (frame, decoded, one₁) = >>=-eq-ok (decode_line p (value_at "text" r)) _ (rw on at one) in
      let (fresh, kept) =
        audit_frame-seen p target source s next r (text_or_empty (value_at "text" r)) frame one₁ in
      rw on (fresh, subst (λ m. Adds m (frame_texts rs) after) (sym kept) rest)
]

-- The texts of the frames are new, and are kept as seen.
pub audit_records-Adds :
    (p : Platform) (target : Str) (source : Source) (s last : Progress) (rs : List Fields)
    → audit_records p target source s rs ≡ ok last
    → Adds s.seen (frame_texts rs) last.seen
unfolding audit_records
audit_records-Adds p target source s last [] e = ap (λ (n : Progress). n.seen) (ok-injective e)
audit_records-Adds p target source s last (r ∷ rs) e =
    let (next, one, more) = >>=-eq-ok (audit_record p target source s r) _ e in
    audit_record-Adds p target source s next r rs last.seen one
      (audit_records-Adds p target source next last rs more)
