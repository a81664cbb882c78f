-- ===== src/Tclk/Transcript/Apart.antt =====
-- The loop holds one contract for each offer id.
use mathlib.Core.Path.{subst}
use flop_contributions.Prelude.{
  ℕ, suc, ℤ, ◌≡◌, inl, inr, ap, Option, none, some, List, [], ◌∷◌, arith, Option-cases,
}
use flop_contributions.Outcome.{ok, or_raise, >>=-eq-ok}
use flop_contributions.Text.{Str}
use flop_contributions.Json.{Value, Fields}
use flop_contributions.Table.{find, put}
use flop_contributions.Table.Keys.{Apart, put-Apart}
use flop_contributions.Platform.{Platform}
use flop_contributions.Tclk.Frame.{Body, Frame}
use flop_contributions.Tclk.Contract.{new, apply}
use flop_contributions.Tclk.Transcript.{
  State, enter_offer, enter_accept, enter_other, held, enter_body, enter, enter_line, process_all,
  contract_of, text_or_empty, value_at,
}
use flop_contributions.Tclk.Transcript.Loop.{process_all-eq-ok, enter_line-eq-ok}

-- No offer id stands twice in `contracts`.
enter_body-Apart :
    (p : Platform) (s next : State) (frame : Frame) (now : ℤ) (body : Body)
    → Apart s.contracts
    → enter_body p s frame now body ≡ ok next
    → Apart next.contracts
unfolding enter_body enter_offer enter_accept enter_other
enter_body-Apart p s next frame now (Body.offer o) h e =
    elim (Option-cases (find o.id s.contracts)) [
      | inl free ↦
          let t : put o.id (new o) s.contracts ≡ next.contracts = ground (arith, free) in
          subst Apart t (put-Apart o.id (new o) s.contracts h)
      | inr (c, old) ↦ ground (arith, old)
    ]
enter_body-Apart p s next frame now (Body.accept ref statement contract nonce) h e =
    let (c, found, e₁) = >>=-eq-ok (or_raise (find ref s.contracts) _) _ e in
    let (c', applied, e₂) = >>=-eq-ok (apply p c frame now) _ e₁ in
    let t : put ref c' s.contracts ≡ next.contracts = ground arith in
    subst Apart t (put-Apart ref c' s.contracts h)
enter_body-Apart p s next frame now _ h e =
    let (owner, known, e₁) =
      >>=-eq-ok (or_raise (find (contract_of frame.body) s.contract_by_id) _) _ e in
    let (c, found, e₂) = >>=-eq-ok (held owner s) _ e₁ in
    let (c', applied, e₃) = >>=-eq-ok (apply p c frame now) _ e₂ in
    let t : put owner c' s.contracts ≡ next.contracts = ground arith in
    subst Apart t (put-Apart owner c' s.contracts h)

enter_line-Apart :
    (p : Platform) (message : Fields) (s next : State) (text : Str) (frame : Option Frame)
    → Apart s.contracts
    → enter_line p message s text frame ≡ ok next
    → Apart next.contracts
enter_line-Apart p message s next text none h e =
    unfold enter_line in let t : next.contracts ≡ s.contracts = ground arith in rw t h
enter_line-Apart p message s next text (some frame) h e =
    let i = enter_line-eq-ok p message s text frame next e in
    let t : next.contracts ≡ i.mid.contracts = ap (λ (n : State). n.contracts) i.counted in
    rw t (
      enter_body-Apart p (record s { seen_lines = text ∷ s.seen_lines }) i.mid frame i.now
        frame.body h (unfold enter in i.entered))

pub process_all-Apart :
    (p : Platform) (room : Str) (starting proposed index : ℕ) (s : State) (vs : List Value)
    (last : State)
    → Apart s.contracts
    → process_all p room starting proposed index s vs ≡ ok last
    → Apart last.contracts
process_all-Apart p room starting proposed index s [] last h e =
    unfold process_all in let t : s ≡ last = cc in subst (λ (n : State). Apart n.contracts) t h
process_all-Apart p room starting proposed index s (v ∷ vs) last h e =
    let (next, a, rest) = process_all-eq-ok p room starting proposed index s v vs last e in
    process_all-Apart p room starting proposed (suc index) next vs last
      (enter_line-Apart p a.message (record s { previous_seq = a.seq }) next
        (text_or_empty (value_at "text" a.message)) a.frame h a.entered)
      rest
