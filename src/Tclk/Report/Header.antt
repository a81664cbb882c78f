-- ===== src/Tclk/Report/Header.antt =====
-- What the header of an accepted batch says of its payload.
use flop_contributions.Prelude.{
  ℕ, ◌≤◌, ◌≡◌, refl, ap, sym, ◌∙◌, ==_iff, ℤ, true, ◌&&◌, some, List, [], ◌∷◌, length, arith, ◌==◌,
  leb,
}
use mathlib.Core.Path.{subst}
use flop_contributions.Outcome.{ok-injective, some-or_raise, ok, or_raise, >>=-eq-ok, guard-eq-ok}
use flop_contributions.Text.{codes}
use flop_contributions.Json.{Value, null, int, obj, Fields, has_exactly, is_str, is_int}
use flop_contributions.Tclk.Transcript.{batch_keys, value_at, bounded}
use flop_contributions.Tclk.Report.{Batch, list_of, check_first, read_header}

abbrev pub FirstAgrees : Value → List Value → ℕ → ℕ → Type 0
FirstAgrees first [] starting proposed = (first ≡ null) × (starting ≡ proposed)
FirstAgrees first (v ∷ vs) starting proposed =
    (n : ℤ) × (message : Fields) × (first ≡ int n)
    × (v ≡ obj message)
    × (is_int (value_at "seq" message) n ≡ true)

-- The batch holds the members of the payload, and they fit together.
pub record IsHeader (payload : Fields) (b : Batch) : Type 0 where
  pub keys : has_exactly payload batch_keys ≡ true
  pub status : is_str (value_at "status" payload) (codes "ok") ≡ true
  pub generation : bounded (value_at "generation" payload) ≡ some b.generation
  pub starting : bounded (value_at "starting_cursor" payload) ≡ some b.starting
  pub proposed : bounded (value_at "proposed_cursor" payload) ≡ some b.proposed
  pub last_seq : bounded (value_at "last_seq" payload) ≡ some b.proposed
  pub count : bounded (value_at "count" payload) ≡ some b.count
  pub messages : list_of (value_at "messages" payload) ≡ some b.messages
  pub first_seq : value_at "first_seq" payload ≡ b.first_seq
  pub cursor : b.last_seq ≡ b.proposed
  pub counted : b.count ≡ length b.messages
  pub ordered : b.starting ≤ b.proposed
  pub first : FirstAgrees (value_at "first_seq" payload) b.messages b.starting b.proposed

check_first-FirstAgrees :
    (first : Value) (vs : List Value) (starting proposed : ℕ)
    → check_first first vs starting proposed ≡ ok tt
    → FirstAgrees first vs starting proposed
unfolding check_first
check_first-FirstAgrees null [] starting proposed h = ground arith
check_first-FirstAgrees first [] starting proposed h = cc
check_first-FirstAgrees (int n) (obj message ∷ vs) starting proposed h =
    (n, message, refl, refl, ground arith)
check_first-FirstAgrees (int n) (v ∷ vs) starting proposed h = cc
check_first-FirstAgrees first (v ∷ vs) starting proposed h = cc

cursors_fit :
    (proposed last starting : ℕ)
    → (proposed == last && leb starting proposed) ≡ true
    → (proposed ≡ last) × (starting ≤ proposed)
cursors_fit proposed last starting h = ground arith

pub read_header-IsHeader :
    (payload : Fields) (b : Batch) → read_header (obj payload) ≡ ok b → IsHeader payload b
unfolding read_header
read_header-IsHeader payload b h =
    let (keyed, h₁) = guard-eq-ok (has_exactly payload batch_keys) _ _ h in
    let (status, h₂) = guard-eq-ok (is_str (value_at "status" payload) (codes "ok")) _ _ h₁ in
    let (generation, e₁, h₃) =
      >>=-eq-ok (or_raise (bounded (value_at "generation" payload)) _) _ h₂ in
    let (starting, e₂, h₄) =
      >>=-eq-ok (or_raise (bounded (value_at "starting_cursor" payload)) _) _ h₃ in
    let (proposed, e₃, h₅) =
      >>=-eq-ok (or_raise (bounded (value_at "proposed_cursor" payload)) _) _ h₄ in
    let (count, e₄, h₆) = >>=-eq-ok (or_raise (bounded (value_at "count" payload)) _) _ h₅ in
    let (last, e₅, h₇) = >>=-eq-ok (or_raise (bounded (value_at "last_seq" payload)) _) _ h₆ in
    let (messages, e₆, h₈) = >>=-eq-ok (or_raise (list_of (value_at "messages" payload)) _) _ h₇ in
    let (counted, h₉) = guard-eq-ok (count == length messages) _ _ h₈ in
    let (cursors, k) = guard-eq-ok (proposed == last && leb starting proposed) _ _ h₉ in
    let (u, first, done) =
      >>=-eq-ok (check_first (value_at "first_seq" payload) messages starting proposed) _ k in
    let (same, below) = cursors_fit proposed last starting cursors in
    subst (IsHeader payload) (ok-injective done) (record {
      keys = keyed;
      status = status;
      generation = some-or_raise _ _ e₁;
      starting = some-or_raise _ _ e₂;
      proposed = some-or_raise _ _ e₃;
      last_seq = some-or_raise _ _ e₅ ∙ ap some (sym same);
      count = some-or_raise _ _ e₄;
      messages = some-or_raise _ _ e₆;
      first_seq = refl;
      cursor = sym same;
      counted = (==_iff count (length messages)).0 counted;
      ordered = below;
      first =
          check_first-FirstAgrees (value_at "first_seq" payload) messages starting proposed first;
    })
