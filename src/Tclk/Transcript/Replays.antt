-- ===== src/Tclk/Transcript/Replays.antt =====
-- No tclk line stands twice in an accepted batch.
use flop_contributions.Prelude.{
  ℕ, suc, ◌≡◌, inl, inr, sym, Bool, true, false, Option, none, some, List, [], ◌∷◌, All,
  if◌then◌else◌,
}
use mathlib.Core.Path.{subst}
use flop_contributions.Outcome.{ok}
use flop_contributions.Text.{Str, starts_with}
use flop_contributions.Text.Membership.{In, Distinct, mem_str_iff}
use flop_contributions.Json.{Value, str, obj}
use flop_contributions.Platform.{Platform}
use flop_contributions.Tclk.Patterns.{prefix}
use flop_contributions.Tclk.Frame.{Frame}
use flop_contributions.Tclk.Validate.{decode_line}
use flop_contributions.Tclk.Validate.Lines.{decode_line-some, decode_line-none}
use flop_contributions.Tclk.Transcript.{State, value_at, text_or_empty, process_all}
use flop_contributions.Tclk.Transcript.Loop.{Accepts, Counts, process_all-eq-ok, enter_line-Counts}

-- The text of a message.
abbrev pub text_of_message : Value → Str
text_of_message (obj message) = text_or_empty (value_at "text" message)
text_of_message _ = []

-- The texts that carry the tclk prefix, in the order of the messages.
abbrev pub tclk_lines : List Value → List Str
tclk_lines [] = []
tclk_lines (v ∷ vs) =
    if starts_with prefix (text_of_message v)
    then text_of_message v ∷ tclk_lines vs
    else tclk_lines vs

-- What the loop does with a line that carries the prefix, and with one that does not.
abbrev Lines : State → Str → State → Bool → Type 0
Lines s text next true = (¬ In text s.seen_lines) × (next.seen_lines ≡ text ∷ s.seen_lines)
Lines s text next false = next.seen_lines ≡ s.seen_lines

decoded-Lines :
    (p : Platform) (s next : State) (v : Value) (frame : Option Frame)
    → decode_line p v ≡ ok frame
    → Counts s (text_or_empty v) frame next
    → Lines s (text_or_empty v) next (starts_with prefix (text_or_empty v))
decoded-Lines p s next (str text) none d c = rw (decode_line-none p text d) c.1
decoded-Lines p s next (str text) (some frame) d c =
    rw (decode_line-some p text frame d).marked
      (λ i. cc (c.0, (mem_str_iff text s.seen_lines).1 i), c.2)
decoded-Lines p s next _ frame d c = unfold decode_line in cc

accepted-Lines :
    (p : Platform) (room : Str) (starting proposed index : ℕ) (s : State) (v : Value) (next : State)
    → Accepts p room starting proposed index s v next
    → Lines s (text_of_message v) next (starts_with prefix (text_of_message v))
accepted-Lines p room starting proposed index s v next a = rw a.is_object (
    decoded-Lines p (record s { previous_seq = a.seq }) next (value_at "text" a.message) a.frame
      a.decoded
      (enter_line-Counts p a.message (record s { previous_seq = a.seq })
        (text_or_empty (value_at "text" a.message)) a.frame next a.entered))

-- Texts none of which is in a list that begins with `x`.
pub fresh-head :
    (x : Str) (seen lines : List Str) → All (λ l. ¬ In l (x ∷ seen)) lines → ¬ In x lines
fresh-head x seen [] h m = m
fresh-head x seen (l ∷ lines) h (inl e) = h.0 (inl (sym e))
fresh-head x seen (l ∷ lines) h (inr m) = fresh-head x seen lines h.1 m

pub fresh-tail :
    (x : Str) (seen lines : List Str)
    → All (λ l. ¬ In l (x ∷ seen)) lines
    → All (λ l. ¬ In l seen) lines
fresh-tail x seen [] h = tt
fresh-tail x seen (l ∷ lines) h = (λ m. h.0 (inr m), fresh-tail x seen lines h.1)

add_line :
    (s next : State) (text : Str) (vs : List Str) (marked : Bool)
    → Lines s text next marked
    → Distinct vs × All (λ l. ¬ In l next.seen_lines) vs
    → Distinct (if marked then text ∷ vs else vs)
      × All (λ l. ¬ In l s.seen_lines) (if marked then text ∷ vs else vs)
add_line s next text vs false l h = (h.0, subst (λ seen. All (λ l. ¬ In l seen) vs) l h.1)
add_line s next text vs true l h =
    let fresh : All (λ k. ¬ In k (text ∷ s.seen_lines)) vs =
      subst (λ seen. All (λ k. ¬ In k seen) vs) l.1 h.1 in
    ((fresh-head text s.seen_lines vs fresh, h.0), (l.0, fresh-tail text s.seen_lines vs fresh))

-- The tclk lines of the messages that are still to come differ from each other and from all that
-- were seen.
pub process_all-Distinct :
    (p : Platform) (room : Str) (starting proposed index : ℕ) (s : State) (vs : List Value)
    (last : State)
    → process_all p room starting proposed index s vs ≡ ok last
    → Distinct (tclk_lines vs) × All (λ l. ¬ In l s.seen_lines) (tclk_lines vs)
process_all-Distinct p room starting proposed index s [] last h = (tt, tt)
process_all-Distinct p room starting proposed index s (v ∷ vs) last h =
    let (next, a, rest) = process_all-eq-ok p room starting proposed index s v vs last h in
    add_line s next (text_of_message v) (tclk_lines vs) (starts_with prefix (text_of_message v))
      (accepted-Lines p room starting proposed index s v next a)
      (process_all-Distinct p room starting proposed (suc index) next vs last rest)
