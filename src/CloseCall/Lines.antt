-- ===== src/CloseCall/Lines.antt =====
-- The lines that `verify_exports` accepts of a room, from one referee.
use mathlib.Core.Path.{subst}
use mathlib.Core.List.{append_assoc, append-nil}
use flop_contributions.Prelude.{
  suc, ◌+◌, ◌≡◌, ◌⊎◌, refl, sym, ap, ◌∙◌, inl, inr, Bool, true, false, Option, none, some, List, [],
  ◌∷◌, ◌++◌, arith, length, ◌==◌, ==_iff, length-append,
}
use flop_contributions.Outcome.{ok, >>=-eq-ok, guard, guard-eq-ok, ok-injective}
use flop_contributions.Text.{Str, Bytes, mem_str}
use flop_contributions.Text.Laws.{eq_str→≡}
use flop_contributions.Json.{Value, str, obj, Fields}
use flop_contributions.Platform.{Platform}
use flop_contributions.Table.{find}
use flop_contributions.CloseCall.Rooms.{room_types}
use flop_contributions.Tclk.Transcript.{value_at}
use flop_contributions.CloseCall.Envelope.{Sealed, load_json, object_of, verify_envelope}
use flop_contributions.CloseCall.Exports.{
  Progress, Reviewed, same_text, check_referee, type_in, types_of, read_message, none_left,
  read_messages,
}
use flop_contributions.CloseCall.Loop.{
  IsSignedLine, Rows, done, seed, final, sweep, Entered, enter_message-Entered, IsSeed,
}

same_text-≡ : (v w : Value) → same_text v w ≡ true → v ≡ w
same_text-≡ (str s) (str t) h = ap str (eq_str→≡ s t h)
same_text-≡ (str s) _ h = cc
same_text-≡ _ w h = cc

check_referee-≡ :
    (o : Option Value) (sender r : Value) → check_referee o sender ≡ ok tt → o ≡ some r → sender ≡ r
unfolding check_referee
check_referee-≡ none sender r h e = cc
check_referee-≡ (some q) sender r h e = same_text-≡ sender q (passed (same_text sender q) h) ∙ cc e
  where
    passed : (b : Bool) → guard b "referee DID changed" ≡ ok tt → b ≡ true
    passed true h = refl
    passed false h = cc

object_of-ok : (v : Value) (fields : Fields) → object_of v ≡ ok fields → v ≡ obj fields
object_of-ok (obj gs) fields h = ap obj (ok-injective h)
object_of-ok _ fields h = cc

type_in-ok :
    (v : Value) (types : List Str) (t : Str)
    → type_in v types ≡ ok t
    → (v ≡ str t) × (mem_str t types ≡ true)
unfolding type_in
type_in-ok (str s) types t h = ground arith
type_in-ok _ types t h = cc

types_of-some :
    (kind : Str) (types : List Str) → types_of kind ≡ ok types → find kind room_types ≡ some types
types_of-some kind types h = ground arith

module _ (p : Platform) (reviewed : Reviewed) (kind room : Str) where
  -- What one line does to the variables.
  pub record IsStep (lines : List Bytes) (line : Bytes) (s next : Progress) : Type 0 where
    pub sealed : Sealed
    pub signed : IsSignedLine p room sealed.sender (suc s.previous_seq) line sealed
    pub told : next.referee ≡ some sealed.sender
    pub counted : next.previous_seq ≡ suc s.previous_seq
    pub same : (r : Value) → s.referee ≡ some r → sealed.sender ≡ r
    pub entered : Entered reviewed kind lines (suc s.previous_seq) sealed.message s next

  read_message-IsStep :
      (lines : List Bytes) (line : Bytes) (s next : Progress)
      → read_message p reviewed kind room (none_left lines) line s ≡ ok next
      → IsStep lines line s next
  unfolding read_message
  read_message-IsStep lines line s next h =
      let (value, loaded, h₁) = >>=-eq-ok (load_json p line) _ h in
      let (fields, shaped, h₂) = >>=-eq-ok (object_of value) _ h₁ in
      let (sealed, verified, h₃) = >>=-eq-ok (verify_envelope p room fields) _ h₂ in
      let (u, referee, h₄) = >>=-eq-ok (check_referee s.referee sealed.sender) _ h₃ in
      let (follows, h₅) = guard-eq-ok (sealed.seq == s.previous_seq + 1) _ _ h₄ in
      let (types, a, h₆) = >>=-eq-ok (types_of kind) _ h₅ in
      let (message_type, b, h₇) = >>=-eq-ok (type_in (value_at "t" sealed.message) types) _ h₆ in
      let typed = type_in-ok (value_at "t" sealed.message) types message_type b in
      let (keeps, entered) =
        enter_message-Entered reviewed kind lines sealed.seq sealed.message
          (record s { referee = some sealed.sender; previous_seq = sealed.seq }) next message_type
          typed.0 (types, types_of-some kind types a, typed.1) h₇ in
      let number : sealed.seq ≡ suc s.previous_seq =
        (==_iff sealed.seq (s.previous_seq + 1)).0 follows ∙ omega arith in
      record {
        sealed = sealed;
        signed = record {
          fields = fields;
          loaded = loaded ∙ ap ok (object_of-ok value fields shaped);
          verified = verified;
          sender = refl;
          numbered = number;
        };
        told = keeps.0;
        counted = keeps.1 ∙ number;
        same = λ r e. check_referee-≡ s.referee sealed.sender r referee e;
        entered = subst (λ k. Entered reviewed kind lines k sealed.message s next) number entered;
      }

  -- The referee of the first record stays that of the room.
  pub read_messages-referee :
      (lines : List Bytes) (s last : Progress) (r : Value)
      → read_messages p reviewed kind room lines s ≡ ok last
      → s.referee ≡ some r
      → last.referee ≡ some r
  unfolding read_messages
  read_messages-referee [] s last r h e =
      ap (λ (o : Progress). o.referee) (sym (ok-injective h)) ∙ e
  read_messages-referee (line ∷ lines) s last r h e =
      let (next, one, h₁) =
        >>=-eq-ok (read_message p reviewed kind room (none_left lines) line s) _ h in
      let step = read_message-IsStep lines line s next one in
      read_messages-referee lines next last r h₁ (step.told ∙ ap some (step.same r e))

  -- A room with a record has a referee.
  pub first_referee :
      (lines : List Bytes) (line : Bytes) (s last : Progress)
      → read_messages p reviewed kind room (line ∷ lines) s ≡ ok last
      → (r : Value) × (last.referee ≡ some r)
  unfolding read_messages
  first_referee lines line s last h =
      let (next, one, h₁) =
        >>=-eq-ok (read_message p reviewed kind room (none_left lines) line s) _ h in
      let step = read_message-IsStep lines line s next one in
      (step.sealed.sender, read_messages-referee lines next last step.sealed.sender h₁ step.told)

  -- One of the lines is a signed launch seed.
  abbrev pub HasSeed : List Bytes → Type 0
  HasSeed [] = ⊥
  HasSeed (line ∷ lines) =
      ((sealed : Sealed) × IsSignedLine p room sealed.sender 1 line sealed
        × IsSeed reviewed kind 1 sealed.message)
      ⊎ HasSeed lines

  -- The seed is noted only at a launch seed.
  pub read_messages-HasSeed :
      (lines : List Bytes) (s last : Progress)
      → read_messages p reviewed kind room lines s ≡ ok last
      → last.seeded ≡ true
      → (s.seeded ≡ true) ⊎ HasSeed lines
  unfolding read_messages
  read_messages-HasSeed [] s last h e = inl (ap (λ (o : Progress). o.seeded) (ok-injective h) ∙ e)
  read_messages-HasSeed (line ∷ lines) s last h e =
      let (next, one, h₁) =
        >>=-eq-ok (read_message p reviewed kind room (none_left lines) line s) _ h in
      let step = read_message-IsStep lines line s next one in
      elim (read_messages-HasSeed lines next last h₁ e) [
        | inr later ↦ inr (inr later)
        | inl now ↦ elim step.entered [
          | inl (is_seed, kept) ↦
              let first = is_seed.1 in
              inr (
                inl (
                  step.sealed,
                  subst (λ k. IsSignedLine p room step.sealed.sender k line step.sealed) first
                      step.signed,
                  subst (λ k. IsSeed reviewed kind k step.sealed.message) first is_seed,
                ))
          | inr (inl (is_final, kept, unseeded)) ↦ inl (sym unseeded ∙ now)
          | inr (inr (hash, is_sweep, grown, unseeded)) ↦ inl (sym unseeded ∙ now)
        ]
      ]

  -- The records behind the variables `s`, the first of them read.
  add_row :
      (lines : List Bytes) (line : Bytes) (s next last : Progress) (r : Value) (hs : List Str)
      → (step : IsStep lines line s next) → step.sealed.sender ≡ r
      → Rows p reviewed kind room r (suc next.previous_seq) (length next.room_sweeps) lines hs
      → last.room_sweeps ≡ next.room_sweeps ++ hs
      → (gs : List Str) × Rows p reviewed kind room r
          (suc s.previous_seq)
          (length s.room_sweeps)
          (line ∷ lines)
          gs
        × (last.room_sweeps ≡ s.room_sweeps ++ gs)
  add_row lines line s next last r hs step same rows e = elim step.entered [
    | inl (is_seed, kept) ↦
        (hs, seed line step.sealed signed is_seed (moved kept), e ∙ ap (λ x. x ++ hs) kept)
    | inr (inl (is_final, kept, unseeded)) ↦
        (hs, final line step.sealed signed is_final (moved kept), e ∙ ap (λ x. x ++ hs) kept)
    | inr (inr (hash, is_sweep, grown, unseeded)) ↦ (
      hash ∷ hs,
      sweep line step.sealed hash signed is_sweep (
          subst (λ k. Rows p reviewed kind room r (suc (suc s.previous_seq)) k lines hs)
            (longer hash grown) numbered),
      e ∙ ap (λ x. x ++ hs) grown ∙ append_assoc s.room_sweeps (hash ∷ []) hs,
    )
  ]
    where
      signed : IsSignedLine p room r (suc s.previous_seq) line step.sealed
      signed =
          subst (λ q. IsSignedLine p room q (suc s.previous_seq) line step.sealed) same step.signed

      numbered :
          Rows p reviewed kind room r (suc (suc s.previous_seq)) (length next.room_sweeps) lines hs
      numbered =
          subst (λ k. Rows p reviewed kind room r (suc k) (length next.room_sweeps) lines hs)
            step.counted rows

      moved :
          next.room_sweeps ≡ s.room_sweeps
          → Rows p reviewed kind room r (suc (suc s.previous_seq)) (length s.room_sweeps) lines hs
      moved kept =
          subst (λ k. Rows p reviewed kind room r (suc (suc s.previous_seq)) (length k) lines hs)
            kept numbered

      longer :
          (hash : Str)
          → next.room_sweeps ≡ s.room_sweeps ++ hash ∷ []
          → length next.room_sweeps ≡ suc (length s.room_sweeps)
      longer hash grown = ap length grown ∙ length-append s.room_sweeps (hash ∷ []) ∙ omega arith

  pub read_messages-Rows :
      (lines : List Bytes) (s last : Progress) (r : Value)
      → read_messages p reviewed kind room lines s ≡ ok last
      → last.referee ≡ some r
      → (hs : List Str) × Rows p reviewed kind room r
          (suc s.previous_seq)
          (length s.room_sweeps)
          lines
          hs
        × (last.room_sweeps ≡ s.room_sweeps ++ hs)
  unfolding read_messages
  read_messages-Rows [] s last r h e = (
    [],
    done,
    ap (λ (o : Progress). o.room_sweeps) (sym (ok-injective h)) ∙ sym (append-nil s.room_sweeps),
  )
  read_messages-Rows (line ∷ lines) s last r h e =
      let (next, one, h₁) =
        >>=-eq-ok (read_message p reviewed kind room (none_left lines) line s) _ h in
      let step = read_message-IsStep lines line s next one in
      let (hs, rows, grown) = read_messages-Rows lines next last r h₁ e in
      let kept : last.referee ≡ some step.sealed.sender =
        read_messages-referee lines next last step.sealed.sender h₁ step.told in
      let same : step.sealed.sender ≡ r = cc (sym kept ∙ e) in
      add_row lines line s next last r hs step same rows grown
