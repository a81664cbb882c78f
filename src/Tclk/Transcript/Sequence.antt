-- ===== src/Tclk/Transcript/Sequence.antt =====
-- The sequence numbers, signatures and counters of the messages that the loop accepts.
use flop_contributions.Prelude.{
  ℕ, suc, ◌+◌, ◌≤◌, ◌<◌, ◌≡◌, ◌≢◌, ◌⊎◌, Option, none, some, List, [], ◌∷◌, arith, length, All,
}
use flop_contributions.Outcome.{ok}
use flop_contributions.Text.{Str}
use flop_contributions.Json.{Value, obj, Fields}
use flop_contributions.Platform.{Platform}
use flop_contributions.Tclk.Frame.{Frame}
use flop_contributions.Tclk.Transport.{verify_transport}
use flop_contributions.Tclk.Transcript.{
  State, value_at, bounded, check_sequence, text_or_empty, enter_line, process_all,
}
use flop_contributions.Tclk.Transcript.Loop.{
  Accepts, process_all-eq-ok, enter_line-Counts, enter_line-previous_seq,
}

abbrev pub seq_of : Value → Option ℕ
seq_of (obj message) = bounded (value_at "seq" message)
seq_of _ = none

-- Messages numbered one after another from `previous + 1` to `last`.
abbrev pub Follows : ℕ → ℕ → List Value → Type 0
Follows previous last [] = previous ≡ last
Follows previous last (v ∷ vs) = (seq_of v ≡ some (previous + 1)) × Follows (previous + 1) last vs

-- A batch behind the cursor `starting`: it has no gap inside, and none in front of it unless the
-- cursor is 0.
abbrev pub Covers : ℕ → ℕ → List Value → Type 0
Covers starting last [] = starting ≡ last
Covers starting last (v ∷ vs) =
    (n : ℕ) × (seq_of v ≡ some n)
    × (starting < n)
    × (starting ≢ 0 → n ≡ starting + 1)
    × Follows n last vs

-- The message is an object whose retained signature verifies for the room.
abbrev pub IsSigned : Platform → Str → Value → Type 0
IsSigned p room (obj message) = verify_transport p room message ≡ ok tt
IsSigned p room _ = ⊥

check_sequence-eq-ok :
    (starting proposed index previous : ℕ) (v : Value) (n : ℕ)
    → check_sequence starting proposed index previous v ≡ ok n
    → (bounded v ≡ some n)
      × (previous < n)
      × (n ≤ proposed)
      × (((index ≡ 0) × (starting ≡ 0)) ⊎ (n ≡ previous + 1))
unfolding check_sequence
check_sequence-eq-ok starting proposed index previous v n h = ground arith

counted_once :
    (p : Platform) (message : Fields) (s : State) (text : Str) (frame : Option Frame) (next : State)
    → enter_line p message s text frame ≡ ok next
    → next.accepted + next.ignored ≡ s.accepted + s.ignored + 1
counted_once p message s text none next h =
    omega (arith, enter_line-Counts p message s text none next h)
counted_once p message s text (some frame) next h =
    omega (arith, enter_line-Counts p message s text (some frame) next h)

module _ (p : Platform) (room : Str) (starting proposed : ℕ) where
  accepted_seq :
      (index : ℕ) (s : State) (v : Value) (next : State)
      → Accepts p room starting proposed index s v next
      → (seq_of v ≡ some next.previous_seq)
        × (s.previous_seq < next.previous_seq)
        × (next.previous_seq ≤ proposed)
        × (((index ≡ 0) × (starting ≡ 0)) ⊎ (next.previous_seq ≡ s.previous_seq + 1))
  accepted_seq index s v next a =
      let same =
        enter_line-previous_seq p a.message (record s { previous_seq = a.seq })
          (text_or_empty (value_at "text" a.message)) a.frame next a.entered in
      let checked =
        check_sequence-eq-ok starting proposed index s.previous_seq (value_at "seq" a.message) a.seq
          a.in_sequence in
      rw a.is_object (ground (arith, same, checked))

  accepted-IsSigned :
      (index : ℕ) (s : State) (v : Value) (next : State)
      → Accepts p room starting proposed index s v next
      → IsSigned p room v
  accepted-IsSigned index s v next a = rw a.is_object a.signed

  process_all-Follows :
      (index : ℕ) (s : State) (vs : List Value) (last : State)
      → process_all p room starting proposed (suc index) s vs ≡ ok last
      → Follows s.previous_seq last.previous_seq vs
  process_all-Follows index s [] last h = unfold process_all in ground arith
  process_all-Follows index s (v ∷ vs) last h =
      let (next, a, rest) = process_all-eq-ok p room starting proposed (suc index) s v vs last h in
      let seq = accepted_seq (suc index) s v next a in
      let ih = process_all-Follows (suc index) next vs last rest in ground (arith, seq, ih)

  -- An accepted batch is gapless, and its last number is that of the last state.
  pub process_all-Covers :
      (s : State) (vs : List Value) (last : State)
      → s.previous_seq ≡ starting
      → process_all p room starting proposed 0 s vs ≡ ok last
      → Covers starting last.previous_seq vs
  process_all-Covers s [] last e h = unfold process_all in ground arith
  process_all-Covers s (v ∷ vs) last e h =
      let (next, a, rest) = process_all-eq-ok p room starting proposed 0 s v vs last h in
      let seq = accepted_seq 0 s v next a in
      (
        next.previous_seq,
        seq.0,
        omega (arith, seq.1),
        λ n. ground (arith, seq.3),
        process_all-Follows 0 next vs last rest,
      )

  -- Every message of an accepted batch is signed for the room.
  pub process_all-IsSigned :
      (index : ℕ) (s : State) (vs : List Value) (last : State)
      → process_all p room starting proposed index s vs ≡ ok last
      → All (IsSigned p room) vs
  process_all-IsSigned index s [] last h = tt
  process_all-IsSigned index s (v ∷ vs) last h =
      let (next, a, rest) = process_all-eq-ok p room starting proposed index s v vs last h in
      (accepted-IsSigned index s v next a, process_all-IsSigned (suc index) next vs last rest)

  -- Every message is counted once, as a frame or as a line that is none.
  pub process_all-counts :
      (index : ℕ) (s : State) (vs : List Value) (last : State)
      → process_all p room starting proposed index s vs ≡ ok last
      → last.accepted + last.ignored ≡ s.accepted + s.ignored + length vs
  process_all-counts index s [] last h = unfold process_all in ground arith
  process_all-counts index s (v ∷ vs) last h =
      let (next, a, rest) = process_all-eq-ok p room starting proposed index s v vs last h in
      let ih = process_all-counts (suc index) next vs last rest in
      let one =
        counted_once p a.message (record s { previous_seq = a.seq })
          (text_or_empty (value_at "text" a.message)) a.frame next a.entered in
      omega (arith, ih, one)
