-- ===== src/Tclk/Transcript/Loop.antt =====
-- The loop of `validate_transcript`: what one accepted message has passed, the sequence numbers
-- of an accepted batch, its signatures and its counters.
use flop_contributions.Prelude.{
  ℕ, suc, ◌+◌, ℤ, ◌≡◌, refl, true, false, Option, none, some, List, ◌∷◌, arith, not,
}
use flop_contributions.Outcome.{ok, >>=-eq-ok, guard-eq-ok}
use flop_contributions.Text.{Str, mem_str}
use flop_contributions.Json.{Value, null, obj, Fields, get, has_exactly}
use flop_contributions.Platform.{Platform}
use flop_contributions.Tclk.Frame.{Frame, Body}
use flop_contributions.Tclk.Validate.{decode_line}
use flop_contributions.Tclk.Transport.{verify_transport, parse_time}
use flop_contributions.Tclk.Transcript.{
  State, message_keys, value_at, check_sequence, enter, enter_body, same_sender, enter_line,
  text_or_empty, process, process_all,
}

-- What the body of the loop has found where it goes on with `next`.
pub record Accepts (p : Platform) (room : Str) (starting proposed index : ℕ) (s : State) (v : Value)
    (next : State) : Type 0 where
  pub message : Fields
  pub is_object : v ≡ obj message
  pub has_keys : has_exactly message message_keys ≡ true
  pub seq : ℕ
  pub in_sequence :
      check_sequence starting proposed index s.previous_seq (value_at "seq" message) ≡ ok seq
  pub signed : verify_transport p room message ≡ ok tt
  pub frame : Option Frame
  pub decoded : decode_line p (value_at "text" message) ≡ ok frame
  pub entered :
      enter_line p message
        (record s { previous_seq = seq })
        (text_or_empty (value_at "text" message))
        frame
      ≡ ok next

module _ (p : Platform) (room : Str) (starting proposed : ℕ) where
  pub process-eq-ok :
      (index : ℕ) (s : State) (v : Value) (next : State)
      → process p room starting proposed index s v ≡ ok next
      → Accepts p room starting proposed index s v next
  unfolding process
  process-eq-ok index s (obj m) next h =
      let (keyed, h₁) = guard-eq-ok (has_exactly m message_keys) _ _ h in
      let (n, checked, h₂) =
        >>=-eq-ok (check_sequence starting proposed index s.previous_seq (value_at "seq" m)) _ h₁ in
      let (u, sig, h₃) = >>=-eq-ok (verify_transport p room m) _ h₂ in
      let (frame, dec, h₄) = >>=-eq-ok (decode_line p (value_at "text" m)) _ h₃ in
      record {
        message = m;
        is_object = refl;
        has_keys = keyed;
        seq = n;
        in_sequence = checked;
        signed = sig;
        frame = frame;
        decoded = dec;
        entered = h₄;
      }
  process-eq-ok index s null next h = cc
  process-eq-ok index s _ next h = cc

  pub process_all-eq-ok :
      (index : ℕ) (s : State) (v : Value) (vs : List Value) (last : State)
      → process_all p room starting proposed index s (v ∷ vs) ≡ ok last
      → (next : State) × Accepts p room starting proposed index s v next
        × (process_all p room starting proposed (suc index) next vs ≡ ok last)
  unfolding process_all
  process_all-eq-ok index s v vs last h =
      let (next, one, more) = >>=-eq-ok (process p room starting proposed index s v) _ h in
      (next, process-eq-ok index s v next one, more)

-- The lookups and updates of the contracts leave the other variables alone.
abbrev SameCounters : State → State → Type 0
SameCounters s t =
    (t.previous_seq ≡ s.previous_seq)
    × (t.seen_lines ≡ s.seen_lines)
    × (t.ignored ≡ s.ignored)
    × (t.accepted ≡ s.accepted)

enter_body-SameCounters :
    (p : Platform) (s : State) (frame : Frame) (now : ℤ) (body : Body) (next : State)
    → enter_body p s frame now body ≡ ok next
    → SameCounters s next
unfolding enter_body
enter_body-SameCounters p s frame now (Body.offer o) next h = ground arith
enter_body-SameCounters p s frame now _ next h = ground arith

-- What the loop has found where a decoded frame leads to `next`.
pub record Enters (p : Platform) (message : Fields) (s : State) (text : Str) (frame : Frame)
    (next : State) : Type 0 where
  pub fresh : mem_str text s.seen_lines ≡ false
  pub sender : same_sender (get "from" message) frame.sender ≡ true
  pub now : ℤ
  pub time : parse_time p (get "ts" message) ≡ ok now
  pub mid : State
  pub entered : enter p (record s { seen_lines = text ∷ s.seen_lines }) frame now ≡ ok mid
  pub counted : next ≡ record mid { accepted = mid.accepted + 1 }

pub enter_line-eq-ok :
    (p : Platform) (message : Fields) (s : State) (text : Str) (frame : Frame) (next : State)
    → enter_line p message s text (some frame) ≡ ok next
    → Enters p message s text frame next
unfolding enter_line
enter_line-eq-ok p message s text frame next h =
    let (new, h₁) = guard-eq-ok (not (mem_str text s.seen_lines)) _ _ h in
    let (same, h₂) = guard-eq-ok (same_sender (get "from" message) frame.sender) _ _ h₁ in
    let (now, timed, h₃) = >>=-eq-ok (parse_time p (get "ts" message)) _ h₂ in
    let (mid, inner, h₄) =
      >>=-eq-ok (enter p (record s { seen_lines = text ∷ s.seen_lines }) frame now) _ h₃ in
    record {
      fresh = ground arith;
      sender = same;
      now = now;
      time = timed;
      mid = mid;
      entered = inner;
      counted = ground arith;
    }

-- A line that is no frame is counted as ignored; a frame is new, is recorded, and is counted.
abbrev pub Counts : State → Str → Option Frame → State → Type 0
Counts s text none next =
    (next.previous_seq ≡ s.previous_seq)
    × (next.seen_lines ≡ s.seen_lines)
    × (next.ignored ≡ s.ignored + 1)
    × (next.accepted ≡ s.accepted)
Counts s text (some frame) next =
    (mem_str text s.seen_lines ≡ false)
    × (next.previous_seq ≡ s.previous_seq)
    × (next.seen_lines ≡ text ∷ s.seen_lines)
    × (next.ignored ≡ s.ignored)
    × (next.accepted ≡ s.accepted + 1)

pub enter_line-Counts :
    (p : Platform) (message : Fields) (s : State) (text : Str) (frame : Option Frame) (next : State)
    → enter_line p message s text frame ≡ ok next
    → Counts s text frame next
unfolding enter
enter_line-Counts p message s text none next h = unfold enter_line in ground arith
enter_line-Counts p message s text (some frame) next h =
    let e = enter_line-eq-ok p message s text frame next h in
    let c =
      enter_body-SameCounters p (record s { seen_lines = text ∷ s.seen_lines }) frame e.now
        frame.body e.mid e.entered in
    ground (arith, e.fresh, e.counted, c)

pub enter_line-previous_seq :
    (p : Platform) (message : Fields) (s : State) (text : Str) (frame : Option Frame) (next : State)
    → enter_line p message s text frame ≡ ok next
    → next.previous_seq ≡ s.previous_seq
enter_line-previous_seq p message s text none next h =
    (enter_line-Counts p message s text none next h).0
enter_line-previous_seq p message s text (some frame) next h =
    (enter_line-Counts p message s text (some frame) next h).1
