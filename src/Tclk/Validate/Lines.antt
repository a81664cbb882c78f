-- ===== src/Tclk/Validate/Lines.antt =====
-- Which lines `decode_line` reads as frames, and that a decoded frame prints back to its line.
use flop_contributions.Prelude.{
  ◌≤◌, ◌≡◌, ap, sym, ◌∙◌, true, false, ◌&&◌, none, some, ◌++◌, length, drop, all, leb, arith,
  Bool-cases, inl, inr,
}
use flop_contributions.Outcome.{ok, >>=-eq-ok, guard-eq-ok}
use flop_contributions.Text.{Str, starts_with, eq_str}
use flop_contributions.Text.Laws.{eq_str→≡, starts_with-append-drop}
use flop_contributions.Json.{Value, str, obj}
use flop_contributions.Platform.{Platform, loads}
use flop_contributions.Tclk.Patterns.{prefix, max_chars, is_printable}
use flop_contributions.Tclk.Frame.{Frame}
use flop_contributions.Tclk.Validate.{validate_frame, decode_line}

-- What a line that decodes to a frame is.
pub record IsFrameLine (p : Platform) (text : Str) (frame : Frame) : Type 0 where
  pub marked : starts_with prefix text ≡ true
  pub short : length text ≤ max_chars
  pub printable : all is_printable text ≡ true
  pub parsed : Value
  pub read : loads p (drop (length prefix) text) ≡ ok parsed
  pub valid : validate_frame p parsed ≡ ok frame
  pub canonical : text ≡ prefix ++ p.dumps (obj frame.fields)

-- A text that decodes to a frame carries the prefix, is within the limit and printable, its rest parses
-- and validates to the frame, and it is the prefix followed by the canonical print of the frame.
pub decode_line-some :
    (p : Platform) (text : Str) (frame : Frame)
    → decode_line p (str text) ≡ ok (some frame)
    → IsFrameLine p text frame
unfolding decode_line
decode_line-some p text frame h = elim (Bool-cases (starts_with prefix text)) [
  | inr off ↦ cc (rw off at h)
  | inl on ↦
      let (fits, h₁) =
        guard-eq-ok (leb (length text) max_chars && all is_printable text) _ _ (rw on at h) in
      let (v, read, h₂) = >>=-eq-ok (loads p (drop (length prefix) text)) _ h₁ in
      let (f, valid, h₃) = >>=-eq-ok (validate_frame p v) _ h₂ in
      let (same, h₄) =
        guard-eq-ok (eq_str (drop (length prefix) text) (p.dumps (obj f.fields))) _ _ h₃ in
      let e : f ≡ frame = cc in
      record {
        marked = on;
        short = ground arith;
        printable = ground arith;
        parsed = v;
        read = read;
        valid = rw valid (ap ok e);
        canonical =
            sym (starts_with-append-drop prefix text on)
            ∙ ap (λ (b : Str). prefix ++ b) (eq_str→≡ _ _ same)
            ∙ ap (λ (g : Frame). prefix ++ p.dumps (obj g.fields)) e;
      }
]

-- Only a text without the prefix is passed over.
pub decode_line-none :
    (p : Platform) (text : Str)
    → decode_line p (str text) ≡ ok none
    → starts_with prefix text ≡ false
unfolding decode_line
decode_line-none p text h = elim (Bool-cases (starts_with prefix text)) [
  | inr off ↦ off
  | inl on ↦
      let (fits, h₁) =
        guard-eq-ok (leb (length text) max_chars && all is_printable text) _ _ (rw on at h) in
      let (v, read, h₂) = >>=-eq-ok (loads p (drop (length prefix) text)) _ h₁ in
      let (f, valid, h₃) = >>=-eq-ok (validate_frame p v) _ h₂ in
      let (same, h₄) =
        guard-eq-ok (eq_str (drop (length prefix) text) (p.dumps (obj f.fields))) _ _ h₃ in
      cc
]
