-- ===== src/Audit/Timed.antt =====
-- The loop of the audit selects what its frames give, with their venue times.
use mathlib.Core.Path.{subst}
use flop_contributions.Prelude.{
  ℤ, ◌≡◌, ◌++◌, if◌then◌else◌, refl, sym, false, not, Option, none, some, List, [], ◌∷◌, Bool-cases,
  inl, inr,
}
use flop_contributions.Outcome.{Outcome, ok-injective, ok, >>=-eq-ok, guard-eq-ok}
use flop_contributions.Text.{Str, mem_str, starts_with}
use flop_contributions.Json.{Value, str, Fields, get, has_key, is_str}
use flop_contributions.Platform.{Platform}
use flop_contributions.Tclk.Frame.{Frame}
use flop_contributions.Tclk.Validate.{decode_line}
use flop_contributions.Tclk.Transport.{parse_time}
use flop_contributions.Tclk.Transcript.{value_at, text_or_empty}
use flop_contributions.Tclk.Patterns.{prefix}
use flop_contributions.Tclk.Transcript.History.{Dated, dated_from, dated}
use flop_contributions.Audit.Chosen.{audit_history}
use flop_contributions.Audit.Room.{
  Source, board, deal, Progress, belongs, count_frame, audit_body, audit_frame, is_protocol,
  audit_record, audit_records,
}
use flop_contributions.Audit.Tracks.{Tracks, audit_body-TracksBy}

count_frame-Tracks :
    (p : Platform) (target : Str) (source : Source) (hist : List Dated) (s : Progress)
    → Tracks p target hist s
    → Tracks p target hist (count_frame source s)
unfolding count_frame
count_frame-Tracks p target board hist s h = h
count_frame-Tracks p target deal hist s h = h

audit_frame-Tracks :
    (p : Platform) (target : Str) (source : Source) (hist : List Dated) (s next : Progress)
    (fields : Fields) (text : Str) (decoded : Option Frame)
    → Tracks p target hist s
    → audit_frame p target source s fields text decoded ≡ ok next
    → Tracks p target (dated_from (ok decoded) (parse_time p (get "ts" fields)) ++ hist) next
audit_frame-Tracks p target source hist s next fields text none h e = unfold audit_frame in cc
audit_frame-Tracks p target source hist s next fields text (some frame) h e =
    unfold audit_frame in
    let (same, e₁) = guard-eq-ok (is_str (value_at "from" fields) frame.sender) _ _ e in
    let (routed, e₂) = guard-eq-ok (belongs source frame.body) _ _ e₁ in
    let (fresh, e₃) = guard-eq-ok (not (mem_str text s.seen)) _ _ e₂ in
    let (now, timed, e₄) = >>=-eq-ok (parse_time p (get "ts" fields)) _ e₃ in
    let (mid, entered, e₅) =
      >>=-eq-ok (audit_body p target (record s { seen = text ∷ s.seen }) frame now frame.body) _
        e₄ in
    let after : Tracks p target ((frame, now) ∷ hist) mid =
      audit_body-TracksBy p target hist (record s { seen = text ∷ s.seen }) mid h frame now
        frame.body refl entered in
    subst (λ o. Tracks p target (dated_from (ok (some frame)) o ++ hist) next) (sym timed)
      (subst (Tracks p target ((frame, now) ∷ hist)) (ok-injective e₅)
        (count_frame-Tracks p target source ((frame, now) ∷ hist) mid after))

-- A text without the prefix is no frame.
no_prefix :
    (p : Platform) (v : Value) (o : Outcome ℤ)
    → starts_with prefix (text_or_empty v) ≡ false
    → dated_from (decode_line p v) o ≡ []
unfolding decode_line
no_prefix p (str text) o h = rw h refl
no_prefix p _ o h = refl

audit_record-Tracks :
    (p : Platform) (target : Str) (source : Source) (hist : List Dated) (s next : Progress)
    (fields : Fields)
    → Tracks p target hist s
    → audit_record p target source s fields ≡ ok next
    → Tracks p target ((if has_key "sig" fields then dated p fields else []) ++ hist) next
unfolding audit_record is_protocol
audit_record-Tracks p target source hist s next fields h e =
    elim (Bool-cases (has_key "sig" fields)) [
      | inr off ↦ rw off (subst (Tracks p target hist) (ok-injective (rw off at e)) h)
      | inl on ↦ elim (Bool-cases (starts_with prefix (text_or_empty (value_at "text" fields)))) [
        | inr off ↦
            rw (on, no_prefix p (value_at "text" fields) (parse_time p (get "ts" fields)) off)
              (subst (Tracks p target hist) (ok-injective (rw (on, off) at e)) h)
        | inl starts ↦
            let (frame, decoded, e₁) =
              >>=-eq-ok (decode_line p (value_at "text" fields)) _ (rw (on, starts) at e) in
            rw on (
              subst
                (λ o. Tracks p target (dated_from o (parse_time p (get "ts" fields)) ++ hist) next)
                (sym decoded)
                (audit_frame-Tracks p target source hist s next fields
                  (text_or_empty (value_at "text" fields)) frame h e₁))
      ]
    ]

audit_records-cons :
    (p : Platform) (target : Str) (source : Source) (s last : Progress) (r : Fields)
    (rs : List Fields)
    → audit_records p target source s (r ∷ rs) ≡ ok last
    → (next : Progress) × (audit_record p target source s r ≡ ok next)
      × (audit_records p target source next rs ≡ ok last)
unfolding audit_records
audit_records-cons p target source s last r rs e = >>=-eq-ok (audit_record p target source s r) _ e

pub audit_records-Tracks :
    (p : Platform) (target : Str) (source : Source) (hist : List Dated) (s last : Progress)
    (rs : List Fields)
    → Tracks p target hist s
    → audit_records p target source s rs ≡ ok last
    → Tracks p target (audit_history p hist rs) last
audit_records-Tracks p target source hist s last [] h e =
    unfold audit_records in subst (Tracks p target hist) (ok-injective e) h
audit_records-Tracks p target source hist s last (r ∷ rs) h e =
    let (next, one, more) = audit_records-cons p target source s last r rs e in
    audit_records-Tracks p target source ((if has_key "sig" r then dated p r else []) ++ hist) next
      last rs (audit_record-Tracks p target source hist s next r h one) more
