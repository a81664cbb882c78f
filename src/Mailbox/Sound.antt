-- ===== src/Mailbox/Sound.antt =====
-- What a receipt of the mailbox review vouches for.
use mathlib.Core.Path.{subst}
use flop_contributions.Prelude.{
  ℕ, suc, ◌+◌, ◌≡◌, ◌≢◌, refl, sym, ap, ◌∙◌, true, not, ◌&&◌, ◌||◌, none, some, List, [], ◌∷◌,
  arith, length, leb, ◌==◌, All, if◌then◌else◌, inl, inr,
}
use flop_contributions.Outcome.{ok, or_fail, >>=-eq-ok, require-eq-ok, ok-injective}
use flop_contributions.Text.{Str, codes}
use flop_contributions.Text.Membership.{In, Distinct}
use flop_contributions.Json.{Value, Fields, has_exactly, is_str}
use flop_contributions.Platform.{Platform, redacted_hash}
use flop_contributions.Tclk.Transcript.{value_at, bounded, batch_keys}
use flop_contributions.Tclk.Transcript.Sequence.{seq_of, Follows, Covers}
use flop_contributions.Tclk.Transcript.Replays.{fresh-head, fresh-tail}
use flop_contributions.Mailbox.Review.{Verifier, Reviewed, review_messages}
use flop_contributions.Mailbox.Loop.{IsEntry, Continues, Entries, review_messages-Entries}
use flop_contributions.Mailbox.Receipt.{
  Header, list_of, check_first, read_batch, Receipt, digest_source, nonempty, validate_batch,
}

abbrev pub hashes : List Reviewed → List Str
hashes [] = []
hashes (e ∷ es) = e.signature_sha256 ∷ hashes es

-- The last entry carries the number `n`.
abbrev pub EndsAt : ℕ → List Reviewed → Type 0
EndsAt n [] = ⊥
EndsAt n (e ∷ []) = e.seq ≡ n
EndsAt n (e ∷ f ∷ es) = EndsAt n (f ∷ es)

module _ (p : Platform) (verifier : Verifier) (room : Str) (starting : ℕ) where
  Entries-Distinct :
      (index previous : ℕ) (seen : List Str) (vs : List Value) (es : List Reviewed) (last : ℕ)
      → Entries p verifier room starting index previous seen vs es last
      → Distinct (hashes es) × All (λ t. ¬ In t seen) (hashes es)
  Entries-Distinct index previous seen [] [] last h = (tt, tt)
  Entries-Distinct index previous seen [] (e ∷ es) last h = absurd h
  Entries-Distinct index previous seen (v ∷ vs) [] last h = absurd h
  Entries-Distinct index previous seen (v ∷ vs) (e ∷ es) last (entry, below, onward, new, rest) =
      let (distinct, fresh) =
        Entries-Distinct (suc index) e.seq (e.signature_sha256 ∷ seen) vs es last rest in
      (
        (fresh-head e.signature_sha256 seen (hashes es) fresh, distinct),
        (new, fresh-tail e.signature_sha256 seen (hashes es) fresh),
      )

  length-Entries :
      (index previous : ℕ) (seen : List Str) (vs : List Value) (es : List Reviewed) (last : ℕ)
      → Entries p verifier room starting index previous seen vs es last
      → length es ≡ length vs
  length-Entries index previous seen [] [] last h = refl
  length-Entries index previous seen [] (e ∷ es) last h = absurd h
  length-Entries index previous seen (v ∷ vs) [] last h = absurd h
  length-Entries index previous seen (v ∷ vs) (e ∷ es) last h =
      ap suc (length-Entries (suc index) e.seq (e.signature_sha256 ∷ seen) vs es last h.4)

  EndsAt-Entries :
      (index previous : ℕ) (seen : List Str) (v : Value) (vs : List Value) (es : List Reviewed)
      (last : ℕ)
      → Entries p verifier room starting index previous seen (v ∷ vs) es last
      → EndsAt last es
  EndsAt-Entries index previous seen v vs [] last h = absurd h
  EndsAt-Entries index previous seen v [] (e ∷ []) last h = h.4
  EndsAt-Entries index previous seen v [] (e ∷ f ∷ es) last h = absurd h.4
  EndsAt-Entries index previous seen v (w ∷ vs) (e ∷ []) last h = absurd h.4
  EndsAt-Entries index previous seen v (w ∷ vs) (e ∷ f ∷ es) last h =
      EndsAt-Entries (suc index) e.seq (e.signature_sha256 ∷ seen) w vs (f ∷ es) last h.4

  entry_seq : (v : Value) (e : Reviewed) → IsEntry p verifier room v e → seq_of v ≡ some e.seq
  entry_seq v e h = h.stands.numbered ∙ ap some (sym h.seq)

  Entries-Follows :
      (index previous : ℕ) (seen : List Str) (vs : List Value) (es : List Reviewed) (last : ℕ)
      → Entries p verifier room starting (suc index) previous seen vs es last
      → Follows previous last vs
  Entries-Follows index previous seen [] [] last h = h
  Entries-Follows index previous seen [] (e ∷ es) last h = absurd h
  Entries-Follows index previous seen (v ∷ vs) [] last h = absurd h
  Entries-Follows index previous seen (v ∷ vs) (e ∷ es) last (entry, below, inl onward, new, rest) =
      absurd (omega (arith, onward.0))
  Entries-Follows index previous seen (v ∷ vs) (e ∷ es) last (entry, below, inr onward, new, rest) =
      (
        entry_seq v e entry ∙ ap some onward,
        subst (λ k. Follows k last vs) onward
            (Entries-Follows (suc index) e.seq (e.signature_sha256 ∷ seen) vs es last rest),
      )

  Entries-Covers :
      (vs : List Value) (es : List Reviewed) (last : ℕ)
      → Entries p verifier room starting 0 starting [] vs es last
      → Covers starting last vs
  Entries-Covers [] [] last h = h
  Entries-Covers [] (e ∷ es) last h = absurd h
  Entries-Covers (v ∷ vs) [] last h = absurd h
  Entries-Covers (v ∷ vs) (e ∷ es) last (entry, below, onward, new, rest) = (
    e.seq,
    entry_seq v e entry,
    below,
    λ z. next onward z,
    Entries-Follows 0 e.seq (e.signature_sha256 ∷ []) vs es last rest,
  )
    where
      next : {a : ℕ} → Continues starting 0 starting a → starting ≢ 0 → a ≡ starting + 1
      next (inl k) z = absurd (z k.1)
      next (inr k) z = k

-- The review behind a receipt.
pub record IsReview (p : Platform) (verifier : Verifier) (room : Str) (batch : Fields) (r : Receipt)
    : Type 0 where
  pub header : Header
  pub read : read_batch batch ≡ ok header
  pub entries :
      Entries p verifier room header.starting 0 header.starting [] header.messages r.messages
        header.proposed
  pub numbered : Covers header.starting header.proposed header.messages
  pub distinct : Distinct (hashes r.messages)
  pub counted : (r.count ≡ length header.messages) × (length r.messages ≡ length header.messages)
  pub cursors :
      (r.generation ≡ header.generation)
      × (r.starting_cursor ≡ header.starting)
      × (r.proposed_cursor ≡ header.proposed)
  pub acknowledged :
      (n : ℕ)
      → r.ack_cursor ≡ some n
      → (r.ack_eligible ≡ true) × (n ≡ header.proposed) × EndsAt n r.messages

read_batch-check_first :
    (batch : Fields) (h : Header)
    → read_batch batch ≡ ok h
    → check_first h.messages (value_at "first_seq" batch) h.proposed h.starting ≡ ok tt
unfolding read_batch
read_batch-check_first batch h e =
    let (a, e₁) = require-eq-ok (has_exactly batch batch_keys) _ _ e in
    let (b, e₂) = require-eq-ok (is_str (value_at "status" batch) (codes "ok")) _ _ e₁ in
    let (generation, c, e₃) = >>=-eq-ok (or_fail (bounded (value_at "generation" batch)) _) _ e₂ in
    let (starting, d, e₄) =
      >>=-eq-ok (or_fail (bounded (value_at "starting_cursor" batch)) _) _ e₃ in
    let (proposed, f, e₅) =
      >>=-eq-ok (or_fail (bounded (value_at "proposed_cursor" batch)) _) _ e₄ in
    let (count, g, e₆) = >>=-eq-ok (or_fail (bounded (value_at "count" batch)) _) _ e₅ in
    let (last, i, e₇) = >>=-eq-ok (or_fail (bounded (value_at "last_seq" batch)) _) _ e₆ in
    let (messages, j, e₈) = >>=-eq-ok (or_fail (list_of (value_at "messages" batch)) _) _ e₇ in
    let (k, e₉) = require-eq-ok (count == length messages) _ _ e₈ in
    let (l, e₁₀) = require-eq-ok (proposed == last && leb starting proposed) _ _ e₉ in
    let (u, first, end) =
      >>=-eq-ok (check_first messages (value_at "first_seq" batch) proposed starting) _ e₁₀ in
    subst
      (λ (o : Header).
        check_first o.messages (value_at "first_seq" batch) o.proposed o.starting ≡ ok tt)
      (ok-injective end) first

empty_cursor :
    (first : Value) (proposed starting : ℕ)
    → check_first [] first proposed starting ≡ ok tt
    → starting ≡ proposed
unfolding check_first
empty_cursor first proposed starting h = ground arith

-- The loop ends at the proposed cursor, also where there is no message.
loop_end :
    (p : Platform) (verifier : Verifier) (room : Str) (first : Value) (starting proposed last : ℕ)
    (vs : List Value) (es : List Reviewed)
    → Entries p verifier room starting 0 starting [] vs es last
    → check_first vs first proposed starting ≡ ok tt
    → (not (nonempty vs) || last == proposed) ≡ true
    → last ≡ proposed
loop_end p verifier room first starting proposed last [] [] h c t =
    sym h ∙ empty_cursor first proposed starting c
loop_end p verifier room first starting proposed last [] (e ∷ es) h c t = absurd h
loop_end p verifier room first starting proposed last (v ∷ vs) es h c t = ground arith

acknowledges :
    (p : Platform) (verifier : Verifier) (room : Str) (starting proposed n : ℕ) (vs : List Value)
    (es : List Reviewed)
    → Entries p verifier room starting 0 starting [] vs es proposed
    → (if nonempty vs then some proposed else none) ≡ some n
    → (nonempty vs ≡ true) × (n ≡ proposed) × EndsAt n es
acknowledges p verifier room starting proposed n [] es h e = cc
acknowledges p verifier room starting proposed n (v ∷ vs) es h e =
    let t : proposed ≡ n = cc e in
    (
      refl,
      sym t,
      subst (λ k. EndsAt k es) t
          (EndsAt-Entries p verifier room starting 0 starting [] v vs es proposed h),
    )

-- A receipt is returned only for a batch with a consistent header, whose messages are numbered without
-- gap up to the proposed cursor, from the starting cursor on unless that is 0, each of which passed the
-- envelope verifier and has its entry in the receipt, with the digests of its sender, text, envelope and
-- signature; no two have the same signature digest; and a cursor to acknowledge is given only for a
-- batch with messages, and is the number of the last of them.
pub validate_batch-IsReview :
    (p : Platform) (verifier : Verifier) (room : Str) (batch : Fields) (r : Receipt)
    → validate_batch p verifier room batch ≡ ok r
    → IsReview p verifier room batch r
unfolding validate_batch
validate_batch-IsReview p verifier room batch r e =
    let (h, read, e₁) = >>=-eq-ok (read_batch batch) _ e in
    let (loop, ran, e₂) =
      >>=-eq-ok (review_messages p verifier room h.starting h.proposed 0 h.starting [] h.messages) _
        e₁ in
    let (ended, e₃) = require-eq-ok (not (nonempty h.messages) || loop.1 == h.proposed) _ _ e₂ in
    let (hash, hashed, e₄) = >>=-eq-ok (redacted_hash p (p.dumps (digest_source h loop.0))) _ e₃ in
    let entries₀ =
      review_messages-Entries p verifier room h.starting h.proposed 0 h.starting [] h.messages
        loop.0 loop.1 ran in
    let last : loop.1 ≡ h.proposed =
      loop_end p verifier room (value_at "first_seq" batch) h.starting h.proposed loop.1 h.messages
        loop.0 entries₀ (read_batch-check_first batch h read) ended in
    let entries : Entries p verifier room h.starting 0 h.starting [] h.messages loop.0 h.proposed =
      subst (Entries p verifier room h.starting 0 h.starting [] h.messages loop.0) last entries₀ in
    subst (IsReview p verifier room batch) (ok-injective e₄) (record {
      header = h;
      read = read;
      entries = entries;
      numbered = Entries-Covers p verifier room h.starting h.messages loop.0 h.proposed entries;
      distinct =
          (Entries-Distinct p verifier room h.starting 0 h.starting [] h.messages loop.0 h.proposed
            entries).0;
      counted = (
        refl,
        length-Entries p verifier room h.starting 0 h.starting [] h.messages loop.0 h.proposed
            entries,
      );
      cursors = (refl, refl, refl);
      acknowledged =
          λ n a. acknowledges p verifier room h.starting h.proposed n h.messages loop.0 entries a;
    })
