-- ===== src/Recorder/Grows.antt =====
-- What a capture adds to the coverage of the archive, and whose receipts it records.
use mathlib.Core.Path.{subst}
use flop_contributions.Prelude.{
  ℕ, ◌≡◌, ◌<◌, ◌↔◌, ◌⊎◌, refl, ap, ◌∙◌, inl, inr, arith, ℤ, pos, negsuc, false, ◌||◌, none, some,
  List, [], ◌∷◌, ◌++◌, All, length, leb, ◌==◌, ==_iff, Bool-cases, if◌then◌else◌,
}
use flop_contributions.Outcome.{
  Outcome, ok, err, or_raise, >>=-eq-ok, guard-eq-ok, some-or_raise, ok-injective,
}
use flop_contributions.Text.{Bytes, codes}
use flop_contributions.Text.Lines.{splitlines}
use flop_contributions.Json.{Value, int}
use flop_contributions.Platform.{Platform}
use flop_contributions.CloseCall.Rooms.{ends_with}
use flop_contributions.Recorder.Ranges.{Range, merge, holes}
use flop_contributions.Recorder.Ranges.Merge.{Covered, Covered-merge}
use flop_contributions.Recorder.Inspect.{
  Config, Counts, Receipt, is_caught, is_empty, nothing_seen, read_lines, inspect,
}
use flop_contributions.Recorder.Seen.{IsReceipt, HasRecord, read_lines-Covered}
use flop_contributions.Recorder.Capture.{
  Capture, max_export, with_gaps, of_inspection, generation_of, within_safe, capture,
}

-- The inspection of an export: the records behind `after`, and receipts of the referee.
abbrev pub IsInspection : Platform → Config → Bytes → List Range × List Receipt × Counts → Type 0
IsInspection p config raw (observed, receipts, counts) =
    ((x : ℕ) → Covered x observed ↔ (HasRecord p x (splitlines raw) × (config.after < x)))
    × All (IsReceipt p config) receipts

-- `inspect` returns ranges that hold exactly the numbers of the export's records behind the configured
-- start, and only receipts with a disposition, from records whose signature verifies for the room and
-- whose sender is the referee.
pub inspect-IsInspection :
    (p : Platform) (raw : Bytes) (config : Config) (result : List Range × List Receipt × Counts)
    → inspect p raw config ≡ ok result
    → IsInspection p config raw result
unfolding inspect
inspect-IsInspection p raw config result h =
    let (a, h₁) = guard-eq-ok (is_empty raw || ends_with (codes "\n") raw) _ _ h in
    let (last, ran, h₂) = >>=-eq-ok (read_lines p config (splitlines raw) nothing_seen) _ h₁ in
    let (covers, all) = read_lines-Covered p config (splitlines raw) nothing_seen last ran in
    subst (IsInspection p config raw) (ok-injective h₂)
      (λ x. ground (arith, Covered-merge x last.seqs, covers x), all tt)

-- The numbers that a capture of the configured generation adds.
abbrev pub Adds : Platform → Config → Bytes → Value → ℕ → Type 0
Adds p config raw generation x =
    (generation ≡ int (pos config.generation))
    × ((result : List Range × List Receipt × Counts) × (inspect p raw config ≡ ok result))
    × HasRecord p x (splitlines raw)
    × (config.after < x)

Covered-append : (x : ℕ) (rs qs : List Range) → Covered x (rs ++ qs) ↔ (Covered x rs ⊎ Covered x qs)
Covered-append x [] qs = ground arith
Covered-append x (r ∷ rs) qs = ground (arith, Covered-append x rs qs)

within_safe-eq : (m : ℤ) (n : ℕ) → within_safe m ≡ some n → m ≡ pos n
within_safe-eq (pos k) n h = ground arith
within_safe-eq (negsuc k) n h = cc

generation-eq :
    (v : Value) (m : ℤ) (n : ℕ)
    → generation_of v ≡ some m
    → within_safe m ≡ some n
    → v ≡ int (pos n)
generation-eq (int k) m n h e = let same : k ≡ m = cc h in ap int (same ∙ within_safe-eq m n e)
generation-eq _ m n h e = cc

-- What the capture records: coverage, receipts and missing ranges.
pub record IsCapture (p : Platform) (config : Config) (coverage : List Range) (raw : Bytes)
    (generation : Value) (c : Capture) : Type 0 where
  pub grown : (x : ℕ) → Covered x c.coverage ↔ (Covered x coverage ⊎ Adds p config raw generation x)
  pub receipts : All (IsReceipt p config) c.receipts
  pub current : (c.receipts ≡ []) ⊎ (generation ≡ int (pos config.generation))
  pub missing : c.missing_ranges ≡ holes c.coverage config.after

kept : {A B : Type 0} → (B → ⊥) → A ↔ (A ⊎ B)
kept never = (λ a. inl a, λ c. elim c [ inl a ↦ a | inr b ↦ absurd (never b) ])

of_inspection-IsCapture :
    (p : Platform) (config : Config) (coverage : List Range) (raw : Bytes) (generation : Value)
    (n : ℕ) (result : List Range × List Receipt × Counts)
    → generation ≡ int (pos n)
    → inspect p raw config ≡ ok result
    → IsCapture p config coverage raw generation (of_inspection config coverage n result)
unfolding of_inspection with_gaps
of_inspection-IsCapture p config coverage raw generation n (observed, receipts, counts) e i =
    let (covers, all) = inspect-IsInspection p raw config (observed, receipts, counts) i in
    elim (Bool-cases (n == config.generation)) [
      | inl f ↦
          let same : generation ≡ int (pos config.generation) =
            e ∙ ap (λ k. int (pos k)) ((==_iff n config.generation).0 f) in
          rw f (record {
            grown = λ x. merged x observed (same, ((observed, receipts, counts), i)) (covers x);
            receipts = all;
            current = inr same;
            missing = refl;
          })
      | inr f ↦ rw f (record {
        grown = λ x. kept (λ adds. other f (cc (e, adds.0)));
        receipts = tt;
        current = inl refl;
        missing = refl;
      })
    ]
  where
    other : (n == config.generation) ≡ false → n ≡ config.generation → ⊥
    other f e = ground (arith, f, e)

    merged :
        (x : ℕ) (observed : List Range)
        → (generation ≡ int (pos config.generation))
          × ((result : List Range × List Receipt × Counts) × (inspect p raw config ≡ ok result))
        → Covered x observed ↔ (HasRecord p x (splitlines raw) × (config.after < x))
        → Covered x (merge (coverage ++ observed))
          ↔ (Covered x coverage ⊎ Adds p config raw generation x)
    merged x observed (same, read) covers = (
      λ c.
          elim ((Covered-append x coverage observed).0
            ((Covered-merge x (coverage ++ observed)).0 c)) [
              | inl a ↦ inl a
              | inr b ↦ inr (same, read, (covers.0 b).0, (covers.0 b).1)
            ],
      λ c. (Covered-merge x (coverage ++ observed)).1 (
          (Covered-append x coverage observed).1
            (elim c [ inl a ↦ inl a | inr b ↦ inr (covers.1 (b.2, b.3)) ])),
    )

-- Where a capture returns, the new coverage holds the numbers that the old one held and those of the
-- records behind the configured start of an export of the configured generation that was inspected, no
-- others; the receipts are the referee's, and there is none from another generation; and the missing
-- ranges are the holes of the new coverage.
pub capture-IsCapture :
    (p : Platform) (config : Config) (coverage : List Range) (raw : Bytes) (generation : Value)
    (c : Capture)
    → capture p config coverage raw generation ≡ ok c
    → IsCapture p config coverage raw generation c
unfolding capture with_gaps
capture-IsCapture p config coverage raw generation c h =
    let (a, h₁) = guard-eq-ok (leb (length raw) max_export) _ _ h in
    let (number, b, h₂) = >>=-eq-ok (or_raise (generation_of generation) _) _ h₁ in
    let (n, d, h₃) = >>=-eq-ok (or_raise (within_safe number) _) _ h₂ in
    let e = generation-eq generation number n (some-or_raise _ _ b) (some-or_raise _ _ d) in
    inspected n e (inspect p raw config) refl h₃
  where
    inspected :
        (n : ℕ)
        → generation ≡ int (pos n)
        → (o : Outcome (List Range × List Receipt × Counts)) → inspect p raw config ≡ o
        → elim o [
          | ok inspection ↦ ok (of_inspection config coverage n inspection)
          | err e ↦
              if is_caught e
              then ok (with_gaps config coverage [] ("invalid_export" ∷ []) none)
              else err e
        ]
          ≡ ok c
        → IsCapture p config coverage raw generation c
    inspected n e (ok result) i h =
        subst (IsCapture p config coverage raw generation) (ok-injective h)
          (of_inspection-IsCapture p config coverage raw generation n result e i)
    inspected n e (err x) i h = elim (Bool-cases (is_caught x)) [
      | inl f ↦
          subst (IsCapture p config coverage raw generation) (ok-injective (rw f at h)) (record {
            grown = λ x. kept (λ adds. cc (adds.1.1, i));
            receipts = tt;
            current = inl refl;
            missing = refl;
          })
      | inr f ↦ cc (rw f at h)
    ]
