-- ===== src/Recorder/Capture.antt =====
-- What `record` makes of one capture, between the chain of snapshots and the new snapshot.
use flop_contributions.Prelude.{
  ℕ, ◌*◌, ℤ, pos, Bool, true, false, Option, none, some, List, [], ◌∷◌, ◌++◌, String, length, ltb,
  leb, ◌==◌, if◌then◌else◌,
}
use flop_contributions.Outcome.{Outcome, ok, err, ◌>>=◌, ◌>>◌, guard, or_raise}
use flop_contributions.Text.{Bytes}
use flop_contributions.Json.{Value, int}
use flop_contributions.Platform.{Platform}
use flop_contributions.Export.{max_sequence}
use flop_contributions.Recorder.Ranges.{Range, merge, holes}
use flop_contributions.Recorder.Inspect.{Config, Counts, Receipt, is_caught, inspect}

abbrev pub max_export : ℕ
max_export = 32 * 1024 * 1024

-- The members of the manifest and of the result that depend on the capture.
pub record Capture : Type 0 where
  pub coverage : List Range
  pub missing_ranges : List Range
  pub receipts : List Receipt
  pub warnings : List String
  pub counts : Option Counts

-- `ranges[-1][1]`
unfoldable pub last_end : List Range → Option ℕ
last_end [] = none
last_end ((a, b) ∷ []) = some b
last_end (r ∷ q ∷ rs) = last_end (q ∷ rs)

-- `coverage and (not observed or observed[-1][1] < coverage[-1][1])`
unfoldable pub is_regressed : List Range → List Range → Bool
unfolding last_end
is_regressed coverage observed = compared (last_end coverage) (last_end observed)
  where
    compared : Option ℕ → Option ℕ → Bool
    compared none end = false
    compared (some covered) none = true
    compared (some covered) (some seen) = ltb seen covered

abbrev pub warn : Bool → String → List String
warn b name = if b then name ∷ [] else []

abbrev pub count_warnings : Counts → List String
count_warnings counts =
    warn (ltb 0 counts.invalid_signature) "invalid_signatures_present"
    ++ warn (ltb 0 counts.referee_payload_unrecognized) "unrecognized_referee_payload"

abbrev pub some_gap : List Range → Bool
some_gap [] = false
some_gap (r ∷ rs) = true

-- The holes are computed from the new coverage, and warned of last.
unfoldable pub with_gaps :
    Config → List Range → List Receipt → List String → Option Counts → Capture
unfolding holes
with_gaps config coverage receipts warnings counts =
    let gaps = holes coverage config.after in
    record {
      coverage = coverage;
      missing_ranges = gaps;
      receipts = receipts;
      warnings = warnings ++ warn (some_gap gaps) "coverage_gap";
      counts = counts;
    }

unfoldable pub of_inspection :
    Config → List Range → ℕ → List Range × List Receipt × Counts → Capture
unfolding merge is_regressed with_gaps
of_inspection config coverage generation (observed, receipts, counts) =
    if generation == config.generation
    then with_gaps config (merge (coverage ++ observed)) receipts
        (warn (is_regressed coverage observed) "empty_or_regressed_window" ++ count_warnings counts)
        (some counts)
    else with_gaps config coverage [] ("generation_mismatch" ∷ count_warnings counts) (some counts)

abbrev pub generation_of : Value → Option ℤ
generation_of (int n) = some n
generation_of _ = none

abbrev pub within_safe : ℤ → Option ℕ
within_safe (pos n) = if leb n max_sequence then some n else none
within_safe _ = none

unfoldable pub capture : Platform → Config → List Range → Bytes → Value → Outcome Capture
unfolding inspect of_inspection with_gaps
capture p config coverage raw generation_value = do
  guard (leb (length raw) max_export) "invalid capture size or generation"
  number ← or_raise (generation_of generation_value) "invalid capture size or generation"
  generation ← or_raise (within_safe number) "invalid generation"
  elim (inspect p raw config) [
    | ok inspection ↦ ok (of_inspection config coverage generation inspection)
    | err e ↦
        if is_caught e
        then ok (with_gaps config coverage [] ("invalid_export" ∷ []) none)
        else err e
  ]
