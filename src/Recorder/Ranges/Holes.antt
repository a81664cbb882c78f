-- ===== src/Recorder/Ranges/Holes.antt =====
-- `holes` lists exactly the numbers that are missing below the start of some range.
use Prim.Native.Nat.{max}
use flop_contributions.Prelude.{ℕ, ◌+◌, ◌≤◌, ◌<◌, ◌↔◌, ◌⊎◌, List, [], ◌∷◌, arith}
use flop_contributions.Recorder.Ranges.{Range, merge, holes_from, holes}
use flop_contributions.Recorder.Ranges.Merge.{Covered, Ascending, Covered-merge, merge-Ascending}

-- Some range starts behind `x`.
abbrev pub BelowStart : ℕ → List Range → Type 0
BelowStart x [] = ⊥
BelowStart x ((a, b) ∷ rs) = (x < a) ⊎ BelowStart x rs

-- What is below the start of an ascending list is in none of its ranges.
Ascending-misses : (x n : ℕ) (rs : List Range) → x < n → Ascending n rs → ¬ Covered x rs
Ascending-misses x n [] h s c = c
Ascending-misses x n ((a, b) ∷ rs) h s c = ground (arith, Ascending-misses x a rs)

Covered-holes_from :
    (x cursor n : ℕ) (rs : List Range)
    → Ascending n rs
    → (Covered x (holes_from cursor rs) ↔ ((cursor ≤ x) × (¬ Covered x rs) × BelowStart x rs))
unfolding holes_from
Covered-holes_from x cursor n [] h = ground arith
Covered-holes_from x cursor n ((a, b) ∷ rs) h =
    ground (arith, Covered-holes_from x (max cursor (b + 1)) a rs h.1, Ascending-misses x a rs)

-- The holes of merged ranges after `after` hold exactly the numbers above `after` that no given
-- range holds and that lie below the start of some merged range.
pub Covered-holes :
    (x after : ℕ) (ranges : List Range)
    → (Covered x (holes (merge ranges) after)
        ↔ ((after < x) × (¬ Covered x ranges) × BelowStart x (merge ranges)))
unfolding holes
Covered-holes x after ranges = ground (
  arith,
  Covered-holes_from x (after + 1) 0 (merge ranges) (merge-Ascending ranges),
  Covered-merge x ranges,
)
