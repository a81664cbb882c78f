-- ===== src/Recorder/Ranges.antt =====
-- `merge` and `holes`: a list of ranges [start, end] is a list of pairs of sequence numbers.
pub mod Merge
pub mod Holes
use Prim.Native.Nat.{max}
use flop_contributions.Prelude.{
  ℕ, suc, ◌+◌, ◌-◌, Bool, ◌&&◌, ◌||◌, List, [], ◌∷◌, ltb, leb, ◌==◌, if◌then◌else◌,
}
use mathlib.Core.List.{reverse}

abbrev pub Range : Type 0
Range = ℕ × ℕ

-- The order of lists of two numbers.
abbrev before : Range → Range → Bool
before (a, b) (c, d) = ltb a c || (a == c && ltb b d)

unfoldable pub insert_range : Range → List Range → List Range
insert_range r [] = r ∷ []
insert_range r (q ∷ qs) = if before q r then q ∷ insert_range r qs else r ∷ q ∷ qs

-- `sorted(ranges)`
unfoldable pub sorted_ranges : List Range → List Range
unfolding insert_range
sorted_ranges [] = []
sorted_ranges (r ∷ rs) = insert_range r (sorted_ranges rs)

-- The body of the loop of `merge`, on its result with the last range first.
unfoldable pub extend : List Range → Range → List Range
extend [] (start, end) = (start, end) ∷ []
extend ((a, b) ∷ result) (start, end) =
    if leb start (b + 1) then (a, max b end) ∷ result else (start, end) ∷ (a, b) ∷ result

unfoldable pub merge_from : List Range → List Range → List Range
unfolding extend
merge_from result [] = result
merge_from result (r ∷ rs) = merge_from (extend result r) rs

unfoldable pub merge : List Range → List Range
unfolding merge_from sorted_ranges
merge ranges = reverse (merge_from [] (sorted_ranges ranges))

-- The loop of `holes`, from its cursor.
unfoldable pub holes_from : ℕ → List Range → List Range
holes_from cursor [] = []
holes_from cursor ((start, end) ∷ ranges) =
    let rest = holes_from (max cursor (end + 1)) ranges in
    if ltb cursor start then (cursor, start - 1) ∷ rest else rest

unfoldable pub holes : List Range → ℕ → List Range
unfolding holes_from
holes ranges after = holes_from (after + 1) ranges
