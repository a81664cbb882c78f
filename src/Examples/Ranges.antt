-- ===== src/Examples/Ranges.antt =====
-- The range theorems at three ranges of which two touch.
use flop_contributions.Prelude.{◌<◌, ◌≡◌, refl, ◌↔◌, List, [], ◌∷◌}
use flop_contributions.Recorder.Ranges.{
  Range, insert_range, sorted_ranges, extend, merge_from, merge, holes_from, holes,
}
use flop_contributions.Recorder.Ranges.Merge.{
  Covered, IsSeparated, Covered-merge, merge-IsSeparated,
}
use flop_contributions.Recorder.Ranges.Holes.{BelowStart, Covered-holes}

abbrev polled : List Range
polled = (9, 12) ∷ (1, 3) ∷ (4, 6) ∷ []

merged : merge polled ≡ (1, 6) ∷ (9, 12) ∷ []
unfolding merge merge_from extend sorted_ranges insert_range
merged = refl

missing : holes (merge polled) 0 ≡ (7, 8) ∷ []
unfolding holes holes_from merge merge_from extend sorted_ranges insert_range
missing = refl

Covered-merge_example : Covered 5 (merge polled) ↔ Covered 5 polled
Covered-merge_example = Covered-merge 5 polled

merge-IsSeparated_example : IsSeparated (merge polled)
merge-IsSeparated_example = merge-IsSeparated polled

Covered-holes_example :
    Covered 7 (holes (merge polled) 0)
    ↔ ((0 < 7) × (¬ Covered 7 polled) × BelowStart 7 (merge polled))
Covered-holes_example = Covered-holes 7 0 polled
