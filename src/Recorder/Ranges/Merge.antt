-- ===== src/Recorder/Ranges/Merge.antt =====
-- `merge` keeps the covered numbers, and leaves ranges that neither overlap nor touch.
use mathlib.Core.List.{reverse, reverse_aux, reverse-append}
use flop_contributions.Prelude.{ℕ, ◌+◌, ◌≤◌, ◌<◌, ◌↔◌, ◌⊎◌, List, [], ◌∷◌, ◌++◌, arith}
use flop_contributions.Recorder.Ranges.{
  Range, insert_range, sorted_ranges, extend, merge_from, merge,
}

abbrev pub Inside : ℕ → Range → Type 0
Inside x (a, b) = (a ≤ x) × (x ≤ b)

-- Some range of the list holds `x`.
abbrev pub Covered : ℕ → List Range → Type 0
Covered x [] = ⊥
Covered x (r ∷ rs) = Inside x r ⊎ Covered x rs

-- The starts go up from `n`.
abbrev pub Ascending : ℕ → List Range → Type 0
Ascending n [] = Unit
Ascending n ((a, b) ∷ rs) = (n ≤ a) × Ascending a rs

Covered-insert_range :
    (x : ℕ) (r : Range) (rs : List Range)
    → Covered x (insert_range r rs) ↔ (Inside x r ⊎ Covered x rs)
unfolding insert_range
Covered-insert_range x r [] = ground arith
Covered-insert_range x (a, b) ((c, d) ∷ rs) = ground (arith, Covered-insert_range x (a, b) rs)

Covered-sorted_ranges : (x : ℕ) (rs : List Range) → Covered x (sorted_ranges rs) ↔ Covered x rs
unfolding sorted_ranges
Covered-sorted_ranges x [] = ground arith
Covered-sorted_ranges x (r ∷ rs) =
    ground (arith, Covered-insert_range x r (sorted_ranges rs), Covered-sorted_ranges x rs)

Ascending-insert_range :
    (n : ℕ) (r : Range) (rs : List Range)
    → n ≤ r.0
    → Ascending n rs
    → Ascending n (insert_range r rs)
unfolding insert_range
Ascending-insert_range n (a, b) [] h s = ground arith
Ascending-insert_range n (a, b) ((c, d) ∷ rs) h s =
    ground (arith, Ascending-insert_range c (a, b) rs)

pub Ascending-sorted_ranges : (rs : List Range) → Ascending 0 (sorted_ranges rs)
unfolding sorted_ranges
Ascending-sorted_ranges [] = tt
Ascending-sorted_ranges (r ∷ rs) =
    Ascending-insert_range 0 r (sorted_ranges rs) (omega arith) (Ascending-sorted_ranges rs)

-- The start of the last range of a result, which stands first.
abbrev last_start : List Range → ℕ
last_start [] = 0
last_start ((a, b) ∷ rs) = a

Ascending-weaken : (m n : ℕ) (rs : List Range) → m ≤ n → Ascending n rs → Ascending m rs
Ascending-weaken m n [] h s = tt
Ascending-weaken m n ((a, b) ∷ rs) h s = (omega (arith, s.0), s.1)

Covered-extend :
    (x : ℕ) (result : List Range) (a b : ℕ)
    → last_start result ≤ a
    → (Covered x (extend result (a, b)) ↔ (Inside x (a, b) ⊎ Covered x result))
unfolding extend
Covered-extend x [] a b h = ground arith
Covered-extend x ((c, d) ∷ result) a b h = ground arith

last_start-extend :
    (result : List Range) (a b : ℕ) → last_start result ≤ a → last_start (extend result (a, b)) ≤ a
unfolding extend
last_start-extend [] a b h = ground arith
last_start-extend ((c, d) ∷ result) a b h = ground arith

Covered-merge_from :
    (x : ℕ) (result rs : List Range)
    → Ascending (last_start result) rs
    → (Covered x (merge_from result rs) ↔ (Covered x result ⊎ Covered x rs))
unfolding merge_from
Covered-merge_from x result [] h = ground arith
Covered-merge_from x result ((a, b) ∷ rs) h = ground (
  arith,
  Covered-extend x result a b h.0,
  Covered-merge_from x (extend result (a, b)) rs (
      Ascending-weaken (last_start (extend result (a, b))) a rs (last_start-extend result a b h.0)
        h.1),
)

Covered-append : (x : ℕ) (rs qs : List Range) → Covered x (rs ++ qs) ↔ (Covered x rs ⊎ Covered x qs)
Covered-append x [] qs = ground arith
Covered-append x (r ∷ rs) qs = ground (arith, Covered-append x rs qs)

Covered-reverse : (x : ℕ) (rs : List Range) → Covered x (reverse rs) ↔ Covered x rs
Covered-reverse x [] = ground arith
Covered-reverse x (r ∷ rs) =
    rw (reverse-append (r ∷ []) rs)
      (ground (arith, Covered-append x (reverse rs) (r ∷ []), Covered-reverse x rs))

-- A number is in a merged range exactly when it is in one of the given ranges.
pub Covered-merge : (x : ℕ) (ranges : List Range) → Covered x (merge ranges) ↔ Covered x ranges
unfolding merge
Covered-merge x ranges = ground (
  arith,
  Covered-reverse x (merge_from [] (sorted_ranges ranges)),
  Covered-merge_from x [] (sorted_ranges ranges) (Ascending-sorted_ranges ranges),
  Covered-sorted_ranges x ranges,
)

-- The next range starts behind the number after `n`.
abbrev pub StartsBeyond : ℕ → List Range → Type 0
StartsBeyond n [] = Unit
StartsBeyond n ((a, b) ∷ rs) = n + 1 < a

-- Ranges in ascending order, at least one number apart.
abbrev pub IsSeparated : List Range → Type 0
IsSeparated [] = Unit
IsSeparated ((a, b) ∷ rs) = StartsBeyond b rs × IsSeparated rs

-- The same with the last range first.
abbrev EndsBelow : ℕ → List Range → Type 0
EndsBelow n [] = Unit
EndsBelow n ((a, b) ∷ rs) = b + 1 < n

abbrev IsSeparatedBack : List Range → Type 0
IsSeparatedBack [] = Unit
IsSeparatedBack ((a, b) ∷ rs) = EndsBelow a rs × IsSeparatedBack rs

extend-IsSeparatedBack :
    (result : List Range) (a b : ℕ)
    → IsSeparatedBack result
    → IsSeparatedBack (extend result (a, b))
unfolding extend
extend-IsSeparatedBack [] a b h = ground arith
extend-IsSeparatedBack ((c, d) ∷ result) a b h = ground arith

merge_from-IsSeparatedBack :
    (result rs : List Range) → IsSeparatedBack result → IsSeparatedBack (merge_from result rs)
unfolding merge_from
merge_from-IsSeparatedBack result [] h = h
merge_from-IsSeparatedBack result ((a, b) ∷ rs) h =
    merge_from-IsSeparatedBack (extend result (a, b)) rs (extend-IsSeparatedBack result a b h)

abbrev Meets : List Range → List Range → Type 0
Meets [] done = Unit
Meets ((a, b) ∷ rs) done = StartsBeyond b done

reverse_aux-IsSeparated :
    (rs done : List Range)
    → IsSeparatedBack rs
    → IsSeparated done
    → Meets rs done
    → IsSeparated (reverse_aux rs done)
reverse_aux-IsSeparated [] done h s m = s
reverse_aux-IsSeparated ((a, b) ∷ []) done h s m = (m, s)
reverse_aux-IsSeparated ((a, b) ∷ (c, d) ∷ rs) done h s m =
    reverse_aux-IsSeparated ((c, d) ∷ rs) ((a, b) ∷ done) h.1 (m, s) h.0

Meets-nothing : (rs : List Range) → Meets rs []
Meets-nothing [] = tt
Meets-nothing (r ∷ rs) = tt

-- Each merged range but the first starts at least two behind the end of the one in front of it, so
-- neighbours neither overlap nor touch.
pub merge-IsSeparated : (ranges : List Range) → IsSeparated (merge ranges)
unfolding merge
merge-IsSeparated ranges =
    reverse_aux-IsSeparated (merge_from [] (sorted_ranges ranges)) []
      (merge_from-IsSeparatedBack [] (sorted_ranges ranges) tt) tt
      (Meets-nothing (merge_from [] (sorted_ranges ranges)))

-- The starts go down: the ranges of an ascending list with the last one first.
abbrev Descending : List Range → Type 0
Descending [] = Unit
Descending ((a, b) ∷ rs) = (last_start rs ≤ a) × Descending rs

extend-Descending :
    (result : List Range) (a b : ℕ)
    → last_start result ≤ a
    → Descending result
    → Descending (extend result (a, b))
unfolding extend
extend-Descending [] a b h d = ground arith
extend-Descending ((c, e) ∷ result) a b h d = ground arith

merge_from-Descending :
    (result rs : List Range)
    → Ascending (last_start result) rs
    → Descending result
    → Descending (merge_from result rs)
unfolding merge_from
merge_from-Descending result [] h d = d
merge_from-Descending result ((a, b) ∷ rs) h d =
    merge_from-Descending (extend result (a, b)) rs
      (Ascending-weaken (last_start (extend result (a, b))) a rs (last_start-extend result a b h.0)
        h.1)
      (extend-Descending result a b h.0 d)

reverse_aux-Ascending :
    (rs done : List Range)
    → Descending rs
    → Ascending (last_start rs) done
    → Ascending 0 (reverse_aux rs done)
reverse_aux-Ascending [] done d h = h
reverse_aux-Ascending ((a, b) ∷ rs) done d h = reverse_aux-Ascending rs ((a, b) ∷ done) d.1 (d.0, h)

pub merge-Ascending : (ranges : List Range) → Ascending 0 (merge ranges)
unfolding merge
merge-Ascending ranges =
    reverse_aux-Ascending (merge_from [] (sorted_ranges ranges)) []
      (merge_from-Descending [] (sorted_ranges ranges) (Ascending-sorted_ranges ranges) tt) tt
