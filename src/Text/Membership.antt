-- ===== src/Text/Membership.antt =====
-- Membership of a text in a list of texts, as a type.
use flop_contributions.Prelude.{◌≡◌, ◌↔◌, ◌⊎◌, true, List, [], ◌∷◌, arith}
use flop_contributions.Text.{Str, mem_str}
use flop_contributions.Text.Laws.{eq_str_iff}

abbrev pub In : Str → List Str → Type 0
In s [] = ⊥
In s (t ∷ ts) = (s ≡ t) ⊎ In s ts

pub mem_str_iff : (s : Str) (ts : List Str) → (mem_str s ts ≡ true) ↔ In s ts
unfolding mem_str
mem_str_iff s [] = (λ h. cc, λ h. absurd h)
mem_str_iff s (t ∷ ts) = (
  λ h. ground (arith, eq_str_iff s t, (mem_str_iff s ts).0),
  λ h. ground (arith, eq_str_iff s t, (mem_str_iff s ts).1),
)

-- No text stands twice in the list.
abbrev pub Distinct : List Str → Type 0
Distinct [] = Unit
Distinct (s ∷ ss) = ¬ In s ss × Distinct ss
