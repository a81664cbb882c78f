-- ===== src/Table/Laws.antt =====
-- Lookup after an assignment.
use flop_contributions.Prelude.{◌≡◌, refl, some, List, [], ◌∷◌, arith, if◌then◌else◌}
use flop_contributions.Text.{Str, eq_str}
use flop_contributions.Text.Laws.{eq_str_iff}
use flop_contributions.Table.{find, put}

module _ {ℓ} {A : Type ℓ} where
  pub find-put :
      (k j : Str) (a : A) (d : List (Str × A))
      → find j (put k a d) ≡ (if eq_str k j then some a else find j d)
  unfolding find put
  find-put k j a [] = refl
  find-put k j a ((i, b) ∷ d) =
      ground (arith, eq_str_iff k j, eq_str_iff i k, eq_str_iff i j, find-put k j a d)
