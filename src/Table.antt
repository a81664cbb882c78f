-- ===== src/Table.antt =====
-- Python's `dict` and `sorted` with text keys: an association list in insertion order.

pub mod Laws
pub mod Keys
use flop_contributions.Prelude.{
  ℕ, ◌≡◌, Bool, true, false, ◌&&◌, ◌||◌, Option, none, some, List, [], ◌∷◌, map, ltb, ◌==◌,
  if◌then◌else◌,
}
use flop_contributions.Text.{Str, eq_str}

module _ {ℓ} {A : Type ℓ} where
  -- `d.get(key)`
  unfoldable pub find : Str → List (Str × A) → Option A
  find k [] = none
  find k ((j, a) ∷ d) = if eq_str j k then some a else find k d

  -- `d[key] = a`: the place of an old key is kept
  unfoldable pub put : Str → A → List (Str × A) → List (Str × A)
  put k a [] = (k, a) ∷ []
  put k a ((j, b) ∷ d) = if eq_str j k then (j, a) ∷ d else (j, b) ∷ put k a d

-- The order of texts by code points.
unfoldable pub lt_str : Str → Str → Bool
lt_str [] [] = false
lt_str [] (b ∷ t) = true
lt_str (a ∷ s) [] = false
lt_str (a ∷ s) (b ∷ t) = ltb a b || (a == b && lt_str s t)

module _ {ℓ} {A : Type ℓ} where
  unfoldable pub insert : Str × A → List (Str × A) → List (Str × A)
  unfolding lt_str
  insert e [] = e ∷ []
  insert e (x ∷ d) = if lt_str x.0 e.0 then x ∷ insert e d else e ∷ x ∷ d

  -- `sorted(d.items())`: keys differ, so the items are never compared further
  unfoldable pub sorted : List (Str × A) → List (Str × A)
  unfolding insert
  sorted [] = []
  sorted (e ∷ d) = insert e (sorted d)
