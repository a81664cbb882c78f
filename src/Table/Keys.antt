-- ===== src/Table/Keys.antt =====
-- Tables in which no key stands twice: assignment and `sorted` keep them so.
use flop_contributions.Prelude.{
  ◌≡◌, ◌∙◌, refl, ap, sym, none, some, List, [], ◌∷◌, arith, inl, inr, Bool-cases, if◌then◌else◌,
}
use flop_contributions.Text.{Str, eq_str}
use flop_contributions.Text.Laws.{eq_str_iff}
use flop_contributions.Text.Membership.{In, Distinct}
use flop_contributions.Table.{find, put, lt_str, insert, sorted}
use flop_contributions.Table.Laws.{find-put}

module _ {ℓ} {A : Type ℓ} where
  -- The keys, in order.
  abbrev pub keys : List (Str × A) → List Str
  keys [] = []
  keys ((j, a) ∷ d) = j ∷ keys d

  abbrev pub Apart : List (Str × A) → Type ℓ
  Apart [] = Unit
  Apart ((j, a) ∷ d) = (find j d ≡ none) × Apart d

  pub put-Apart : (k : Str) (a : A) (d : List (Str × A)) → Apart d → Apart (put k a d)
  unfolding find put
  put-Apart k a [] h = (refl, tt)
  put-Apart k a ((j, b) ∷ d) h = elim (Bool-cases (eq_str j k)) [
    | inl e ↦ rw e h
    | inr e ↦ rw e (
      ground (arith, h.0, e, find-put k j a d, eq_str_iff k j, eq_str_iff j k),
      put-Apart k a d h.1,
    )
  ]

  find-insert :
      (k j : Str) (a : A) (d : List (Str × A))
      → find k d ≡ none
      → find j (insert (k, a) d) ≡ (if eq_str k j then some a else find j d)
  unfolding find insert
  find-insert k j a [] h = refl
  find-insert k j a ((i, b) ∷ d) h = elim (Bool-cases (lt_str i k)) [
    | inl e ↦
        rw e
          (ground (arith, h, eq_str_iff k j, eq_str_iff i k, eq_str_iff i j, find-insert k j a d))
    | inr e ↦ rw e refl
  ]

  insert-Apart :
      (k : Str) (a : A) (d : List (Str × A)) → find k d ≡ none → Apart d → Apart (insert (k, a) d)
  unfolding find insert
  insert-Apart k a [] f h = (refl, tt)
  insert-Apart k a ((i, b) ∷ d) f h = elim (Bool-cases (lt_str i k)) [
    | inl e ↦
        let g : find k d ≡ none = ground (arith, f) in
        rw e (
          ground (arith, f, h.0, find-insert k i a d g, eq_str_iff k i, eq_str_iff i k),
          insert-Apart k a d g h.1,
        )
    | inr e ↦ rw e (f, h)
  ]

  pub sorted-find-Apart :
      (d : List (Str × A)) → Apart d → ((j : Str) → find j (sorted d) ≡ find j d) × Apart (sorted d)
  unfolding find sorted
  sorted-find-Apart [] h = (λ j. refl, tt)
  sorted-find-Apart ((k, a) ∷ d) h =
      let (same, apart) = sorted-find-Apart d h.1 in
      let free : find k (sorted d) ≡ none = same k ∙ h.0 in
      (
        λ j.
            find-insert k j a (sorted d) free ∙ ap (λ o. if eq_str k j then some a else o) (same j),
        insert-Apart k a (sorted d) free apart,
      )

  pub find-In : (k : Str) (a : A) (d : List (Str × A)) → find k d ≡ some a → In k (keys d)
  unfolding find
  find-In k a [] h = cc
  find-In k a ((j, b) ∷ d) h = elim (Bool-cases (eq_str j k)) [
    | inl e ↦ inl (sym ((eq_str_iff j k).0 e))
    | inr e ↦ inr (find-In k a d (rw e at h))
  ]

  In-find : (k : Str) (d : List (Str × A)) → find k d ≡ none → In k (keys d) → ⊥
  unfolding find
  In-find k [] h i = i
  In-find k ((j, b) ∷ d) h (inl e) = ground (arith, h, e, eq_str_iff j k)
  In-find k ((j, b) ∷ d) h (inr i) = In-find k d (ground (arith, h)) i

  pub Apart-Distinct : (d : List (Str × A)) → Apart d → Distinct (keys d)
  Apart-Distinct [] h = tt
  Apart-Distinct ((j, b) ∷ d) h = (In-find j d h.0, Apart-Distinct d h.1)
