-- ===== src/CloseCall/Agree.antt =====
-- Where the loop over the sweeps ends, the rooms hold the same list of commitments.
use flop_contributions.Prelude.{
  ℕ, zero, suc, ◌+◌, ◌≤◌, ◌<◌, ◌≡◌, refl, sym, ap, ◌∙◌, true, false, Option, none, some, List, [],
  ◌∷◌, arith, all, All, length, ◌==◌, ==_iff, Bool-cases, inl, inr,
}
use flop_contributions.Outcome.{ok, err, key_error, >>=-eq-ok, guard-eq-ok, ok-injective}
use flop_contributions.Text.{Str, eq_str}
use flop_contributions.Text.Laws.{eq_str→≡, eq_str_refl}
use flop_contributions.CloseCall.Exports.{Room}
use flop_contributions.CloseCall.Evidence.{latest_of, sweep_at, commitments, all_same, agree_from}

-- Lists of one length with the same elements are equal.
same_lists :
    (xs ys : List Str)
    → length xs ≡ length ys
    → ((i : ℕ) → i < length xs → sweep_at xs i ≡ sweep_at ys i)
    → xs ≡ ys
unfolding sweep_at
same_lists [] [] h f = refl
same_lists [] (y ∷ ys) h f = absurd (omega (arith, h))
same_lists (x ∷ xs) [] h f = absurd (omega (arith, h))
same_lists (x ∷ xs) (y ∷ ys) h f =
    let head : x ≡ y = cc (f 0 (omega arith)) in
    let tail : xs ≡ ys =
      same_lists xs ys (omega (arith, h)) (λ i b. f (suc i) (omega (arith, b))) in
    cc (head, tail)

-- The sweep behind the first `i` has one commitment in all rooms.
abbrev OneAt : ℕ → List Room → Type 0
OneAt i rooms = (hashes : List Str) × (commitments i rooms ≡ ok hashes) × (all_same hashes ≡ true)

agree_from-OneAt :
    (count i : ℕ) (rooms : List Room)
    → agree_from count i rooms ≡ ok tt
    → (j : ℕ) → i ≤ j
    → j < i + count
    → OneAt j rooms
unfolding agree_from
agree_from-OneAt zero i rooms h j below above = absurd (omega (arith, below, above))
agree_from-OneAt (suc count) i rooms h j below above =
    let (hashes, found, h₁) = >>=-eq-ok (commitments i rooms) _ h in
    let (same, h₂) = guard-eq-ok (all_same hashes) _ _ h₁ in
    elim (Bool-cases (i == j)) [
      | inl e ↦
          let here : i ≡ j = (==_iff i j).0 e in
          (hashes, cc (found, ap (λ k. commitments k rooms) here), same)
      | inr e ↦ agree_from-OneAt count (suc i) rooms h₂ j (later i j below e) (omega (arith, above))
    ]
  where
    later : (i j : ℕ) → i ≤ j → (i == j) ≡ false → suc i ≤ j
    later i j b e = ground arith

commitments-All :
    (j : ℕ) (h : Str) (rooms : List Room) (hashes : List Str)
    → commitments j rooms ≡ ok hashes
    → all (λ g. eq_str g h) hashes ≡ true
    → All (λ (r : Room). sweep_at r.1 j ≡ some h) rooms
unfolding commitments
commitments-All j h [] hashes e a = tt
commitments-All j h ((room, sweeps, lines) ∷ rooms) hashes e a =
    let (one, found, e₁) =
      >>=-eq-ok (elim (sweep_at sweeps j) [ none ↦ err key_error | some g ↦ ok g ]) _ e in
    let (more, rest, e₂) = >>=-eq-ok (commitments j rooms) _ e₁ in
    let shaped : one ∷ more ≡ hashes = ok-injective e₂ in
    let (first, others) = both one more (cc (ap (all (λ g. eq_str g h)) shaped, a)) in
    (
      looked (sweep_at sweeps j) one found ∙ ap some (eq_str→≡ one h first),
      commitments-All j h rooms more rest others,
    )
  where
    both :
        (g : Str) (gs : List Str)
        → all (λ g. eq_str g h) (g ∷ gs) ≡ true
        → (eq_str g h ≡ true) × (all (λ g. eq_str g h) gs ≡ true)
    both g gs e = elim (Bool-cases (eq_str g h)) [ inl f ↦ (f, rw f at e) | inr f ↦ cc (rw f at e) ]

    looked :
        (o : Option Str) (g : Str)
        → elim o [ none ↦ err key_error | some k ↦ ok k ] ≡ ok g
        → o ≡ some g
    looked none g e = cc
    looked (some k) g e = ap some (ok-injective e)

-- Every room holds what the first one does at the sweep.
OneAt-All :
    (j : ℕ) (room : Str) (sweeps : List Str) (lines : ℕ) (rooms : List Room)
    → OneAt j ((room, sweeps, lines) ∷ rooms)
    → All (λ (r : Room). sweep_at r.1 j ≡ sweep_at sweeps j) rooms
unfolding all_same
OneAt-All j room sweeps lines rooms ([], found, same) = cc
OneAt-All j room sweeps lines rooms (h ∷ hs, found, same) =
    let (first, rest) =
      commitments-All j h ((room, sweeps, lines) ∷ rooms) (h ∷ hs) found
        (rw (eq_str_refl h, same)) in
    moved rooms first rest
  where
    moved :
        (rooms : List Room)
        → sweep_at sweeps j ≡ some h
        → All (λ (r : Room). sweep_at r.1 j ≡ some h) rooms
        → All (λ (r : Room). sweep_at r.1 j ≡ sweep_at sweeps j) rooms
    moved [] e rest = tt
    moved (r ∷ rs) e (one, more) = (one ∙ sym e, moved rs e more)

equal_lists :
    (sweeps : List Str) (rooms : List Room)
    → all (λ (r : Room). length r.1 == length sweeps) rooms ≡ true
    → ((j : ℕ) → j < length sweeps → All (λ (r : Room). sweep_at r.1 j ≡ sweep_at sweeps j) rooms)
    → All (λ (r : Room). r.1 ≡ sweeps) rooms
equal_lists sweeps [] e f = tt
equal_lists sweeps (r ∷ rs) e f = elim (Bool-cases (length r.1 == length sweeps)) [
  | inl g ↦
      let same : length r.1 ≡ length sweeps = (==_iff (length r.1) (length sweeps)).0 g in
      (
        same_lists r.1 sweeps same (λ j b. (f j (omega (arith, same, b))).0),
        equal_lists sweeps rs (rw g at e) (λ j b. (f j b).1),
      )
  | inr g ↦ cc (rw g at e)
]

-- Rooms that pass both tests hold one list, of the length that is returned.
pub agree_from-All :
    (rooms : List Room) (latest : ℕ)
    → latest_of rooms ≡ some latest
    → agree_from latest 0 rooms ≡ ok tt
    → (hashes : List Str) × (length hashes ≡ latest) × All (λ (r : Room). r.1 ≡ hashes) rooms
unfolding latest_of
agree_from-All [] latest h a = cc
agree_from-All ((room, sweeps, lines) ∷ rooms) latest h a =
    elim (Bool-cases (all (λ (r : Room). length r.1 == length sweeps) rooms)) [
      | inr e ↦ cc (rw e at h)
      | inl e ↦
          let same : length sweeps ≡ latest = cc (rw e at h) in
          (
            sweeps,
            same,
            (
              refl,
              equal_lists sweeps rooms e (λ j b. OneAt-All j room sweeps lines rooms (
                  agree_from-OneAt latest 0 ((room, sweeps, lines) ∷ rooms) a j (omega arith)
                    (omega (arith, same, b)))),
            ),
          )
    ]
