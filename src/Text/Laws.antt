-- ===== src/Text/Laws.antt =====
-- What the tests on texts decide.
use flop_contributions.Prelude.{◌≡◌, refl, ap, ◌↔◌, true, [], ◌∷◌, ◌++◌, length, drop, arith}
use flop_contributions.Text.{Str, eq_str, starts_with}

pub eq_str_refl : (s : Str) → eq_str s s ≡ true
unfolding eq_str
eq_str_refl [] = refl
eq_str_refl (a ∷ s) = ground (arith, eq_str_refl s)

pub eq_str→≡ : (s t : Str) → eq_str s t ≡ true → s ≡ t
unfolding eq_str
eq_str→≡ [] [] h = refl
eq_str→≡ [] (b ∷ t) h = cc
eq_str→≡ (a ∷ s) [] h = cc
eq_str→≡ (a ∷ s) (b ∷ t) h = ground (arith, eq_str→≡ s t)

pub eq_str_iff : (s t : Str) → (eq_str s t ≡ true) ↔ (s ≡ t)
eq_str_iff s t = (eq_str→≡ s t, λ e. cc (ap (eq_str s) e, eq_str_refl s))

-- What starts with a prefix is the prefix and what is left behind it.
pub starts_with-append-drop :
    (p text : Str) → starts_with p text ≡ true → p ++ drop (length p) text ≡ text
unfolding starts_with
starts_with-append-drop [] text h = refl
starts_with-append-drop (a ∷ p) [] h = cc
starts_with-append-drop (a ∷ p) (b ∷ text) h = ground (arith, starts_with-append-drop p text)
