-- ===== src/Tclk/Transport/Material.antt =====
-- The signed text of a message can be read in one way only.
use mathlib.Core.List.{append_assoc}
use flop_contributions.Prelude.{
  ℕ, zero, suc, ℤ, pos, negsuc, ◌≡◌, ◌≢◌, ◌∙◌, refl, ap, sym, Bool, true, false, ◌&&◌, ◌||◌, ◌==◌,
  ◌⊎◌, all, leb, length, ◌++◌, [], ◌∷◌, arith, ltb, Bool-cases, inl, inr, ◌<◌, ◌+◌, ◌%◌, ◌/◌,
}
use flop_contributions.Text.{Str, codes, is_room, head_then, run_of, is_lower_alnum}
use flop_contributions.Text.Decimal.{decimal_from, decimal, decimal_ℤ}
use flop_contributions.Text.Decimal.Laws.{digits_value, digits_value-decimal}
use flop_contributions.Tclk.Transport.{envelope}

and_first : (a b : Bool) → (a && b) ≡ true → a ≡ true
and_first true b h = refl
and_first false b h = cc

and_second : (a b : Bool) → (a && b) ≡ true → b ≡ true
and_second true b h = h
and_second false b h = cc

-- No character of the text is the given one.
abbrev Without : ℕ → Str → Type 0
Without x [] = Unit
Without x (c ∷ s) = (c ≢ x) × Without x s

-- Texts without a character, each in front of it, are the same if the wholes are.
Without-split :
    (x : ℕ) (a b s t : Str)
    → Without x a
    → Without x b
    → a ++ (x ∷ s) ≡ b ++ (x ∷ t)
    → (a ≡ b) × (s ≡ t)
Without-split x [] [] s t f g e = (refl, cc)
Without-split x [] (c ∷ b) s t f g e = let k : c ≡ x = cc in absurd (g.0 k)
Without-split x (c ∷ a) [] s t f g e = let k : c ≡ x = cc in absurd (f.0 k)
Without-split x (c ∷ a) (d ∷ b) s t f g e =
    let (h, k) = Without-split x a b s t f.1 g.1 cc in let j : c ≡ d = cc in (cc, k)

all-Without : (f : ℕ → Bool) (x : ℕ) → f x ≡ false → (s : Str) → all f s ≡ true → Without x s
all-Without f x out [] h = tt
all-Without f x out (c ∷ s) h = (
  λ k. let j : f c ≡ f x = ap f k in cc (j, out, and_first (f c) (all f s) h),
  all-Without f x out s (and_second (f c) (all f s) h),
)

is_room-Without : (room : Str) → is_room room ≡ true → Without b'|' room
unfolding is_room head_then run_of
is_room-Without [] h = tt
is_room-Without (c ∷ s) h = (
  λ k.
      let j : is_lower_alnum c ≡ is_lower_alnum b'|' = ap is_lower_alnum k in
      cc (j, and_first (is_lower_alnum c) _ h),
  all-Without (λ d. is_lower_alnum d || d == b'_' || d == b'-') b'|' refl s
      (and_second (leb 0 (length s) && leb (length s) 47) _ (ground (arith, h))),
)

decimal_from-Without :
    (x : ℕ)
    → x < b'0' ⊎ b'9' < x
    → (fuel n : ℕ) (acc : Str) → Without x acc
    → Without x (decimal_from fuel n acc)
unfolding decimal_from
decimal_from-Without x o zero n acc h = h
decimal_from-Without x o (suc fuel) n acc h = elim (Bool-cases (ltb n 10)) [
  | inl e ↦ rw e (λ k. ground (arith, o, e, k), h)
  | inr e ↦ rw e (
      decimal_from-Without x o fuel (n / 10) ((b'0' + n % 10) ∷ acc) (λ k. ground (arith, o, k), h))
]

decimal-Without : (x : ℕ) → x < b'0' ⊎ b'9' < x → (n : ℕ) → Without x (decimal n)
unfolding decimal
decimal-Without x o n = decimal_from-Without x o (suc n) n [] tt

decimal_ℤ-Without : (n : ℤ) → Without b'|' (decimal_ℤ n)
unfolding decimal_ℤ
decimal_ℤ-Without (pos n) = decimal-Without b'|' (inr (omega arith)) n
decimal_ℤ-Without (negsuc n) =
    ((λ k. omega (arith, k)), decimal-Without b'|' (inr (omega arith)) (suc n))

decimal-injective : (m n : ℕ) → decimal m ≡ decimal n → m ≡ n
decimal-injective m n e =
    sym (digits_value-decimal m) ∙ ap (digits_value 0) e ∙ digits_value-decimal n

minus-first : (n : ℕ) (s : Str) → decimal n ≡ b'-' ∷ s → ⊥
minus-first n s e = go (decimal n) (decimal-Without b'-' (inl (omega arith)) n) e
  where
    go : (t : Str) → Without b'-' t → t ≡ b'-' ∷ s → ⊥
    go [] f h = cc
    go (c ∷ t) f h = f.0 cc

decimal_ℤ-injective : (m n : ℤ) → decimal_ℤ m ≡ decimal_ℤ n → m ≡ n
unfolding decimal_ℤ
decimal_ℤ-injective (pos m) (pos n) e = ap pos (decimal-injective m n e)
decimal_ℤ-injective (pos m) (negsuc n) e = absurd (minus-first m _ e)
decimal_ℤ-injective (negsuc m) (pos n) e = absurd (minus-first n _ (sym e))
decimal_ℤ-injective (negsuc m) (negsuc n) e =
    let k : suc m ≡ suc n = decimal-injective (suc m) (suc n) cc in ap negsuc (omega (arith, k))

envelope-joined :
    (room text : Str) (nonce : ℤ)
    → envelope room nonce text ≡ room ++ (b'|' ∷ (decimal_ℤ nonce ++ (b'|' ∷ text)))
unfolding envelope
envelope-joined room text nonce =
    append_assoc ((room ++ codes "|") ++ decimal_ℤ nonce) (codes "|") text
    ∙ append_assoc (room ++ codes "|") (decimal_ℤ nonce) (b'|' ∷ text)
    ∙ append_assoc room (codes "|") (decimal_ℤ nonce ++ (b'|' ∷ text))

-- Two messages have the same signed text only where their rooms, both as the command line takes them,
-- their nonces and their texts are the same.
pub envelope-injective :
    (room room' : Str) (nonce nonce' : ℤ) (text text' : Str)
    → is_room room ≡ true
    → is_room room' ≡ true
    → envelope room nonce text ≡ envelope room' nonce' text'
    → (room ≡ room') × (nonce ≡ nonce') × (text ≡ text')
envelope-injective room room' nonce nonce' text text' h h' e =
    let (same, rest) =
      Without-split b'|' room room' (decimal_ℤ nonce ++ (b'|' ∷ text))
        (decimal_ℤ nonce' ++ (b'|' ∷ text')) (is_room-Without room h) (is_room-Without room' h')
        (sym (envelope-joined room text nonce) ∙ e ∙ envelope-joined room' text' nonce') in
    let (digits, k) =
      Without-split b'|' (decimal_ℤ nonce) (decimal_ℤ nonce') text text' (decimal_ℤ-Without nonce)
        (decimal_ℤ-Without nonce') rest in
    (same, decimal_ℤ-injective nonce nonce' digits, k)
