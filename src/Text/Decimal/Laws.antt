-- ===== src/Text/Decimal/Laws.antt =====
-- The decimal digits of a number denote it.
use flop_contributions.Prelude.{
  ℕ, zero, suc, ◌+◌, ◌-◌, ◌*◌, ◌/◌, ◌%◌, ◌<◌, ◌≡◌, ap, ◌∙◌, [], ◌∷◌, arith, ltb, Bool-cases, inl,
  inr,
}
use flop_contributions.Text.{Str}
use flop_contributions.Text.Decimal.{decimal_from, decimal}

-- The number whose decimal digits are the characters, behind `n`.
abbrev pub digits_value : ℕ → Str → ℕ
digits_value n [] = n
digits_value n (c ∷ s) = digits_value (n * 10 + (c - b'0')) s

digits_value-decimal_from :
    (fuel n : ℕ) (acc : Str)
    → n < fuel
    → digits_value 0 (decimal_from fuel n acc) ≡ digits_value n acc
unfolding decimal_from
digits_value-decimal_from zero n acc h = absurd (omega (arith, h))
digits_value-decimal_from (suc fuel) n acc h = elim (Bool-cases (ltb n 10)) [
  | inl e ↦ rw e (ap (λ k. digits_value k acc) (omega arith))
  | inr e ↦ rw e (
      digits_value-decimal_from fuel (n / 10) ((b'0' + n % 10) ∷ acc) (ground arith)
      ∙ ap (λ k. digits_value k acc) (omega arith))
]

-- Reading the printed digits of a number gives the number back, so two numbers print differently.
pub digits_value-decimal : (n : ℕ) → digits_value 0 (decimal n) ≡ n
unfolding decimal
digits_value-decimal n = digits_value-decimal_from (suc n) n [] (omega arith)
