-- ===== src/Base58/Laws.antt =====
-- What `base58_decode` returns: the bytes of the number that the characters denote, behind one zero
-- byte for each leading "1".
use mathlib.Core.Path.{subst}
use mathlib.Core.List.{append_assoc, append-nil}
use flop_contributions.Prelude.{
  ==_iff, ◌≢◌, refl, Option, none, some, ℕ, zero, suc, ◌+◌, ◌*◌, ◌/◌, ◌%◌, ◌≤◌, ◌<◌, ◌≡◌, sym, ap,
  ◌∙◌, [], ◌∷◌, ◌++◌, replicate, arith, ◌==◌, Bool-cases, Option-cases, inl, inr, All,
}
use flop_contributions.Outcome.{ok, >>=-eq-ok, ok-injective}
use flop_contributions.Text.{Str, Bytes, codes}
use flop_contributions.Base58.{
  alphabet, index_of, number_of, to_bytes_from, to_bytes, leading_ones, base58_decode,
}

-- The number whose digits in base 256 are the bytes, behind `n`.
abbrev pub big_endian : ℕ → Bytes → ℕ
big_endian n [] = n
big_endian n (b ∷ bs) = big_endian (n * 256 + b) bs

big_endian-to_bytes_from :
    (fuel n : ℕ) (acc : Bytes)
    → n ≤ fuel
    → big_endian 0 (to_bytes_from fuel n acc) ≡ big_endian n acc
unfolding to_bytes_from
big_endian-to_bytes_from zero n acc h = ap (λ k. big_endian k acc) (omega (arith, h))
big_endian-to_bytes_from (suc fuel) n acc h = elim (Bool-cases (n == 0)) [
  | inl e ↦ rw e (ap (λ k. big_endian k acc) (ground arith))
  | inr e ↦ rw e (
      big_endian-to_bytes_from fuel (n / 256) ((n % 256) ∷ acc) (ground arith)
      ∙ ap (λ k. big_endian k acc) (omega arith))
]

-- No zero byte in front.
abbrev pub NoZeroHead : Bytes → Type 0
NoZeroHead [] = Unit
NoZeroHead (b ∷ bs) = 0 < b

abbrev pub AllBytes : Bytes → Type 0
AllBytes = All (λ b. b < 256)

to_bytes_from-NoZeroHead :
    (fuel n : ℕ) (acc : Bytes)
    → n ≤ fuel
    → (n ≡ 0 → NoZeroHead acc)
    → NoZeroHead (to_bytes_from fuel n acc)
unfolding to_bytes_from
to_bytes_from-NoZeroHead zero n acc h a = a (omega (arith, h))
to_bytes_from-NoZeroHead (suc fuel) n acc h a = elim (Bool-cases (n == 0)) [
  | inl e ↦ rw e (a (ground arith))
  | inr e ↦
      rw e (
        to_bytes_from-NoZeroHead fuel (n / 256) ((n % 256) ∷ acc) (ground arith)
          (λ z. ground arith))
]

to_bytes_from-AllBytes :
    (fuel n : ℕ) (acc : Bytes) → AllBytes acc → AllBytes (to_bytes_from fuel n acc)
unfolding to_bytes_from
to_bytes_from-AllBytes zero n acc a = a
to_bytes_from-AllBytes (suc fuel) n acc a = elim (Bool-cases (n == 0)) [
  | inl e ↦ rw e a
  | inr e ↦ rw e (to_bytes_from-AllBytes fuel (n / 256) ((n % 256) ∷ acc) (omega arith, a))
]

-- The character at a place.
abbrev pub char_at : Str → ℕ → Option ℕ
char_at [] i = none
char_at (c ∷ s) zero = some c
char_at (c ∷ s) (suc i) = char_at s i

-- The digits of base58btc, in their order.
abbrev pub digits58 : Str
digits58 = codes "123456789ABCDEFGHJKLMNPQRSTUVWXYZabcdefghijkmnopqrstuvwxyz"

-- The number that a text denotes in base 58: its last digit counts once, the others 58 times.
pub data Denotes : Str → ℕ → Type 0 where
  empty : Denotes [] 0
  digit :
      {s : Str} {n : ℕ} (c d : ℕ)
      → Denotes s n
      → char_at digits58 d ≡ some c
      → Denotes (s ++ c ∷ []) (58 * n + d)

char_at-index_of : (c i : ℕ) (s : Str) → index_of c s ≡ some i → char_at s i ≡ some c
unfolding index_of
char_at-index_of c i [] h = cc
char_at-index_of c i (a ∷ s) h = elim (Bool-cases (a == c)) [
  | inl e ↦
      let z : zero ≡ i = cc (rw e at h) in
      subst (λ k. char_at (a ∷ s) k ≡ some c) z (ap some ((==_iff a c).0 e))
  | inr e ↦ elim (Option-cases (index_of c s)) [
    | inl missing ↦ cc (rw (e, missing) at h)
    | inr (j, found) ↦
        let k : suc j ≡ i = cc (rw (e, found) at h) in
        subst (λ k. char_at (a ∷ s) k ≡ some c) k (char_at-index_of c j s found)
  ]
]

number_of-Denotes :
    (front : Str) (k : ℕ) (s : Str) (n : ℕ)
    → Denotes front k
    → number_of k s ≡ ok n
    → Denotes (front ++ s) n
unfolding number_of
number_of-Denotes front k [] n d h =
    subst (λ m. Denotes (front ++ []) m) (ok-injective h)
      (subst (λ t. Denotes t k) (sym (append-nil front)) d)
number_of-Denotes front k (c ∷ s) n d h = elim (Option-cases (index_of c alphabet)) [
  | inl missing ↦ cc (rw (missing, number_of) at h)
  | inr (i, found) ↦
      let same : 58 * k + i ≡ k * 58 + i = omega arith in
      subst (λ t. Denotes t n) (append_assoc front (c ∷ []) s)
        (number_of-Denotes (front ++ c ∷ []) (k * 58 + i) s n
          (subst (λ m. Denotes (front ++ c ∷ []) m) same
            (digit c i d (char_at-index_of c i alphabet found)))
          (rw (found, number_of) at h))
]

-- No "1" in front.
abbrev pub NoOneHead : Str → Type 0
NoOneHead [] = Unit
NoOneHead (c ∷ s) = c ≢ b'1'

-- The ones in front of the text, and the rest.
abbrev OnesThen : Str → ℕ → Type 0
OnesThen value k = (rest : Str) × (value ≡ replicate k b'1' ++ rest) × NoOneHead rest

leading_ones-OnesThen : (value : Str) → OnesThen value (leading_ones value)
unfolding leading_ones
leading_ones-OnesThen [] = ([], refl, tt)
leading_ones-OnesThen (c ∷ s) = elim (Bool-cases (c == b'1')) [
  | inl e ↦
      let (rest, split, first) = leading_ones-OnesThen s in
      rw e (rest, cc ((==_iff c b'1').0 e, split), first)
  | inr e ↦ rw e (c ∷ s, refl, λ same. cc ((==_iff c b'1').1 same, e))
]

-- What decoded bytes are: a zero byte for each "1" in front of the text, and the digits in base 256 of
-- the number that the text denotes.
pub record IsDecoded (value : Str) (raw : Bytes) : Type 0 where
  pub number : ℕ
  pub denotes : Denotes value number
  pub ones : ℕ
  pub rest : Str
  pub in_front : value ≡ replicate ones b'1' ++ rest
  pub no_more : NoOneHead rest
  pub tail : Bytes
  pub split : raw ≡ replicate ones 0 ++ tail
  pub digits : big_endian 0 tail ≡ number
  pub shortest : NoZeroHead tail
  pub small : AllBytes tail

-- Decoding returns only for a text of base58btc digits, and gives one zero byte for each "1" in front of
-- it, and then the base-256 digits, without a zero in front, of the number that the text denotes in
-- base 58.
pub base58_decode-IsDecoded :
    (value : Str) (raw : Bytes) → base58_decode value ≡ ok raw → IsDecoded value raw
unfolding base58_decode to_bytes
base58_decode-IsDecoded value raw h =
    let (n, read, e) = >>=-eq-ok (number_of 0 value) _ h in
    let (rest, in_front, no_more) = leading_ones-OnesThen value in
    record {
      number = n;
      denotes = number_of-Denotes [] 0 value n empty read;
      ones = leading_ones value;
      rest = rest;
      in_front = in_front;
      no_more = no_more;
      tail = to_bytes_from n n [];
      split = sym (ok-injective e);
      digits = big_endian-to_bytes_from n n [] (omega arith);
      shortest = to_bytes_from-NoZeroHead n n [] (omega arith) (λ z. tt);
      small = to_bytes_from-AllBytes n n [] tt;
    }
