-- ===== src/Envelope/Closed.antt =====
-- Which texts `decode_signature` accepts: base64url without padding is canonical exactly when the last
-- of the 86 characters leaves its four spare bits at 0.
use flop_contributions.Prelude.{
  ℕ, zero, suc, ◌+◌, ◌*◌, ◌/◌, ◌%◌, ◌<◌, ◌≡◌, refl, sym, ap, ◌∙◌, ◌↔◌, Bool, true, false, ◌&&◌,
  some, [], ◌∷◌, length, all, arith, leb, ◌==◌, Option-cases, inl, inr,
}
use flop_contributions.Outcome.{ok, or_fail, >>=-eq-ok, require-eq-ok, some-or_fail}
use flop_contributions.Text.{
  Str, Bytes, eq_str, run_of, run_then, is_base64url, is_closing, is_closed_signature,
}
use flop_contributions.Text.Laws.{eq_str→≡, eq_str_refl}
use flop_contributions.Base64.{sextet, letter, decode_groups, encode_groups}
use flop_contributions.Envelope.{decode_signature}

letter-sextet : (c : ℕ) → is_base64url c ≡ true → (letter (sextet c) ≡ c) × (sextet c < 64)
unfolding letter sextet
letter-sextet c h = ground arith

-- The second of two last characters is given back exactly when its four spare bits are 0.
closing_bits :
    (c : ℕ) → is_base64url c ≡ true → (letter (sextet c / 16 * 16) ≡ c) ↔ (is_closing c ≡ true)
unfolding letter sextet
closing_bits c h = ground arith

closing_class : (c : ℕ) → is_closing c ≡ true → is_base64url c ≡ true
closing_class c h = ground arith

-- The three bytes of four characters, and the four characters of three bytes.
group_bits :
    (a b c d : ℕ)
    → a < 64
    → b < 64
    → c < 64
    → d < 64
    → ((a * 4 + b / 16) / 4 ≡ a)
      × ((a * 4 + b / 16) % 4 * 16 + (b % 16 * 16 + c / 4) / 16 ≡ b)
      × ((b % 16 * 16 + c / 4) % 16 * 4 + (c % 4 * 64 + d) / 64 ≡ c)
      × ((c % 4 * 64 + d) % 64 ≡ d)
group_bits a b c d ha hb hc hd = (omega arith, omega arith, omega arith, omega arith)

abbrev group : ℕ → ℕ → ℕ → ℕ → Bytes → Bytes
group a b c d rest =
    (sextet a * 4 + sextet b / 16)
    ∷ (sextet b % 16 * 16 + sextet c / 4)
    ∷ (sextet c % 4 * 64 + sextet d)
    ∷ rest

encode-group :
    (a b c d : ℕ) (rest : Bytes)
    → is_base64url a ≡ true
    → is_base64url b ≡ true
    → is_base64url c ≡ true
    → is_base64url d ≡ true
    → encode_groups (group a b c d rest) ≡ a ∷ b ∷ c ∷ d ∷ encode_groups rest
unfolding encode_groups
encode-group a b c d rest ha hb hc hd =
    let (la, sa) = letter-sextet a ha in
    let (lb, sb) = letter-sextet b hb in
    let (lc, sc) = letter-sextet c hc in
    let (ld, sd) = letter-sextet d hd in
    let (ea, eb, ec, ed) = group_bits (sextet a) (sextet b) (sextet c) (sextet d) sa sb sc sd in
    rw (ea, eb, ec, ed, la, lb, lc, ld)

encode-last :
    (a b : ℕ)
    → is_base64url a ≡ true
    → is_base64url b ≡ true
    → encode_groups ((sextet a * 4 + sextet b / 16) ∷ []) ≡ a ∷ letter (sextet b / 16 * 16) ∷ []
unfolding encode_groups
encode-last a b ha hb =
    let (la, sa) = letter-sextet a ha in
    let (lb, sb) = letter-sextet b hb in
    let ea : (sextet a * 4 + sextet b / 16) / 4 ≡ sextet a = omega (arith, sa, sb) in
    let eb : (sextet a * 4 + sextet b / 16) % 4 * 16 ≡ sextet b / 16 * 16 = omega (arith, sa, sb) in
    rw (ea, eb, la)

and_true : (a b : Bool) → (a && b) ≡ true → (a ≡ true) × (b ≡ true)
and_true true b h = (refl, h)
and_true false b h = cc

-- What a text of `n` characters of the alphabet and a closing one decodes to.
abbrev Decodes : ℕ → Str → Type 0
Decodes n s =
    (raw : Bytes) × (decode_groups s ≡ some raw)
    × (encode_groups raw ≡ s)
    × (4 * length raw ≡ 3 * n + 1)

closed-Decodes :
    (n : ℕ) (s : Str) → n % 4 ≡ 1 → run_then is_base64url n is_closing s ≡ true → Decodes n s
unfolding run_then decode_groups
closed-Decodes zero s m h = absurd (omega (arith, m))
closed-Decodes (suc zero) (a ∷ b ∷ []) m h =
    let (ha, hb) = and_true (is_base64url a) (is_closing b) h in
    let cb = closing_class b hb in
    (
      (sextet a * 4 + sextet b / 16) ∷ [],
      refl,
      encode-last a b ha cb ∙ ap (λ x. a ∷ x ∷ []) ((closing_bits b cb).1 hb),
      omega arith,
    )
closed-Decodes (suc zero) _ m h = ground arith
closed-Decodes (suc (suc zero)) s m h = absurd (omega (arith, m))
closed-Decodes (suc (suc (suc zero))) s m h = absurd (omega (arith, m))
closed-Decodes (suc (suc (suc (suc n)))) (a ∷ b ∷ c ∷ d ∷ s) m h =
    let (ha, h₁) = and_true (is_base64url a) _ h in
    let (hb, h₂) = and_true (is_base64url b) _ h₁ in
    let (hc, h₃) = and_true (is_base64url c) _ h₂ in
    let (hd, h₄) = and_true (is_base64url d) _ h₃ in
    let (rest, decoded, same, count) = closed-Decodes n s (omega (arith, m)) h₄ in
    (
      group a b c d rest,
      rw decoded,
      encode-group a b c d rest ha hb hc hd ∙ ap (λ t. a ∷ b ∷ c ∷ d ∷ t) same,
      omega (arith, count),
    )
closed-Decodes (suc (suc (suc (suc n)))) _ m h = ground arith

decoded_group :
    (a b c d : ℕ) (s : Str) (raw : Bytes)
    → decode_groups (a ∷ b ∷ c ∷ d ∷ s) ≡ some raw
    → (rest : Bytes) × (decode_groups s ≡ some rest) × (raw ≡ group a b c d rest)
unfolding decode_groups
decoded_group a b c d s raw h = elim (Option-cases (decode_groups s)) [
  | inl e ↦ cc (rw e at h)
  | inr (rest, e) ↦ (rest, e, cc (rw e at h))
]

-- A text of the alphabet that decoding and encoding gives back has a closing character.
same-closed :
    (n : ℕ) (s : Str) (raw : Bytes)
    → n % 4 ≡ 1
    → length s ≡ n + 1
    → all is_base64url s ≡ true
    → decode_groups s ≡ some raw
    → encode_groups raw ≡ s
    → run_then is_base64url n is_closing s ≡ true
unfolding run_then decode_groups
same-closed zero s raw m l h d e = absurd (omega (arith, m))
same-closed (suc zero) (a ∷ b ∷ []) raw m l h d e =
    let (ha, h₁) = and_true (is_base64url a) _ h in
    let (hb, h₂) = and_true (is_base64url b) _ h₁ in
    let r : raw ≡ (sextet a * 4 + sextet b / 16) ∷ [] = cc d in
    let t : a ∷ letter (sextet b / 16 * 16) ∷ [] ≡ a ∷ b ∷ [] =
      sym (encode-last a b ha hb) ∙ (rw (sym r) e) in
    let closes = (closing_bits b hb).0 (cc t) in rw (ha, closes)
same-closed (suc zero) [] raw m l h d e = absurd (omega (arith, l))
same-closed (suc zero) (a ∷ []) raw m l h d e = absurd (omega (arith, l))
same-closed (suc zero) (a ∷ b ∷ c ∷ s) raw m l h d e = absurd (omega (arith, l))
same-closed (suc (suc zero)) s raw m l h d e = absurd (omega (arith, m))
same-closed (suc (suc (suc zero))) s raw m l h d e = absurd (omega (arith, m))
same-closed (suc (suc (suc (suc n)))) (a ∷ b ∷ c ∷ d ∷ s) raw m l h decoded e =
    let (ha, h₁) = and_true (is_base64url a) _ h in
    let (hb, h₂) = and_true (is_base64url b) _ h₁ in
    let (hc, h₃) = and_true (is_base64url c) _ h₂ in
    let (hd, h₄) = and_true (is_base64url d) _ h₃ in
    let (rest, inner, r) = decoded_group a b c d s raw decoded in
    let t : a ∷ b ∷ c ∷ d ∷ encode_groups rest ≡ a ∷ b ∷ c ∷ d ∷ s =
      sym (encode-group a b c d rest ha hb hc hd) ∙ (rw (sym r) e) in
    rw (ha, hb, hc, hd) (same-closed n s rest (omega (arith, m)) (omega (arith, l)) h₄ inner (cc t))
same-closed (suc (suc (suc (suc n)))) [] raw m l h d e = absurd (omega (arith, l))
same-closed (suc (suc (suc (suc n)))) (a ∷ []) raw m l h d e = absurd (omega (arith, l))
same-closed (suc (suc (suc (suc n)))) (a ∷ b ∷ []) raw m l h d e = absurd (omega (arith, l))
same-closed (suc (suc (suc (suc n)))) (a ∷ b ∷ c ∷ []) raw m l h d e = absurd (omega (arith, l))

closed-class :
    (n : ℕ) (s : Str)
    → run_then is_base64url n is_closing s ≡ true
    → (length s ≡ n + 1) × (all is_base64url s ≡ true)
unfolding run_then
closed-class n [] h = ground arith
closed-class zero (c ∷ []) h = ground (arith, closing_class c)
closed-class zero (c ∷ d ∷ s) h = ground arith
closed-class (suc n) (c ∷ s) h = ground (arith, closed-class n s)

exact_length : (n m : ℕ) → (leb (n + 1) m && leb m (n + 1)) ≡ true → m ≡ n + 1
exact_length n m h = ground arith

length_exact : (n m : ℕ) → m ≡ n + 1 → (leb (n + 1) m && leb m (n + 1)) ≡ true
length_exact n m h = ground arith

==-true : (a b : ℕ) → a ≡ b → (a == b) ≡ true
==-true a b h = ground arith

-- `decode_signature` returns exactly for the texts that the pattern `^[A-Za-z0-9_-]{85}[AQgw]$` of the
-- mailbox review accepts, and then returns 64 bytes.
pub decode_signature-closed :
    (value : Str)
    → ((raw : Bytes) × (decode_signature value ≡ ok raw) × (length raw ≡ 64))
      ↔ (is_closed_signature value ≡ true)
unfolding decode_signature run_of is_closed_signature
decode_signature-closed value = (
  λ (raw, h, n).
      let (run, h₁) = require-eq-ok (run_of is_base64url 86 86 value) _ _ h in
      let (signature, decoded, h₂) = >>=-eq-ok (or_fail (decode_groups value) _) _ h₁ in
      let (bytes, h₃) = require-eq-ok (length signature == 64) _ _ h₂ in
      let (same, h₄) = require-eq-ok (eq_str (encode_groups signature) value) _ _ h₃ in
      let (short, rest) = and_true (leb 86 (length value) && leb (length value) 86) _ run in
      same-closed 85 value signature (omega arith) (exact_length 85 (length value) short) rest
        (some-or_fail _ _ decoded) (eq_str→≡ _ _ same),
  λ h.
      let (raw, decoded, same, count) = closed-Decodes 85 value (omega arith) h in
      let (long, class) = closed-class 85 value h in
      let n : length raw ≡ 64 = omega (arith, count) in
      let again : eq_str (encode_groups raw) value ≡ true = rw same (eq_str_refl value) in
      (
        raw,
        rw (length_exact 85 (length value) long, class, decoded, ==-true (length raw) 64 n, again),
        n,
      ),
)
