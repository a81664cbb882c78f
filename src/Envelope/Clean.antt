-- ===== src/Envelope/Clean.antt =====
-- What `clean_text` leaves of a text: nothing invisible and no space at an end, so that cleaning it
-- again changes nothing.
use mathlib.Core.List.{reverse, reverse-append, reverse-reverse}
use mathlib.Core.Path.{subst}
use flop_contributions.Prelude.{
  ℕ, ◌≤◌, ◌≡◌, refl, sym, ap, ◌∙◌, Bool, true, false, [], ◌∷◌, ◌++◌, map, length, All, arith, leb,
  Bool-cases, inl, inr,
}
use flop_contributions.Outcome.{ok, require-eq-ok, ok-injective}
use flop_contributions.Text.{Str, lstrip, strip}
use flop_contributions.Platform.{Platform}
use flop_contributions.Envelope.{max_text_chars, visible, clean_text}

module _ (space : ℕ → Bool) where
  -- No space in front.
  abbrev pub StartsFull : Str → Type 0
  StartsFull [] = Unit
  StartsFull (c ∷ s) = space c ≡ false

  lstrip-StartsFull : (s : Str) → StartsFull (lstrip space s)
  unfolding lstrip
  lstrip-StartsFull [] = tt
  lstrip-StartsFull (c ∷ s) = elim (Bool-cases (space c)) [
    | inl e ↦ rw e (lstrip-StartsFull s)
    | inr e ↦ rw e e
  ]

  lstrip_full : (s : Str) → StartsFull s → lstrip space s ≡ s
  unfolding lstrip
  lstrip_full [] h = refl
  lstrip_full (c ∷ s) h = rw h

  -- What is left is an end of the text.
  lstrip-suffix : (s : Str) → (front : Str) × (s ≡ front ++ lstrip space s)
  unfolding lstrip
  lstrip-suffix [] = ([], refl)
  lstrip-suffix (c ∷ s) =
      let (front, e) = lstrip-suffix s in
      elim (Bool-cases (space c)) [
        | inl h ↦ rw h (c ∷ front, ap (λ t. c ∷ t) e)
        | inr h ↦ rw h ([], refl)
      ]

  StartsFull-front : (s t : Str) → StartsFull (s ++ t) → StartsFull s
  StartsFull-front [] t h = tt
  StartsFull-front (c ∷ s) t h = h

  strip-StartsFull : (s : Str) → StartsFull (strip space s)
  unfolding strip
  strip-StartsFull s =
      let t = lstrip space s in
      let (front, e) = lstrip-suffix (reverse t) in
      let whole : t ≡ reverse (lstrip space (reverse t)) ++ reverse front =
        sym (reverse-reverse t) ∙ ap reverse e ∙ reverse-append front (lstrip space (reverse t)) in
      StartsFull-front (reverse (lstrip space (reverse t))) (reverse front)
        (subst StartsFull whole (lstrip-StartsFull s))

  strip-EndsFull : (s : Str) → StartsFull (reverse (strip space s))
  unfolding strip
  strip-EndsFull s =
      let u = lstrip space (reverse (lstrip space s)) in
      rw (reverse-reverse u) (lstrip-StartsFull (reverse (lstrip space s)))

  strip-strip : (s : Str) → strip space (strip space s) ≡ strip space s
  unfolding strip
  strip-strip s =
      let u = lstrip space (reverse (lstrip space s)) in
      ap (λ x. reverse (lstrip space (reverse x))) (lstrip_full (reverse u) (strip-StartsFull s))
      ∙ ap (λ x. reverse (lstrip space x)) (reverse-reverse u)
      ∙ ap reverse (lstrip_full u (lstrip-StartsFull (reverse (lstrip space s))))

module _ (P : ℕ → Type 0) where
  All-append : (s t : Str) → All P s → All P t → All P (s ++ t)
  All-append [] t h k = k
  All-append (c ∷ s) t h k = (h.0, All-append s t h.1 k)

  All-reverse : (s : Str) → All P s → All P (reverse s)
  All-reverse [] h = tt
  All-reverse (c ∷ s) h =
      rw (reverse-append (c ∷ []) s) (All-append (reverse s) (c ∷ []) (All-reverse s h.1) (h.0, tt))

  All-lstrip : (space : ℕ → Bool) (s : Str) → All P s → All P (lstrip space s)
  unfolding lstrip
  All-lstrip space [] h = tt
  All-lstrip space (c ∷ s) h = elim (Bool-cases (space c)) [
    | inl e ↦ rw e (All-lstrip space s h.1)
    | inr e ↦ rw e h
  ]

  All-strip : (space : ℕ → Bool) (s : Str) → All P s → All P (strip space s)
  unfolding strip
  All-strip space s h = All-reverse _ (All-lstrip space _ (All-reverse _ (All-lstrip space s h)))

-- No character is invisible.
abbrev pub AllVisible : Platform → Str → Type 0
AllVisible p = All (λ c. p.is_invisible c ≡ false)

visible-AllVisible :
    (p : Platform) (s : Str) → p.is_invisible b' ' ≡ false → AllVisible p (map (visible p) s)
visible-AllVisible p [] h = tt
visible-AllVisible p (c ∷ s) h = elim (Bool-cases (p.is_invisible c)) [
  | inl e ↦ (rw e h, visible-AllVisible p s h)
  | inr e ↦ (rw e e, visible-AllVisible p s h)
]

pub visible_all : (p : Platform) (s : Str) → AllVisible p s → map (visible p) s ≡ s
visible_all p [] h = refl
visible_all p (c ∷ s) h = rw (h.0, visible_all p s h.1)

-- What is visible, has no space at an end, and is not empty nor too long.
abbrev pub IsClean : Platform → Str → Type 0
IsClean p s =
    AllVisible p s
    × StartsFull p.is_space s
    × StartsFull p.is_space (reverse s)
    × (1 ≤ length s)
    × (length s ≤ max_text_chars)

strip_visible :
    (p : Platform) (text : Str)
    → p.is_invisible b' ' ≡ false
    → AllVisible p (strip p.is_space (map (visible p) text))
      × (strip p.is_space (map (visible p) (strip p.is_space (map (visible p) text)))
          ≡ strip p.is_space (map (visible p) text))
strip_visible p text v =
    let seen =
      All-strip (λ c. p.is_invisible c ≡ false) p.is_space (map (visible p) text)
        (visible-AllVisible p text v) in
    (
      seen,
      ap (strip p.is_space) (visible_all p (strip p.is_space (map (visible p) text)) seen)
          ∙ strip-strip p.is_space (map (visible p) text),
    )

leb_one : (n : ℕ) → leb 1 n ≡ true → 1 ≤ n
leb_one n h = ground arith

leb_max : (n : ℕ) → leb n max_text_chars ≡ true → n ≤ max_text_chars
leb_max n h = ground arith

-- Where the space is a visible character: what `clean_text` returns is visible, has no space at either
-- end and between 1 and 4096 characters, and is returned unchanged when it is cleaned again.
pub clean_text-clean_text :
    (p : Platform) (text cleaned : Str)
    → p.is_invisible b' ' ≡ false
    → clean_text p text ≡ ok cleaned
    → IsClean p cleaned × (clean_text p cleaned ≡ ok cleaned)
unfolding clean_text
clean_text-clean_text p text cleaned v h =
    let (full, h₁) =
      require-eq-ok (leb 1 (length (strip p.is_space (map (visible p) text)))) _ _ h in
    let (short, h₂) =
      require-eq-ok (leb (length (strip p.is_space (map (visible p) text))) max_text_chars) _ _
        h₁ in
    let (seen, again) = strip_visible p text v in
    subst (λ c. IsClean p c × (clean_text p c ≡ ok c)) (ok-injective h₂)
      (
        (
          seen,
          strip-StartsFull p.is_space (map (visible p) text),
          strip-EndsFull p.is_space (map (visible p) text),
          leb_one _ full,
          leb_max _ short,
        ),
        rw (again, full, short),
      )
