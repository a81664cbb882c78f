-- ===== src/Recorder/Seen.antt =====
-- The loop of `inspect`: the numbers and the receipts that it collects.
use mathlib.Core.Path.{subst}
use flop_contributions.Prelude.{
  ℕ, ◌≡◌, ◌<◌, ◌↔◌, ◌⊎◌, refl, sym, ap, ◌∙◌, inl, inr, arith, pos, Bool, true, false, ◌&&◌, ◌||◌,
  Option, none, some, List, [], ◌∷◌, ◌++◌, All, ltb, Bool-cases,
}
use flop_contributions.Outcome.{
  Outcome, ok, err, or_raise, >>=-eq-ok, guard-eq-ok, some-or_raise, ok-injective,
}
use flop_contributions.Text.{Bytes}
use flop_contributions.Json.{Value, int, obj, Fields, has_key, has_exactly, is_str}
use flop_contributions.Platform.{Platform}
use flop_contributions.Tclk.Transcript.{value_at}
use flop_contributions.Export.{plain_keys, signed_keys, is_text, verify_signed}
use flop_contributions.Recorder.Ranges.{Range}
use flop_contributions.Recorder.Ranges.Merge.{Covered}
use flop_contributions.Recorder.Inspect.{
  Config, Receipt, Seen, decode, get_or, is_disposition, is_matching, read_item, read_items,
  payload_of, is_caught, keep_receipts, after_payload, is_invalid, counted_valid,
  after_verification, read_signed, number_of, with_number, read_line, read_lines,
}

-- A receipt is a disposition in a record of the room that the referee signed.
abbrev pub IsReceipt : Platform → Config → Receipt → Type 0
IsReceipt p config r =
    (verify_signed p config.room r.signed_record ≡ ok tt)
    × (is_str (value_at "from" r.signed_record) config.referee ≡ true)
    × (is_disposition r.status ≡ true)

-- One of the lines is a record with the number `x`.
abbrev pub HasRecord : Platform → ℕ → List Bytes → Type 0
HasRecord p x [] = ⊥
HasRecord p x (line ∷ lines) =
    ((row : Fields) × (decode p line ≡ ok (obj row)) × (value_at "seq" row ≡ int (pos x)))
    ⊎ HasRecord p x lines

second : (a b : Bool) → (a && b) ≡ true → b ≡ true
second true b h = h
second false b h = cc

All-append : (P : Receipt → Type 0) (rs qs : List Receipt) → All P rs → All P qs → All P (rs ++ qs)
All-append P [] qs a b = b
All-append P (r ∷ rs) qs (one, more) b = (one, All-append P rs qs more b)

module _ (p : Platform) (config : Config) where
  -- The numbers are kept, and the receipts are still receipts.
  abbrev Keeps : Seen → Seen → Type 0
  Keeps s next =
      (next.seqs ≡ s.seqs)
      × (All (IsReceipt p config) s.receipts → All (IsReceipt p config) next.receipts)

  module _ (seq : ℕ) (row : Fields) (signed : verify_signed p config.room row ≡ ok tt)
      (sent : is_str (value_at "from" row) config.referee ≡ true) where
    read_item-All :
        (payload item : Fields) (receipts : List Receipt)
        → All (IsReceipt p config) receipts
        → All (IsReceipt p config) (read_item config seq row payload item receipts)
    unfolding read_item
    read_item-All payload item receipts all =
        elim (Bool-cases (
          is_matching config item
          && is_disposition (get_or "status" item (value_at "status" payload)))) [
            | inl e ↦ rw e (
                All-append (IsReceipt p config) receipts _ all
                  ((signed, sent, second (is_matching config item) _ e), tt))
            | inr e ↦ rw e all
          ]

    read_items-All :
        (payload : Fields) (items : List Value) (receipts : List Receipt)
        → All (IsReceipt p config) receipts
        → All (IsReceipt p config) (read_items config seq row payload items receipts).0
    unfolding read_items
    read_items-All payload [] receipts all = all
    read_items-All payload (obj item ∷ items) receipts all =
        read_items-All payload items (read_item config seq row payload item receipts)
          (read_item-All payload item receipts all)
    read_items-All payload (_ ∷ items) receipts all = all

    keep_receipts-Keeps :
        (s : Seen) (result : List Receipt × Bool)
        → (All (IsReceipt p config) s.receipts → All (IsReceipt p config) result.0)
        → Keeps s (keep_receipts s result)
    unfolding keep_receipts
    keep_receipts-Keeps s (receipts, true) all = (refl, all)
    keep_receipts-Keeps s (receipts, false) all = (refl, all)

    after_payload-Keeps :
        (s next : Seen) (o : Outcome (Option (Fields × List Value)))
        → after_payload config seq row s o ≡ ok next
        → Keeps s next
    unfolding after_payload
    after_payload-Keeps s next (err e) h = elim (Bool-cases (is_caught e)) [
      | inl c ↦ subst (Keeps s) (ok-injective (rw c at h)) (refl, λ all. all)
      | inr c ↦ cc (rw c at h)
    ]
    after_payload-Keeps s next (ok none) h = subst (Keeps s) (ok-injective h) (refl, λ all. all)
    after_payload-Keeps s next (ok (some (payload, items))) h = subst (Keeps s) (ok-injective h) (
        keep_receipts-Keeps s (read_items config seq row payload items s.receipts)
          (read_items-All payload items s.receipts))

  after_verification-Keeps :
      (seq : ℕ) (row : Fields) (s next : Seen) (o : Outcome (Unit {0}))
      → verify_signed p config.room row ≡ o
      → after_verification p config seq row s o ≡ ok next
      → Keeps s next
  unfolding after_verification
  after_verification-Keeps seq row s next (err e) v h = elim (Bool-cases (is_invalid e)) [
    | inl c ↦ subst (Keeps s) (ok-injective (rw c at h)) (refl, λ all. all)
    | inr c ↦ cc (rw c at h)
  ]
  after_verification-Keeps seq row s next (ok u) v h =
      elim (Bool-cases (is_str (value_at "from" row) config.referee)) [
        | inl c ↦
            after_payload-Keeps seq row v c (counted_valid s) next (payload_of p config row)
              (rw c at h)
        | inr c ↦ subst (Keeps s) (ok-injective (rw c at h)) (refl, λ all. all)
      ]

  read_signed-Keeps :
      (seq : ℕ) (row : Fields) (s next : Seen)
      → read_signed p config seq row s ≡ ok next
      → Keeps s next
  unfolding read_signed
  read_signed-Keeps seq row s next h = elim (Bool-cases (has_key "sig" row)) [
    | inl c ↦
        after_verification-Keeps seq row s next (verify_signed p config.room row) refl (rw c at h)
    | inr c ↦ subst (Keeps s) (ok-injective (rw c at h)) (refl, λ all. all)
  ]

  number_of-some :
      (previous : ℕ) (v : Value) (n : ℕ) → number_of previous v ≡ some n → v ≡ int (pos n)
  number_of-some previous (int (pos m)) n h = ground arith
  number_of-some previous _ n h = cc

  Covered-append :
      (x : ℕ) (rs : List Range) (n : ℕ) → Covered x (rs ++ (n, n) ∷ []) ↔ (Covered x rs ⊎ (x ≡ n))
  Covered-append x [] n = ground arith
  Covered-append x (r ∷ rs) n = ground (arith, Covered-append x rs n)

  -- What one line adds to the numbers.
  abbrev Adds : ℕ → Seen → Seen → Type 0
  Adds n s next =
      ((x : ℕ) → Covered x next.seqs ↔ (Covered x s.seqs ⊎ ((x ≡ n) × (config.after < n))))
      × (All (IsReceipt p config) s.receipts → All (IsReceipt p config) next.receipts)

  with_number-Covered :
      (n x : ℕ) (s : Seen)
      → Covered x (with_number config n s).seqs
        ↔ (Covered x s.seqs ⊎ ((x ≡ n) × (config.after < n)))
  with_number-Covered n x s = elim (Bool-cases (ltb config.after n)) [
    | inl c ↦ rw c (ground (arith, c, Covered-append x s.seqs n))
    | inr c ↦ rw c (ground (arith, c))
  ]

  read_line-Adds :
      (v : Value) (s next : Seen)
      → read_line p config v s ≡ ok next
      → (row : Fields) × (n : ℕ) × (v ≡ obj row)
        × (value_at "seq" row ≡ int (pos n))
        × Adds n s next
  unfolding read_line
  read_line-Adds (obj row) s next h =
      let (a, h₁) = guard-eq-ok (has_exactly row signed_keys || has_exactly row plain_keys) _ _ h in
      let (n, b, h₂) = >>=-eq-ok (or_raise (number_of s.previous (value_at "seq" row)) _) _ h₁ in
      let (c, h₃) =
        guard-eq-ok
          (is_text (value_at "from" row)
            && is_text (value_at "ts" row)
            && is_text (value_at "text" row))
          _ _ h₂ in
      let (same, all) = read_signed-Keeps n row (with_number config n s) next h₃ in
      (
        row,
        n,
        refl,
        number_of-some s.previous (value_at "seq" row) n (some-or_raise _ _ b),
        (
          λ x.
              subst (λ rs. Covered x rs ↔ (Covered x s.seqs ⊎ ((x ≡ n) × (config.after < n))))
                (sym same) (with_number-Covered n x s),
          all,
        ),
      )
  read_line-Adds _ s next h = cc

  -- The numbers that the loop collects are those of the records behind `after`, and the receipts are
  -- the referee's.
  pub read_lines-Covered :
      (lines : List Bytes) (s last : Seen)
      → read_lines p config lines s ≡ ok last
      → ((x : ℕ)
          → Covered x last.seqs ↔ (Covered x s.seqs ⊎ (HasRecord p x lines × (config.after < x))))
        × (All (IsReceipt p config) s.receipts → All (IsReceipt p config) last.receipts)
  unfolding read_lines
  read_lines-Covered [] s last h =
      subst
        (λ (o : Seen).
          ((x : ℕ) → Covered x o.seqs ↔ (Covered x s.seqs ⊎ (⊥ × (config.after < x))))
          × (All (IsReceipt p config) s.receipts → All (IsReceipt p config) o.receipts))
        (ok-injective h)
        (λ x. (λ c. inl c, λ c. elim c [ inl a ↦ a | inr b ↦ absurd b.0 ]), λ all. all)
  read_lines-Covered (line ∷ lines) s last h =
      let (v, decoded, h₁) = >>=-eq-ok (decode p line) _ h in
      let (next, one, h₂) = >>=-eq-ok (read_line p config v s) _ h₁ in
      let (row, n, shaped, numbered, (adds, first)) = read_line-Adds v s next one in
      let (covers, rest) = read_lines-Covered lines next last h₂ in
      let here : decode p line ≡ ok (obj row) = decoded ∙ ap ok shaped in
      (λ x. joined x n row here numbered (adds x) (covers x), λ all. rest (first all))
    where
      joined :
          (x n : ℕ) (row : Fields)
          → decode p line ≡ ok (obj row)
          → value_at "seq" row ≡ int (pos n)
          → {A B C : Type 0} → (B ↔ (A ⊎ ((x ≡ n) × (config.after < n))))
          → (C ↔ (B ⊎ (HasRecord p x lines × (config.after < x))))
          → C ↔ (A ⊎ (HasRecord p x (line ∷ lines) × (config.after < x)))
      joined x n row here numbered adds covers = (
        λ c. elim (covers.0 c) [
          | inl b ↦ elim (adds.0 b) [
            | inl a ↦ inl a
            | inr (e, f) ↦
                inr (inl (row, here, numbered ∙ ap (λ k. int (pos k)) (sym e)), omega (arith, e, f))
          ]
          | inr (r, f) ↦ inr (inr r, f)
        ],
        λ c. elim c [
          | inl a ↦ covers.1 (inl (adds.1 (inl a)))
          | inr (inl (other, there, same), f) ↦
              let e : x ≡ n = cc (here, there, numbered, same) in
              covers.1 (inl (adds.1 (inr (e, omega (arith, e, f)))))
          | inr (inr r, f) ↦ covers.1 (inr (r, f))
        ],
      )
