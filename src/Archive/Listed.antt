-- ===== src/Archive/Listed.antt =====
-- The entries that `validate_index` returns.
use mathlib.Core.Path.{subst}
use flop_contributions.Prelude.{
  ℕ, suc, ◌≤◌, ◌≡◌, refl, ap, ◌∙◌, pos, Bool, true, false, some, List, [], ◌∷◌, arith,
  if◌then◌else◌,
}
use flop_contributions.Outcome.{
  ok, err, value_error, or_raise, >>=-eq-ok, guard-eq-ok, some-or_raise, ok-injective,
}
use flop_contributions.Text.{Str, codes}
use flop_contributions.Json.{Value, int, str, obj, Fields, is_str, is_int, has_exactly}
use flop_contributions.Tclk.Transcript.{value_at}
use flop_contributions.CloseCall.Envelope.{max_file_bytes, is_hash, hash_of, list_of}
use flop_contributions.Archive.Index.{
  Entry, full_keys, redacted_keys, size_of, check_path, is_count, path_of, check_full,
  check_redacted, check_entry, check_entries, validate_index,
}

-- The entry of the sweep `n`.
abbrev pub IsListed : ℕ → Entry → Type 0
IsListed n e = (is_int e.n (pos n) ≡ true) × (e.bytes ≤ max_file_bytes) × (is_hash e.file ≡ true)

-- Entries numbered one after another from `n`.
abbrev pub AllListed : ℕ → List Entry → Type 0
AllListed n [] = Unit
AllListed n (e ∷ es) = IsListed n e × AllListed (suc n) es

size_of-some : (v : Value) (n : ℕ) → size_of v ≡ some n → n ≤ max_file_bytes
size_of-some (int (pos m)) n h = ground arith
size_of-some _ n h = cc

hash_of-some : (v : Value) (s : Str) → hash_of v ≡ some s → is_hash s ≡ true
hash_of-some (str t) s h = ground arith
hash_of-some _ s h = cc

-- The number of the entry is left to the caller.
abbrev IsChecked : Fields → Entry → Type 0
IsChecked fields e =
    (e.n ≡ value_at "n" fields) × (e.bytes ≤ max_file_bytes) × (is_hash e.file ≡ true)

check_full-IsChecked : (fields : Fields) (e : Entry) → check_full fields ≡ ok e → IsChecked fields e
unfolding check_full
check_full-IsChecked fields e h =
    let (a, h₁) = guard-eq-ok (has_exactly fields full_keys) _ _ h in
    let (size, sized, h₂) = >>=-eq-ok (or_raise (size_of (value_at "bytes" fields)) _) _ h₁ in
    let (file, hashed, h₃) = >>=-eq-ok (or_raise (hash_of (value_at "file" fields)) _) _ h₂ in
    let (u, b, h₄) =
      >>=-eq-ok (check_path (value_at "path" fields) (path_of (codes "sweeps") file)) _ h₃ in
    subst (IsChecked fields) (ok-injective h₄) (
      refl,
      size_of-some (value_at "bytes" fields) _ (some-or_raise _ _ sized),
      hash_of-some (value_at "file" fields) _ (some-or_raise _ _ hashed),
    )

check_redacted-IsChecked :
    (fields : Fields) (e : Entry) → check_redacted fields ≡ ok e → IsChecked fields e
unfolding check_redacted
check_redacted-IsChecked fields e h =
    let (a, h₁) = guard-eq-ok (has_exactly fields redacted_keys) _ _ h in
    let (size, sized, h₂) = >>=-eq-ok (or_raise (size_of (value_at "bytes" fields)) _) _ h₁ in
    let (file, hashed, h₃) = >>=-eq-ok (or_raise (hash_of (value_at "file" fields)) _) _ h₂ in
    let (u, b, h₄) =
      >>=-eq-ok (check_path (value_at "path" fields) (path_of (codes "redacted") file)) _ h₃ in
    let (c, h₅) = guard-eq-ok (is_count (value_at "redacted" fields)) _ _ h₄ in
    let (d, f, h₆) = >>=-eq-ok (or_raise (hash_of (value_at "sha256" fields)) _) _ h₅ in
    subst (IsChecked fields) (ok-injective h₆) (
      refl,
      size_of-some (value_at "bytes" fields) _ (some-or_raise _ _ sized),
      hash_of-some (value_at "file" fields) _ (some-or_raise _ _ hashed),
    )

check_entry-IsListed : (n : ℕ) (v : Value) (e : Entry) → check_entry n v ≡ ok e → IsListed n e
unfolding check_entry
check_entry-IsListed n (obj fields) e h =
    let (numbered, h₁) = guard-eq-ok (is_int (value_at "n" fields) (pos n)) _ _ h in
    branch (is_str (value_at "status" fields) (codes "full"))
      (is_str (value_at "status" fields) (codes "redacted")) numbered h₁
  where
    listed : (is_int (value_at "n" fields) (pos n) ≡ true) → IsChecked fields e → IsListed n e
    listed numbered (same, small, hashed) =
        (ap (λ v. is_int v (pos n)) same ∙ numbered, small, hashed)

    branch :
        (full redacted : Bool)
        → (is_int (value_at "n" fields) (pos n) ≡ true)
        → (if full
            then check_full fields
            else if redacted
            then check_redacted fields
            else err (value_error "sweep has an invalid index entry"))
          ≡ ok e
        → IsListed n e
    branch true redacted numbered h = listed numbered (check_full-IsChecked fields e h)
    branch false true numbered h = listed numbered (check_redacted-IsChecked fields e h)
    branch false false numbered h = cc
check_entry-IsListed n _ e h = cc

check_entries-AllListed :
    (n : ℕ) (vs : List Value) (es : List Entry) → check_entries n vs ≡ ok es → AllListed n es
unfolding check_entries
check_entries-AllListed n [] es h = subst (AllListed n) (ok-injective h) tt
check_entries-AllListed n (v ∷ vs) es h =
    let (one, a, h₁) = >>=-eq-ok (check_entry n v) _ h in
    let (more, b, h₂) = >>=-eq-ok (check_entries (suc n) vs) _ h₁ in
    subst (AllListed n) (ok-injective h₂)
      (check_entry-IsListed n v one a, check_entries-AllListed (suc n) vs more b)

pub validate_index-AllListed :
    (v : Value) (contest_id : Str) (es : List Entry)
    → validate_index v contest_id ≡ ok es
    → AllListed 1 es
unfolding validate_index
validate_index-AllListed (obj index) contest_id es h =
    let (a, h₁) = guard-eq-ok (has_exactly index ("contest" ∷ "sweeps" ∷ [])) _ _ h in
    let (b, h₂) = guard-eq-ok (is_str (value_at "contest" index) contest_id) _ _ h₁ in
    let (vs, c, h₃) = >>=-eq-ok (or_raise (list_of (value_at "sweeps" index)) _) _ h₂ in
    check_entries-AllListed 1 vs es h₃
validate_index-AllListed _ contest_id es h = cc
