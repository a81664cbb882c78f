-- ===== src/Audit/Numbered.antt =====
-- What an export that `load_export` accepts holds: consecutive records, signed where they say so.
use mathlib.Core.Path.{subst}
use flop_contributions.Prelude.{
  ℕ, suc, ◌+◌, ◌≤◌, ◌≡◌, refl, ap, ◌∙◌, Bool, true, false, ◌&&◌, ◌||◌, some, List, [], ◌∷◌, arith,
  leb, ◌==◌, length, pos, eq_ℤ,
}
use flop_contributions.Outcome.{ok, or_raise, >>=-eq-ok, guard-eq-ok, some-or_raise, ok-injective}
use flop_contributions.Text.{Str, Bytes}
use flop_contributions.Text.Lines.{splitlines}
use flop_contributions.Json.{Value, int, obj, Fields, has_exactly, has_key, get, is_str, is_int}
use flop_contributions.Platform.{Platform, File, loads_bytes}
use flop_contributions.Tclk.Transport.{verify_transport, parse_time}
use flop_contributions.Tclk.Transcript.{value_at, message_keys}
use flop_contributions.Audit.Tracks.{second}
use flop_contributions.Audit.Export.{
  Capture, limit, unsigned_keys, bounded_int, short_text, is_text, read_bounded, verify_if_signed,
  read_record, read_records, read_capture, ends_at, load_export,
}

-- The lines hold the records, numbered one after another from `n`; a record with a signature verifies
-- for the room.
abbrev pub Numbered : Platform → Str → ℕ → List Bytes → List Fields → Type 0
Numbered p room n [] [] = Unit
Numbered p room n [] (r ∷ rs) = ⊥
Numbered p room n (line ∷ lines) [] = ⊥
Numbered p room n (line ∷ lines) (r ∷ rs) =
    (loads_bytes p line ≡ ok (obj r))
    × (value_at "seq" r ≡ int (pos n))
    × ((has_key "sig" r ≡ true) → verify_transport p room r ≡ ok tt)
    × Numbered p room (suc n) lines rs

bounded_int-some : (v : Value) (n : ℕ) → bounded_int v ≡ some n → v ≡ int (pos n)
bounded_int-some (int (pos m)) n h = ground arith
bounded_int-some _ n h = cc

verify_if_signed-eq-ok :
    (p : Platform) (room : Str) (r : Fields)
    → verify_if_signed p room r ≡ ok tt
    → (has_key "sig" r ≡ true)
    → verify_transport p room r ≡ ok tt
unfolding verify_if_signed
verify_if_signed-eq-ok p room r h signed = cc (rw signed at h)

==-eq : (m n : ℕ) → (m == n) ≡ true → m ≡ n
==-eq m n h = ground arith

read_record-eq-ok :
    (p : Platform) (room : Str) (n : ℕ) (v : Value) (r : Fields)
    → read_record p room n v ≡ ok r
    → (v ≡ obj r)
      × (value_at "seq" r ≡ int (pos n))
      × ((has_key "sig" r ≡ true) → verify_transport p room r ≡ ok tt)
unfolding read_record
read_record-eq-ok p room n (obj fields) r h =
    let (shape, h₁) =
      guard-eq-ok (has_exactly fields message_keys || has_exactly fields unsigned_keys) _ _ h in
    let (seq, found, h₂) = >>=-eq-ok (or_raise (bounded_int (value_at "seq" fields)) _) _ h₁ in
    let (same, h₃) = guard-eq-ok (seq == n) _ _ h₂ in
    let (short, h₄) = guard-eq-ok (short_text (value_at "text" fields)) _ _ h₃ in
    let (text, h₅) = guard-eq-ok (is_text (value_at "from" fields)) _ _ h₄ in
    let (now, timed, h₆) = >>=-eq-ok (parse_time p (get "ts" fields)) _ h₅ in
    let (u, verified, h₇) = >>=-eq-ok (verify_if_signed p room fields) _ h₆ in
    let e : fields ≡ r = ok-injective h₇ in
    let number : value_at "seq" fields ≡ int (pos n) =
      bounded_int-some _ n (some-or_raise _ _ found ∙ ap some (==-eq seq n same)) in
    subst
      (λ o.
        (obj fields ≡ obj o)
        × (value_at "seq" o ≡ int (pos n))
        × ((has_key "sig" o ≡ true) → verify_transport p room o ≡ ok tt))
      e (refl, number, verify_if_signed-eq-ok p room fields verified)
read_record-eq-ok p room n _ r h = cc

read_records-Numbered :
    (p : Platform) (room : Str) (n : ℕ) (lines : List Bytes) (rs : List Fields)
    → read_records p room n lines ≡ ok rs
    → Numbered p room n lines rs × (length rs ≡ length lines)
unfolding read_records
read_records-Numbered p room n [] rs h =
    subst (λ o. Numbered p room n [] o × (length o ≡ 0)) (ok-injective h) (tt, refl)
read_records-Numbered p room n (line ∷ lines) rs h =
    let (v, loaded, h₁) = >>=-eq-ok (loads_bytes p line) _ h in
    let (one, read, h₂) = >>=-eq-ok (read_record p room n v) _ h₁ in
    let (more, rest, h₃) = >>=-eq-ok (read_records p room (suc n) lines) _ h₂ in
    let (numbered, counted) = read_records-Numbered p room (suc n) lines more rest in
    let (shaped, seq, signed) = read_record-eq-ok p room n v one read in
    let e : one ∷ more ≡ rs = ok-injective h₃ in
    subst (λ o. Numbered p room n (line ∷ lines) o × (length o ≡ suc (length lines))) e
      ((loaded ∙ ap ok shaped, seq, signed, numbered), ap suc counted)

eq_ℤ_pos : (n m : ℕ) → eq_ℤ (pos n) (pos m) ≡ true → n ≡ m
eq_ℤ_pos n m h = ground arith

-- The last record of numbered ones carries the number of the first, plus their count, less one.
ends_at-Numbered :
    (p : Platform) (room : Str) (n last : ℕ) (lines : List Bytes) (rs : List Fields)
    → Numbered p room n lines rs
    → ends_at rs last ≡ true
    → n + length rs ≡ last + 1
unfolding ends_at is_int
ends_at-Numbered p room n last lines [] h e = cc
ends_at-Numbered p room n last [] (r ∷ rs) h e = absurd h
ends_at-Numbered p room n last (line ∷ lines) (r ∷ []) h e =
    ground (arith, eq_ℤ_pos n last (rw h.1 at e))
ends_at-Numbered p room n last (line ∷ lines) (r ∷ q ∷ rs) h e =
    omega (arith, ends_at-Numbered p room (suc n) last lines (q ∷ rs) h.3 e)

-- An accepted export: a file of at most 16 MiB with the captured digest, whose lines are the records
-- from the first to the last captured number.
pub record IsExport (p : Platform) (file : File) (descriptor : Value) (c : Capture)
    (rs : List Fields) : Type 0 where
  pub described : Fields
  pub captured : read_capture descriptor ≡ ok (c, described)
  pub regular : file.regular ≡ true
  pub within : length file.content ≤ limit
  pub digest : is_str (value_at "sha256" described) (p.sha256 file.content) ≡ true
  pub numbered : Numbered p c.room c.first_seq (splitlines file.content) rs
  pub one_per_line : length rs ≡ length (splitlines file.content)
  pub from_one : 1 ≤ c.first_seq
  pub complete : c.first_seq + length rs ≡ c.last_seq + 1

first : (a b : Bool) → (a && b) ≡ true → a ≡ true
first true b h = refl
first false b h = h

leb_one : (n : ℕ) → leb 1 n ≡ true → 1 ≤ n
leb_one n h = ground arith

read_bounded-eq-ok :
    (file : File) (raw : Bytes)
    → read_bounded file ≡ ok raw
    → (file.regular ≡ true) × (length file.content ≤ limit) × (raw ≡ file.content)
unfolding read_bounded
read_bounded-eq-ok file raw h = ground arith

-- `load_export` returns only the records that the lines of a regular file hold, one for each line, where
-- the file is within the size limit and has the captured digest; they are numbered without gap from the
-- captured first number, which is at least 1, to the captured last, and every record that carries a
-- signature verifies for the captured room.
pub load_export-IsExport :
    (p : Platform) (file : File) (descriptor : Value) (c : Capture) (rs : List Fields)
    → load_export p file descriptor ≡ ok (c, rs)
    → IsExport p file descriptor c rs
unfolding load_export
load_export-IsExport p file descriptor c rs h =
    let (capture, described, h₁) = >>=-eq-ok (read_capture descriptor) _ h in
    let (raw, read, h₂) = >>=-eq-ok (read_bounded file) _ h₁ in
    let (digest, h₃) = guard-eq-ok (is_str (value_at "sha256" capture.1) (p.sha256 raw)) _ _ h₂ in
    let (records, rest, h₄) =
      >>=-eq-ok (read_records p capture.0.room capture.0.first_seq (splitlines raw)) _ h₃ in
    let (ends, h₅) =
      guard-eq-ok (leb 1 capture.0.first_seq && ends_at records capture.0.last_seq) _ _ h₄ in
    let (regular, within, same) = read_bounded-eq-ok file raw read in
    let (numbered, counted) =
      read_records-Numbered p capture.0.room capture.0.first_seq (splitlines raw) records rest in
    subst (λ (o : Capture × List Fields). IsExport p file descriptor o.0 o.1) (ok-injective h₅)
      (record {
        described = capture.1;
        captured = described;
        regular = regular;
        within = within;
        digest = subst (λ b. is_str (value_at "sha256" capture.1) (p.sha256 b) ≡ true) same digest;
        numbered =
            subst (λ b. Numbered p capture.0.room capture.0.first_seq (splitlines b) records) same
              numbered;
        one_per_line = counted ∙ ap (λ b. length (splitlines b)) same;
        from_one = leb_one capture.0.first_seq (first (leb 1 capture.0.first_seq) _ ends);
        complete =
            ends_at-Numbered p capture.0.room capture.0.first_seq capture.0.last_seq
              (splitlines raw) records numbered
              (second _ (ends_at records capture.0.last_seq) ends);
      })
