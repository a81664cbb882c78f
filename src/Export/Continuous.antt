-- ===== src/Export/Continuous.antt =====
-- What an export that `verify_export` accepts is: numbered lines whose signatures verify.
use mathlib.Core.Path.{subst}
use flop_contributions.Prelude.{
  ℕ, suc, ◌+◌, ◌≤◌, ◌<◌, ◌≡◌, refl, ap, ◌∙◌, ℤ, pos, negsuc, Bool, true, false, ◌&&◌, ◌||◌, Option,
  none, some, List, [], ◌∷◌, String, String, arith, length, leb, Bool-cases, inl, inr,
}
use flop_contributions.Outcome.{ok, or_raise, >>=-eq-ok, guard-eq-ok, some-or_raise, ok-injective}
use flop_contributions.Text.{Str, Bytes, is_room}
use flop_contributions.Text.Lines.{splitlines}
use flop_contributions.Json.{Value, int, obj, Fields, get, has_exactly}
use flop_contributions.Platform.{Platform, File, redacted_hash}
use flop_contributions.Export.{
  max_bytes, max_sequence, plain_keys, signed_keys, subscript, verify_signed, sequence_number,
  continues, is_text, is_stamp, Tally, count_signed, read_row, read_line, read_rows, first_seq,
  ExportReport, verify_export,
}

-- The first record may carry any number, a later one that of its predecessor plus one.
abbrev pub FollowsOn : Option ℕ → ℕ → Type 0
FollowsOn none seq = Unit
FollowsOn (some previous) seq = seq ≡ previous + 1

-- The line holds an object with the sequence number `seq`.
abbrev pub HoldsRecord : Platform → Bytes → Fields → ℕ → Type 0
HoldsRecord p line fields seq =
    (read_line p line ≡ ok (obj fields))
    × (get "seq" fields ≡ some (int (pos seq)))
    × (0 < seq)
    × (seq ≤ max_sequence)

-- Lines after the number `previous`, the number of the last one, and how many of them are signed.
pub data Rows (p : Platform) (room : Str) : Option ℕ → List Bytes → Option ℕ → ℕ → Type 0 where
  done : {previous : Option ℕ} → Rows p room previous [] previous 0
  unsigned :
      {previous last : Option ℕ} {lines : List Bytes} {signed : ℕ} (line : Bytes) (fields : Fields)
      (seq : ℕ)
      → HoldsRecord p line fields seq
      → FollowsOn previous seq
      → has_exactly fields plain_keys ≡ true
      → Rows p room (some seq) lines last signed
      → Rows p room previous (line ∷ lines) last signed
  sealed :
      {previous last : Option ℕ} {lines : List Bytes} {signed : ℕ} (line : Bytes) (fields : Fields)
      (seq : ℕ)
      → HoldsRecord p line fields seq
      → FollowsOn previous seq
      → has_exactly fields signed_keys ≡ true
      → verify_signed p room fields ≡ ok tt
      → Rows p room (some seq) lines last signed
      → Rows p room previous (line ∷ lines) last (suc signed)

-- Not more lines are signed than there are.
signed-Rows :
    (p : Platform) (room : Str) {previous last : Option ℕ} {lines : List Bytes} {signed : ℕ}
    → Rows p room previous lines last signed
    → signed ≤ length lines
signed-Rows p room done = omega arith
signed-Rows p room (unsigned line fields seq h f k rest) = omega (arith, signed-Rows p room rest)
signed-Rows p room (sealed line fields seq h f k v rest) = omega (arith, signed-Rows p room rest)

leb-≤ : (m n : ℕ) → leb m n ≡ true → m ≤ n
leb-≤ m n h = ground arith

subscript-some :
    (k : String) (fields : Fields) (v : Value) → subscript k fields ≡ ok v → get k fields ≡ some v
unfolding subscript
subscript-some k fields v h = ground arith

sequence_number-some :
    (v : Value) (n : ℕ)
    → sequence_number v ≡ some n
    → (v ≡ int (pos n)) × (0 < n) × (n ≤ max_sequence)
unfolding sequence_number
sequence_number-some (int (pos m)) n h = ground arith
sequence_number-some _ n h = cc

continues-FollowsOn :
    (previous : Option ℕ) (n : ℕ) → continues previous n ≡ true → FollowsOn previous n
unfolding continues
continues-FollowsOn none n h = tt
continues-FollowsOn (some m) n h = ground arith

-- What `read_row` checks of a record with `seq`.
abbrev IsRow : Platform → Str → Tally → Fields → ℕ → Tally → Type 0
IsRow p room t fields seq next =
    ((has_exactly fields plain_keys || has_exactly fields signed_keys) ≡ true)
    × (get "seq" fields ≡ some (int (pos seq)))
    × (0 < seq)
    × (seq ≤ max_sequence)
    × FollowsOn t.previous seq
    × (next.previous ≡ some seq)
    × (count_signed p room fields t.signed ≡ ok next.signed)

read_row-IsRow :
    (p : Platform) (room : Str) (t next : Tally) (v : Value)
    → read_row p room t v ≡ ok next
    → (fields : Fields) × (seq : ℕ) × (v ≡ obj fields) × IsRow p room t fields seq next
unfolding read_row
read_row-IsRow p room t next (obj fields) h =
    let (shape, h₁) =
      guard-eq-ok (has_exactly fields plain_keys || has_exactly fields signed_keys) _ _ h in
    let (seq_value, got, h₂) = >>=-eq-ok (subscript "seq" fields) _ h₁ in
    let (seq, numbered, h₃) = >>=-eq-ok (or_raise (sequence_number seq_value) _) _ h₂ in
    let (follows, h₄) = guard-eq-ok (continues t.previous seq) _ _ h₃ in
    let (from_value, a, h₅) = >>=-eq-ok (subscript "from" fields) _ h₄ in
    let (ts_value, b, h₆) = >>=-eq-ok (subscript "ts" fields) _ h₅ in
    let (text_value, c, h₇) = >>=-eq-ok (subscript "text" fields) _ h₆ in
    let (texts, h₈) =
      guard-eq-ok (is_text from_value && is_stamp ts_value && is_text text_value) _ _ h₇ in
    let (signed, counted, h₉) = >>=-eq-ok (count_signed p room fields t.signed) _ h₈ in
    let (same, positive, small) = sequence_number-some seq_value seq (some-or_raise _ _ numbered) in
    subst (λ n. (fs : Fields) × (k : ℕ) × (obj fields ≡ obj fs) × IsRow p room t fs k n)
      (ok-injective h₉)
      (
        fields,
        seq,
        refl,
        (
          shape,
          subscript-some "seq" fields seq_value got ∙ ap some same,
          positive,
          small,
          continues-FollowsOn t.previous seq follows,
          refl,
          counted,
        ),
      )
read_row-IsRow p room t next _ h = cc

left_alone : (a b : Bool) → (a || b) ≡ true → b ≡ false → a ≡ true
left_alone true b h off = refl
left_alone false b h off = cc

-- A record that is read adds its line in front of the rows that follow.
row_then :
    (p : Platform) (room : Str) (t next : Tally) (line : Bytes) (lines : List Bytes)
    (fields : Fields) (seq k : ℕ) (last : Option ℕ)
    → read_line p line ≡ ok (obj fields)
    → IsRow p room t fields seq next
    → Rows p room (some seq) lines last k
    → (j : ℕ) × Rows p room t.previous (line ∷ lines) last j × (next.signed + k ≡ t.signed + j)
unfolding count_signed
row_then p room t next line lines fields seq k last r (shape, got, positive, small, f, same, c)
      rest =
    elim (Bool-cases (has_exactly fields signed_keys)) [
      | inr off ↦
          let plain : has_exactly fields plain_keys ≡ true = left_alone _ _ shape off in
          let e : t.signed ≡ next.signed = cc (rw off at c) in
          (k, unsigned line fields seq (r, got, positive, small) f plain rest, omega (arith, e))
      | inl on ↦
          let (u, v, c₁) = >>=-eq-ok (verify_signed p room fields) _ (rw on at c) in
          let e : t.signed + 1 ≡ next.signed = ok-injective c₁ in
          (suc k, sealed line fields seq (r, got, positive, small) f on v rest, omega (arith, e))
    ]

read_rows-Rows :
    (p : Platform) (room : Str) (t last : Tally) (lines : List Bytes)
    → read_rows p room t lines ≡ ok last
    → (k : ℕ) × Rows p room t.previous lines last.previous k × (last.signed ≡ t.signed + k)
unfolding read_rows
read_rows-Rows p room t last [] h =
    let e : t ≡ last = ok-injective h in
    subst (λ l. (k : ℕ) × Rows p room t.previous [] l.previous k × (l.signed ≡ t.signed + k)) e
      (0, done, omega arith)
read_rows-Rows p room t last (line ∷ lines) h =
    let (v, read, h₁) = >>=-eq-ok (read_line p line) _ h in
    let (next, one, h₂) = >>=-eq-ok (read_row p room t v) _ h₁ in
    let (fields, seq, same, row) = read_row-IsRow p room t next v one in
    let (k, rest, counted) = read_rows-Rows p room next last lines h₂ in
    let started : Rows p room (some seq) lines last.previous k =
      subst (λ o. Rows p room o lines last.previous k) row.5 rest in
    let (j, rows, sum) =
      row_then p room t next line lines fields seq k last.previous (read ∙ ap ok same) row
        started in
    (j, rows, omega (arith, counted, sum))

-- The export behind a report.
pub record IsVerified (p : Platform) (room : Str) (file : File) (r : ExportReport) : Type 0 where
  pub named : is_room room ≡ true
  pub regular : file.regular ≡ true
  pub within : length file.content ≤ max_bytes
  pub rows : Rows p room none (splitlines file.content) r.last_seq r.signed_count
  pub counted : r.count ≡ length (splitlines file.content)
  pub sum : r.signed_count + r.unsigned_count ≡ r.count
  pub hashed : r.export_sha256 ≡ p.sha256 file.content

-- A report is returned only for a regular file of at most 16 MiB whose lines are records numbered one
-- after another; the reported last number is that of the last record, the signed count is the
-- number of records with a signature, all of which verify for the room, and the two counts add up.
pub verify_export-IsVerified :
    (p : Platform) (room : Str) (generation : ℤ) (file : File) (r : ExportReport)
    → verify_export p room generation file ≡ ok r
    → IsVerified p room file r
unfolding verify_export
verify_export-IsVerified p room (pos n) file r h =
    let (named, h₁) = guard-eq-ok (is_room room) _ _ h in
    let (bounded, h₂) = guard-eq-ok (leb n max_sequence) _ _ h₁ in
    let (regular, h₃) = guard-eq-ok file.regular _ _ h₂ in
    let (within, h₄) = guard-eq-ok (leb (length file.content) max_bytes) _ _ h₃ in
    let (last, read, h₅) =
      >>=-eq-ok
        (read_rows p room (record { previous = none; signed = 0 }) (splitlines file.content)) _
        h₄ in
    let (room_hash, a, h₆) = >>=-eq-ok (redacted_hash p room) _ h₅ in
    let (first, b, h₇) = >>=-eq-ok (first_seq p (splitlines file.content)) _ h₆ in
    let (k, rows, same) =
      read_rows-Rows p room (record { previous = none; signed = 0 }) last (splitlines file.content)
        read in
    let e : k ≡ last.signed = omega (arith, same) in
    subst (IsVerified p room file) (ok-injective h₇) (record {
      named = named;
      regular = regular;
      within = leb-≤ (length file.content) max_bytes within;
      rows = subst (Rows p room none (splitlines file.content) last.previous) e rows;
      counted = refl;
      sum = omega (arith, e, signed-Rows p room rows);
      hashed = refl;
    })
verify_export-IsVerified p room (negsuc n) file r h =
    let (named, h₁) = guard-eq-ok (is_room room) _ _ h in cc
