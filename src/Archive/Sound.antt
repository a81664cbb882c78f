-- ===== src/Archive/Sound.antt =====
-- What a report of the archive verifier vouches for.
use mathlib.Core.Path.{subst}
use flop_contributions.Prelude.{
  ℕ, suc, ◌+◌, ◌-◌, ◌≤◌, ◌≡◌, refl, sym, ap, ◌∙◌, Bool, true, false, ◌&&◌, some, List, [], ◌∷◌,
  arith, length, leb, ltb, ◌==◌, if◌then◌else◌, leb→le, ==_iff, Bool-cases, inl, inr,
}
use flop_contributions.Outcome.{ok, or_raise, >>=-eq-ok, guard-eq-ok, some-or_raise, ok-injective}
use flop_contributions.Text.{Str, eq_str}
use flop_contributions.Text.Laws.{eq_str_iff}
use flop_contributions.Json.{Value}
use flop_contributions.Platform.{Platform, File}
use flop_contributions.Archive.Index.{read, load, Entry, validate_index}
use flop_contributions.Archive.Listed.{validate_index-AllListed}
use flop_contributions.Archive.Commitments.{Directory, verify_commitments}
use flop_contributions.Archive.Committed.{AllCommitted, read-eq-ok, verify_commitments-AllCommitted}
use flop_contributions.Archive.Records.{
  Detail, insert_record, sorted_records, entry_at, is_full, expected_digest, minted_of,
  verify_record, verify_each, verify_records, ArchiveReport, distinct_sweeps, verify_archive,
}

-- The supplied file is the record that the index describes for the sweep.
pub record IsRecord (p : Platform) (entries : List Entry) (r : ℕ × File) (d : Detail) : Type 0 where
  pub entry : Entry
  pub indexed : entry_at entries (r.0 - 1) ≡ some entry
  pub within : r.0 ≤ length entries
  pub sized : length r.1.content ≡ entry.bytes
  pub hashed : p.sha256 r.1.content ≡ expected_digest entry
  pub shaped : (v : Value) × (load p r.1.content ≡ ok v) × (minted_of r.0 v ≡ some d.minted_count)
  pub told : (d.n ≡ r.0) × (d.is_full ≡ is_full entry) × (d.record_sha256 ≡ expected_digest entry)

abbrev pub AllRecords : Platform → List Entry → List (ℕ × File) → List Detail → Type 0
AllRecords p entries [] [] = Unit
AllRecords p entries [] (d ∷ ds) = ⊥
AllRecords p entries (r ∷ rs) [] = ⊥
AllRecords p entries (r ∷ rs) (d ∷ ds) = IsRecord p entries r d × AllRecords p entries rs ds

-- How many of the records are full.
abbrev pub full_among : List Detail → ℕ
full_among [] = 0
full_among (d ∷ ds) = if d.is_full then full_among ds + 1 else full_among ds

both : (a b : Bool) → (a && b) ≡ true → (a ≡ true) × (b ≡ true)
both true b h = (refl, h)
both false b h = cc

verify_record-IsRecord :
    (p : Platform) (entries : List Entry) (r : ℕ × File) (d : Detail)
    → verify_record p entries r ≡ ok d
    → IsRecord p entries r d
unfolding verify_record
verify_record-IsRecord p entries (n, file) d h =
    let (within, h₁) = guard-eq-ok (leb n (length entries)) _ _ h in
    let (entry, found, h₂) = >>=-eq-ok (or_raise (entry_at entries (n - 1)) _) _ h₁ in
    let (raw, opened, h₃) = >>=-eq-ok (read file) _ h₂ in
    let (matched, h₄) =
      guard-eq-ok (length raw == entry.bytes && eq_str (p.sha256 raw) (expected_digest entry)) _ _
        h₃ in
    let (v, loaded, h₅) = >>=-eq-ok (load p raw) _ h₄ in
    let (minted, shaped, h₆) = >>=-eq-ok (or_raise (minted_of n v) _) _ h₅ in
    let (size, hash) = both (length raw == entry.bytes) _ matched in
    let same = (read-eq-ok file raw opened).1 in
    let hashed : p.sha256 raw ≡ expected_digest entry = (eq_str_iff _ _).0 hash in
    subst (IsRecord p entries (n, file)) (ok-injective h₆) (record {
      entry = entry;
      indexed = some-or_raise _ _ found;
      within = leb→le n (length entries) within;
      sized = ap length (sym same) ∙ (==_iff (length raw) entry.bytes).0 size;
      hashed = ap p.sha256 (sym same) ∙ hashed;
      shaped = (v, ap (load p) (sym same) ∙ loaded, some-or_raise _ _ shaped);
      told = (refl, refl, hashed);
    })

abbrev Counts : Platform → List Entry → List (ℕ × File) → List Detail × ℕ × ℕ → Type 0
Counts p entries rs (ds, full, redacted) =
    AllRecords p entries rs ds × (full ≡ full_among ds) × (full + redacted ≡ length rs)

verify_each-Counts :
    (p : Platform) (entries : List Entry) (rs : List (ℕ × File)) (checked : List Detail × ℕ × ℕ)
    → verify_each p entries rs ≡ ok checked
    → Counts p entries rs checked
unfolding verify_each
verify_each-Counts p entries [] checked h =
    subst (Counts p entries []) (ok-injective h) (tt, refl, refl)
verify_each-Counts p entries (r ∷ rs) checked h =
    let (one, a, h₁) = >>=-eq-ok (verify_record p entries r) _ h in
    let (more, b, h₂) = >>=-eq-ok (verify_each p entries rs) _ h₁ in
    let (all, full, sum) = verify_each-Counts p entries rs more b in
    subst (Counts p entries (r ∷ rs)) (ok-injective h₂) (
      (verify_record-IsRecord p entries r one a, all),
      ap (λ k. if one.is_full then k + 1 else k) full,
      adds one.is_full more.1 more.2 (length rs) sum,
    )
  where
    adds :
        (b : Bool) (full redacted n : ℕ)
        → full + redacted ≡ n
        → (if b then full + 1 else full) + (if b then redacted else redacted + 1) ≡ suc n
    adds true full redacted n h = omega (arith, h)
    adds false full redacted n h = omega (arith, h)

length-insert_record :
    (r : ℕ × File) (rs : List (ℕ × File)) → length (insert_record r rs) ≡ suc (length rs)
unfolding insert_record
length-insert_record r [] = refl
length-insert_record r (q ∷ qs) = elim (Bool-cases (ltb q.0 r.0)) [
  | inl e ↦ rw (e, length-insert_record r qs)
  | inr e ↦ rw e
]

length-sorted_records : (rs : List (ℕ × File)) → length (sorted_records rs) ≡ length rs
unfolding sorted_records
length-sorted_records [] = refl
length-sorted_records (r ∷ rs) =
    length-insert_record r (sorted_records rs) ∙ ap suc (length-sorted_records rs)

-- The archive behind a report.
pub record IsArchive (p : Platform) (index : File) (directory : Directory) (contest_id : Str)
    (records : List (ℕ × File)) (r : ArchiveReport) : Type 0 where
  pub value : Value
  pub entries : List Entry
  pub loaded : load p index.content ≡ ok value
  pub validated : validate_index value contest_id ≡ ok entries
  pub hashed : r.index_sha256 ≡ p.sha256 index.content
  pub counted : r.indexed_sweeps ≡ length entries
  pub committed : AllCommitted p directory 1 entries
  pub checked : AllRecords p entries (sorted_records records) r.verified_records
  pub full : r.full_records ≡ full_among r.verified_records
  pub sum : r.full_records + r.redacted_records ≡ length records

-- A report is returned only where the index is one of the contest, with entries numbered from 1
-- without gap; where for every one of them the directory holds a flow record with a valid
-- signature that commits to the entry's file for that number; and where every supplied record stands
-- in the index and has its size and digest; and the counts of full and redacted records add up to the
-- number of supplied ones.
pub verify_archive-IsArchive :
    (p : Platform) (index : File) (directory : Directory) (contest_id : Str)
    (records : List (ℕ × File)) (r : ArchiveReport)
    → verify_archive p index directory contest_id records ≡ ok r
    → IsArchive p index directory contest_id records r
unfolding verify_archive verify_records
verify_archive-IsArchive p index directory contest_id records r h =
    let (raw, opened, h₁) = >>=-eq-ok (read index) _ h in
    let (value, loaded, h₂) = >>=-eq-ok (load p raw) _ h₁ in
    let (entries, validated, h₃) = >>=-eq-ok (validate_index value contest_id) _ h₂ in
    let (distinct, h₄) = guard-eq-ok (distinct_sweeps records) _ _ h₃ in
    let (u, signed, h₅) = >>=-eq-ok (verify_commitments p entries directory) _ h₄ in
    let (result, each, h₆) = >>=-eq-ok (verify_each p entries (sorted_records records)) _ h₅ in
    let (all, full, sum) = verify_each-Counts p entries (sorted_records records) result each in
    let same = (read-eq-ok index raw opened).1 in
    subst (IsArchive p index directory contest_id records) (ok-injective h₆) (record {
      value = value;
      entries = entries;
      loaded = ap (load p) (sym same) ∙ loaded;
      validated = validated;
      hashed = ap p.sha256 same;
      counted = refl;
      committed =
          verify_commitments-AllCommitted p directory entries
            (validate_index-AllListed value contest_id entries validated) signed;
      checked = all;
      full = full;
      sum = sum ∙ length-sorted_records records;
    })
