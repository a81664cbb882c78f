-- ===== src/Archive/Records.antt =====
-- `verify_records` and `main`: the supplied records, by their sweeps, which are at least 1.
use flop_contributions.Prelude.{
  ℕ, zero, suc, ◌+◌, ◌-◌, pos, Bool, true, false, ◌&&◌, Option, none, some, List, [], ◌∷◌, length,
  ltb, leb, ◌==◌, if◌then◌else◌,
}
use flop_contributions.Outcome.{Outcome, ok, ◌>>=◌, ◌>>◌, guard, or_raise}
use flop_contributions.Text.{Str, eq_str}
use flop_contributions.Json.{Value, arr, obj, elements, is_int}
use flop_contributions.Platform.{Platform, File}
use flop_contributions.Tclk.Transcript.{value_at}
use flop_contributions.Archive.Index.{read, load, Entry, validate_index}
use flop_contributions.Archive.Commitments.{Directory, verify_commitments}

pub record Detail : Type 0 where
  pub n : ℕ
  pub is_full : Bool
  pub record_sha256 : Str
  pub minted_count : ℕ

unfoldable pub insert_record : ℕ × File → List (ℕ × File) → List (ℕ × File)
insert_record r [] = r ∷ []
insert_record r (q ∷ qs) = if ltb q.0 r.0 then q ∷ insert_record r qs else r ∷ q ∷ qs

-- `sorted(records.items())`: no two records have the same sweep.
unfoldable pub sorted_records : List (ℕ × File) → List (ℕ × File)
unfolding insert_record
sorted_records [] = []
sorted_records (r ∷ rs) = insert_record r (sorted_records rs)

-- `entries[i]` for an `i` from 0 on
unfoldable pub entry_at : List Entry → ℕ → Option Entry
entry_at [] i = none
entry_at (e ∷ es) zero = some e
entry_at (e ∷ es) (suc i) = entry_at es i

abbrev pub is_full : Entry → Bool
is_full entry = elim entry.redacted [ none ↦ true | some h ↦ false ]

-- The digest that the record has to have.
abbrev pub expected_digest : Entry → Str
expected_digest entry = elim entry.redacted [ none ↦ entry.file | some h ↦ h ]

-- `record["output"]["minted"]`, in a record of the shape of the sweep `n`
unfoldable pub minted_of : ℕ → Value → Option ℕ
unfolding value_at is_int
minted_of n (obj record_fields) =
    count (value_at "input" record_fields) (value_at "output" record_fields)
  where
    listed : Value → Option ℕ
    listed (arr xs) = some (length (elements xs))
    listed _ = none

    count : Value → Value → Option ℕ
    count (obj input) (obj output) =
        if is_int (value_at "n" input) (pos n) && is_int (value_at "sweep" output) (pos n)
        then listed (value_at "minted" output)
        else none
    count _ _ = none
minted_of n _ = none

unfoldable pub verify_record : Platform → List Entry → ℕ × File → Outcome Detail
unfolding entry_at read load minted_of
verify_record p entries (n, file) = do
  guard (leb n (length entries)) "record sweep is absent from the index"
  entry ← or_raise (entry_at entries (n - 1)) "IndexError"
  raw ← read file
  guard (length raw == entry.bytes && eq_str (p.sha256 raw) (expected_digest entry))
      "archive record does not match its index digest and size"
  content ← load p raw
  minted ← or_raise (minted_of n content) "archive record has an invalid sweep shape"
  ok (record {
    n = n;
    is_full = is_full entry;
    record_sha256 = p.sha256 raw;
    minted_count = minted;
  })

-- The loop, with the numbers of full and of redacted records.
unfoldable pub verify_each : Platform → List Entry → List (ℕ × File) → Outcome (List Detail × ℕ × ℕ)
unfolding verify_record
verify_each p entries [] = ok ([], 0, 0)
verify_each p entries (r ∷ rs) = do
  one ← verify_record p entries r
  more ← verify_each p entries rs
  ok (
    one ∷ more.0,
    (if one.is_full then more.1 + 1 else more.1),
    (if one.is_full then more.2 else more.2 + 1),
  )

unfoldable pub verify_records :
    Platform → List (ℕ × File) → List Entry → Outcome (List Detail × ℕ × ℕ)
unfolding verify_each sorted_records
verify_records p records entries = verify_each p entries (sorted_records records)

pub record ArchiveReport : Type 0 where
  pub index_sha256 : Str
  pub indexed_sweeps : ℕ
  pub verified_records : List Detail
  pub full_records : ℕ
  pub redacted_records : ℕ

-- `len(dict(pairs)) == len(pairs)`
unfoldable pub distinct_sweeps : List (ℕ × File) → Bool
distinct_sweeps [] = true
distinct_sweeps (r ∷ rs) = absent rs && distinct_sweeps rs
  where
    absent : List (ℕ × File) → Bool
    absent [] = true
    absent (q ∷ qs) = (if q.0 == r.0 then false else true) && absent qs

-- `main` between its arguments and the printed report.
unfoldable pub verify_archive :
    Platform → File → Directory → Str → List (ℕ × File) → Outcome ArchiveReport
unfolding read load validate_index distinct_sweeps verify_commitments verify_records
verify_archive p index directory contest_id records = do
  raw ← read index
  value ← load p raw
  entries ← validate_index value contest_id
  guard (distinct_sweeps records) "an archive sweep was supplied more than once"
  verify_commitments p entries directory
  checked ← verify_records p records entries
  ok (record {
    index_sha256 = p.sha256 raw;
    indexed_sweeps = length entries;
    verified_records = checked.0;
    full_records = checked.1;
    redacted_records = checked.2;
  })
