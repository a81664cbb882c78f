-- ===== src/Archive/Index.antt =====
-- `read`, `load` and `validate_index`.
use flop_contributions.Prelude.{
  ℕ, suc, pos, Bool, false, Option, none, some, List, [], ◌∷◌, ◌++◌, String, length, leb, ltb,
  if◌then◌else◌,
}
use flop_contributions.Outcome.{
  Outcome, ok, err, value_error, type_error, ◌>>=◌, ◌>>◌, guard, or_raise,
}
use flop_contributions.Text.{Str, Bytes, codes, eq_str}
use flop_contributions.Text.Pure.{is_safe_path}
use flop_contributions.Json.{Value, int, str, obj, Fields, has_exactly, is_str, is_int, hook}
use flop_contributions.Platform.{Platform, File}
use flop_contributions.Tclk.Transcript.{value_at}
use flop_contributions.CloseCall.Envelope.{max_file_bytes, is_hash, hash_of, list_of}

abbrev pub full_keys : List String
full_keys = "bytes" ∷ "file" ∷ "n" ∷ "path" ∷ "status" ∷ []

abbrev pub redacted_keys : List String
redacted_keys = "bytes" ∷ "file" ∷ "n" ∷ "path" ∷ "status" ∷ "redacted" ∷ "sha256" ∷ []

unfoldable pub read : File → Outcome Bytes
read file = do
  guard file.regular "must be a regular file"
  guard (leb (length file.content) max_file_bytes) "exceeds 32 MiB"
  ok file.content

-- NaN and Infinity are refused.
unfoldable pub load : Platform → Bytes → Outcome Value
unfolding hook
load p raw = do
  text ← or_raise (p.decode_utf8 raw) "is invalid JSON"
  value ← or_raise (p.parse_finite text) "is invalid JSON"
  hook value

-- A checked entry. `n` is kept as it was read; `redacted` is the digest of a redacted record.
pub record Entry : Type 0 where
  pub n : Value
  pub bytes : ℕ
  pub file : Str
  pub redacted : Option Str

abbrev pub size_of : Value → Option ℕ
size_of (int (pos n)) = if leb n max_file_bytes then some n else none
size_of _ = none

-- `PurePosixPath` raises TypeError for what is no text.
unfoldable pub check_path : Value → Str → Outcome (Unit {0})
unfolding is_safe_path eq_str
check_path (str path) expected = do
  guard (is_safe_path path) "sweep has an unsafe path"
  guard (eq_str path expected) "sweep has an unexpected path"
check_path _ expected = err type_error

abbrev pub is_count : Value → Bool
is_count (int (pos n)) = ltb 0 n
is_count _ = false

-- f"{folder}/{file}.json"
abbrev pub path_of : Str → Str → Str
path_of folder file = folder ++ codes "/" ++ file ++ codes ".json"

unfoldable pub check_full : Fields → Outcome Entry
unfolding has_exactly value_at check_path is_hash
check_full entry = do
  guard (has_exactly entry full_keys) "sweep has an invalid index entry"
  size ← or_raise (size_of (value_at "bytes" entry)) "sweep has an invalid size"
  file ← or_raise (hash_of (value_at "file" entry)) "sweep has an invalid commitment"
  check_path (value_at "path" entry) (path_of (codes "sweeps") file)
  ok (record { n = value_at "n" entry; bytes = size; file = file; redacted = none })

unfoldable pub check_redacted : Fields → Outcome Entry
unfolding has_exactly value_at check_path is_hash
check_redacted entry = do
  guard (has_exactly entry redacted_keys) "sweep has an invalid index entry"
  size ← or_raise (size_of (value_at "bytes" entry)) "sweep has an invalid size"
  file ← or_raise (hash_of (value_at "file" entry)) "sweep has an invalid commitment"
  check_path (value_at "path" entry) (path_of (codes "redacted") file)
  guard (is_count (value_at "redacted" entry)) "sweep has invalid redaction metadata"
  hash ← or_raise (hash_of (value_at "sha256" entry)) "sweep has invalid redaction metadata"
  ok (record { n = value_at "n" entry; bytes = size; file = file; redacted = some hash })

-- One entry, which has to carry the number `expected`.
unfoldable pub check_entry : ℕ → Value → Outcome Entry
unfolding value_at is_int is_str check_full check_redacted
check_entry expected (obj entry) = do
  guard (is_int (value_at "n" entry) (pos expected)) "index is not contiguous"
  if is_str (value_at "status" entry) (codes "full")
      then check_full entry
      else if is_str (value_at "status" entry) (codes "redacted")
      then check_redacted entry
      else err (value_error "sweep has an invalid index entry")
check_entry expected _ = err (value_error "index is not contiguous")

unfoldable pub check_entries : ℕ → List Value → Outcome (List Entry)
unfolding check_entry
check_entries expected [] = ok []
check_entries expected (v ∷ vs) = do
  one ← check_entry expected v
  more ← check_entries (suc expected) vs
  ok (one ∷ more)

unfoldable pub validate_index : Value → Str → Outcome (List Entry)
unfolding has_exactly value_at is_str check_entries
validate_index (obj index) contest_id = do
  guard (has_exactly index ("contest" ∷ "sweeps" ∷ [])) "index has an unexpected shape"
  guard (is_str (value_at "contest" index) contest_id) "index contest does not match"
  entries ← or_raise (list_of (value_at "sweeps" index)) "index contest does not match"
  check_entries 1 entries
validate_index _ contest_id = err (value_error "index has an unexpected shape")
