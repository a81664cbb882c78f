-- ===== src/CloseCall/Package.antt =====
-- `verify_package` and `main`: the frozen package, its contest and its referee rooms.
use flop_contributions.Prelude.{
  ℕ, pos, Bool, true, false, not, ◌&&◌, Option, none, some, List, [], ◌∷◌, map, length, ◌==◌,
  if◌then◌else◌,
}
use flop_contributions.Outcome.{Outcome, ok, err, value_error, ◌>>=◌, ◌>>◌, guard, or_raise}
use flop_contributions.Text.{Str, codes, eq_str, mem_str, is_room}
use flop_contributions.Text.Pure.{is_safe_path}
use flop_contributions.Json.{
  Value, int, str, obj, Fields, end, field, keys, has_key, is_str, is_int,
}
use flop_contributions.Platform.{Platform, File}
use flop_contributions.Tclk.Transcript.{value_at}
use flop_contributions.CloseCall.Envelope.{is_hash, hash_of, list_of, load_json, read_regular}
use flop_contributions.CloseCall.Rooms.{room_types, firsts, classify_rooms}
use flop_contributions.CloseCall.Evidence.{Evidence, verify_exports}

-- The package's directory: the files under it by their names, and whether a name resolves to an
-- existing file inside of it.
pub record Package : Type 0 where
  pub is_real : Bool
  pub file : Str → File
  pub stays_inside : Str → Bool

abbrev pub artifact_size : Value → Option ℕ
artifact_size (int (pos n)) = some n
artifact_size _ = none

-- One entry of the manifest's files.
unfoldable pub check_artifact : Platform → Package → Str → Value → Outcome (Unit {0})
unfolding is_safe_path value_at is_str read_regular eq_str
check_artifact p folder name (obj metadata) = do
  guard (is_safe_path name) "unsafe artifact path"
  guard (is_str (value_at "url" metadata) name) "artifact URL is not package-relative"
  size ← or_raise (artifact_size (value_at "bytes" metadata)) "invalid artifact size"
  hash ← or_raise (hash_of (value_at "sha256" metadata)) "invalid artifact hash"
  guard (folder.stays_inside name) "artifact escapes the package"
  raw ← read_regular (folder.file name)
  guard (length raw == size && eq_str (p.sha256 raw) hash) "artifact does not match manifest"
check_artifact p folder name _ = err (value_error "invalid manifest artifact")

unfoldable pub check_artifacts : Platform → Package → Fields → Outcome (Unit {0})
unfolding check_artifact
check_artifacts p folder end = ok tt
check_artifacts p folder (field name metadata files) = do
  check_artifact p folder (codes name) metadata
  check_artifacts p folder files

abbrev pub some_files : Value → Option Fields
some_files (obj (field name metadata files)) = some (field name metadata files)
some_files _ = none

-- `isinstance(entrypoint, str) and entrypoint in files`
abbrev pub is_listed : Value → Fields → Bool
is_listed (str name) files = mem_str name (map codes (keys files))
is_listed _ files = false

unfoldable pub check_manifest : Value → Outcome Fields
unfolding is_int is_str value_at mem_str keys has_key
check_manifest (obj manifest) = do
  guard (is_int (value_at "schema_version" manifest) (pos 1)) "unsupported manifest schema"
  guard (is_str (value_at "package" manifest) (codes "technocore-close-call"))
      "unexpected package name"
  files ← or_raise (some_files (value_at "files" manifest)) "manifest has no files"
  guard (is_listed (value_at "entrypoint" manifest) files)
      "manifest entrypoint is not a listed artifact"
  guard (has_key "contest.json" files) "contest config is not a listed artifact"
  ok files
check_manifest _ = err (value_error "unsupported manifest schema")

-- A valid name of a room.
abbrev pub room_name : Value → Option Str
room_name (str s) = if is_room s then some s else none
room_name _ = none

unfoldable pub room_names : List Value → Outcome (List Str)
unfolding is_room
room_names [] = ok []
room_names (v ∷ vs) = do
  name ← or_raise (room_name v) "contest config contains an invalid referee room"
  names ← room_names vs
  ok (name ∷ names)

-- `len(set(names)) == len(names)`
unfoldable pub distinct_names : List Str → Bool
unfolding mem_str
distinct_names [] = true
distinct_names (s ∷ ss) = not (mem_str s ss) && distinct_names ss

-- The list of the referee's rooms, where `rooms` is a dict.
unfoldable pub referee_list : Value → Option (List Value)
unfolding value_at
referee_list (obj rooms) = list_of (value_at "referee" rooms)
referee_list _ = none

unfoldable pub check_contest : Value → Str → Outcome (List Str)
unfolding is_str value_at referee_list room_types room_names distinct_names
check_contest (obj contest) contest_id = do
  guard (is_str (value_at "contest_id" contest) contest_id)
      "contest ID does not match the reviewed value"
  rooms ←
      or_raise (referee_list (value_at "rooms" contest))
        "contest config does not name five referee rooms"
  guard (length rooms == length (firsts room_types))
      "contest config does not name five referee rooms"
  names ← room_names rooms
  guard (distinct_names names) "contest config repeats a referee room"
  ok names
check_contest _ contest_id = err (value_error "contest ID does not match the reviewed value")

unfoldable pub verify_package : Platform → Package → Str → Str → Outcome (List Str)
unfolding read_regular eq_str load_json check_manifest check_artifacts check_contest
verify_package p folder expected_hash contest_id = do
  raw ← read_regular (folder.file (codes "manifest.json"))
  guard (eq_str (p.sha256 raw) expected_hash) "manifest SHA-256 mismatch"
  manifest ← load_json p raw
  files ← check_manifest manifest
  check_artifacts p folder files
  contest_raw ← read_regular (folder.file (codes "contest.json"))
  contest ← load_json p contest_raw
  check_contest contest contest_id

-- `main` between its arguments and the printed report.
unfoldable pub verify_close_call :
    Platform → Package → Str → Str → List (Str × File) → Outcome Evidence
unfolding is_hash verify_package distinct_names classify_rooms verify_exports
verify_close_call p folder expected_hash contest_id exports = do
  guard (is_hash expected_hash) "expected manifest SHA-256 must be 64 lowercase hex characters"
  guard folder.is_real "package must be a real directory"
  rooms ← verify_package p folder expected_hash contest_id
  guard (distinct_names (firsts exports)) "a room export was supplied more than once"
  roles ← classify_rooms rooms
  verify_exports p exports
      (record { expected_hash = expected_hash; contest_id = contest_id; roles = roles })
