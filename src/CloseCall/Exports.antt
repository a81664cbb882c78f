-- ===== src/CloseCall/Exports.antt =====
-- `verify_exports`: the exports of the five referee rooms.
use flop_contributions.Prelude.{
  ℕ, ◌+◌, pos, Bool, true, false, not, ◌&&◌, Option, none, some, List, [], ◌∷◌, ◌++◌, length, ◌==◌,
  if◌then◌else◌,
}
use flop_contributions.Outcome.{
  Outcome, ok, err, value_error, type_error, key_error, ◌>>=◌, ◌>>◌, guard, or_raise,
}
use flop_contributions.Text.{Str, Bytes, codes, eq_str, mem_str}
use flop_contributions.Text.Lines.{splitlines}
use flop_contributions.Json.{Value, int, str, arr, obj, Fields, Items, cons, nil, is_str}
use flop_contributions.Platform.{Platform, File}
use flop_contributions.Table.{find}
use flop_contributions.Tclk.Transcript.{value_at}
use flop_contributions.CloseCall.Envelope.{
  hash_of, load_json, read_regular, object_of, verify_envelope,
}
use flop_contributions.CloseCall.Rooms.{room_types, seconds, ends_with}

-- The variables of the loop over the lines of a room; `room_sweeps` holds the commitments of the sweeps
-- from 1 on.
pub record Progress : Type 0 where
  pub referee : Option Value
  pub seeded : Bool
  pub final_seen : Bool
  pub previous_seq : ℕ
  pub room_sweeps : List Str

-- What is reviewed: the manifest's digest, the contest, and the rooms of the kinds.
pub record Reviewed : Type 0 where
  pub expected_hash : Str
  pub contest_id : Str
  pub roles : List (Str × Str)

-- Both senders are texts, since their signatures verified.
abbrev pub same_text : Value → Value → Bool
same_text (str s) (str t) = eq_str s t
same_text _ _ = false

unfoldable pub check_referee : Option Value → Value → Outcome (Unit {0})
unfolding eq_str
check_referee none sender = ok tt
check_referee (some referee) sender = guard (same_text sender referee) "referee DID changed"

-- `message_type not in ROOM_TYPES[kind]`: a list or a dict has no hash.
unfoldable pub type_in : Value → List Str → Outcome Str
unfolding mem_str
type_in (str t) types = do guard (mem_str t types) "unexpected message type"; ok t
type_in (arr xs) types = err type_error
type_in (obj fs) types = err type_error
type_in _ types = err (value_error "unexpected message type")

-- `message.get("rooms") == list(roles.values())`
unfoldable pub are_texts : Items → List Str → Bool
unfolding is_str
are_texts nil [] = true
are_texts (cons v vs) (s ∷ ss) = is_str v s && are_texts vs ss
are_texts _ _ = false

abbrev pub is_list : Value → List Str → Bool
is_list (arr xs) ss = are_texts xs ss
is_list _ ss = false

abbrev pub is_exactly : ℕ → Value → Bool
is_exactly n (int (pos m)) = m == n
is_exactly n _ = false

unfoldable pub enter_seed : Reviewed → Str → ℕ → Fields → Progress → Outcome Progress
unfolding eq_str value_at is_str are_texts
enter_seed reviewed kind seq message s = do
  guard (eq_str kind (codes "price") && not s.seeded && seq == 1)
      "seed must be the first and only seed in the price room"
  guard
      (is_str (value_at "season" message) reviewed.contest_id
        && is_str (value_at "package" message) reviewed.expected_hash)
      "seed does not bind the reviewed contest and manifest"
  guard (is_list (value_at "rooms" message) (seconds reviewed.roles))
      "seed referee-room list differs from the package"
  ok (record s { seeded = true })

-- `last`: the line is the last one of the room.
unfoldable pub enter_final : Str → Bool → Progress → Outcome Progress
unfolding eq_str
enter_final kind last s = do
  guard (eq_str kind (codes "price") && not s.final_seen && last)
      "final must be the last and only final price-room record"
  ok (record s { final_seen = true })

unfoldable pub enter_sweep : Fields → Progress → Outcome Progress
unfolding value_at
enter_sweep message s = do
  guard (is_exactly (length s.room_sweeps + 1) (value_at "n" message))
      "sweep numbers are not complete"
  hash ← or_raise (hash_of (value_at "file" message)) "sweep has no valid file commitment"
  ok (record s { room_sweeps = s.room_sweeps ++ hash ∷ [] })

unfoldable pub enter_message :
    Reviewed → Str → Bool → ℕ → Str → Fields → Progress → Outcome Progress
unfolding eq_str enter_seed enter_final enter_sweep
enter_message reviewed kind last seq message_type message s =
    if eq_str message_type (codes "seed")
    then enter_seed reviewed kind seq message s
    else if eq_str message_type (codes "final")
    then enter_final kind last s
    else enter_sweep message s

-- `ROOM_TYPES[kind]`
abbrev pub types_of : Str → Outcome (List Str)
types_of kind = elim (find kind room_types) [ none ↦ err key_error | some types ↦ ok types ]

-- One line of the export of a room.
unfoldable pub read_message :
    Platform → Reviewed → Str → Str → Bool → Bytes → Progress → Outcome Progress
unfolding load_json verify_envelope check_referee type_in value_at find room_types enter_message
read_message p reviewed kind room last line s = do
  value ← load_json p line
  fields ← object_of value
  sealed ← verify_envelope p room fields
  check_referee s.referee sealed.sender
  guard (sealed.seq == s.previous_seq + 1) "export sequence is not complete"
  types ← types_of kind
  message_type ← type_in (value_at "t" sealed.message) types
  enter_message reviewed kind last sealed.seq message_type sealed.message
      (record s { referee = some sealed.sender; previous_seq = sealed.seq })

abbrev pub none_left : List Bytes → Bool
none_left [] = true
none_left (line ∷ lines) = false

unfoldable pub read_messages :
    Platform → Reviewed → Str → Str → List Bytes → Progress → Outcome Progress
unfolding read_message
read_messages p reviewed kind room [] s = ok s
read_messages p reviewed kind room (line ∷ lines) s = do
  next ← read_message p reviewed kind room (none_left lines) line s
  read_messages p reviewed kind room lines next

-- What the rooms so far gave: the commitments and the number of lines of each.
abbrev pub Room : Type 0
Room = Str × List Str × ℕ

unfoldable pub read_room :
    Platform → Reviewed → List (Str × File) → Str → Str → Progress → Outcome (Progress × ℕ)
unfolding find read_regular ends_with splitlines read_messages
read_room p reviewed paths kind room s = do
  file ← elim (find room paths) [ none ↦ err key_error | some file ↦ ok file ]
  raw ← read_regular file
  guard (ends_with (codes "\n") raw) "export must be nonempty and newline-terminated"
  last ←
      read_messages p reviewed kind room (splitlines raw)
        (record s { previous_seq = 0; room_sweeps = [] })
  ok (last, length (splitlines raw))

unfoldable pub read_rooms :
    Platform
    → Reviewed
    → List (Str × File)
    → List (Str × Str)
    → Progress
    → Outcome (Progress × List Room)
unfolding read_room
read_rooms p reviewed paths [] s = ok (s, [])
read_rooms p reviewed paths ((kind, room) ∷ roles) s = do
  one ← read_room p reviewed paths kind room s
  more ← read_rooms p reviewed paths roles one.0
  ok (more.0, (room, one.0.room_sweeps, one.1) ∷ more.1)
