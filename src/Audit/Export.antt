-- ===== src/Audit/Export.antt =====
-- `read_bounded` and `load_export`: a room export and its capture metadata.
use flop_contributions.Prelude.{
  ℕ, suc, ◌*◌, pos, Bool, true, false, ◌&&◌, ◌||◌, Option, none, some, List, [], ◌∷◌, String,
  length, leb, ◌==◌, if◌then◌else◌,
}
use flop_contributions.Outcome.{Outcome, ok, err, value_error, ◌>>=◌, ◌>>◌, guard, or_raise}
use flop_contributions.Text.{Str, Bytes, is_room}
use flop_contributions.Text.Lines.{splitlines}
use flop_contributions.Json.{
  Value, int, str, obj, Fields, get, has_key, has_exactly, is_str, is_int,
}
use flop_contributions.Platform.{Platform, File, loads_bytes}
use flop_contributions.Tclk.Patterns.{max_chars}
use flop_contributions.Tclk.Transport.{verify_transport, parse_time}
use flop_contributions.Tclk.Transcript.{message_keys, value_at, bounded, text_or_empty}

abbrev pub limit : ℕ
limit = 16 * 1024 * 1024

abbrev pub capture_keys : List String
capture_keys = "room" ∷ "generation" ∷ "first_seq" ∷ "last_seq" ∷ "sha256" ∷ []

abbrev pub unsigned_keys : List String
unsigned_keys = "seq" ∷ "from" ∷ "ts" ∷ "text" ∷ []

-- At most `limit + 1` bytes are read, so a longer file is refused.
unfoldable pub read_bounded : File → Outcome Bytes
read_bounded file = do
  guard file.regular "input must be a regular file"
  guard (leb (length file.content) limit) "input exceeds 16 MiB"
  ok file.content

abbrev pub is_text : Value → Bool
is_text (str s) = true
is_text _ = false

abbrev pub short_text : Value → Bool
short_text (str s) = leb (length s) max_chars
short_text _ = false

abbrev is_room_name : Value → Bool
is_room_name (str s) = is_room s
is_room_name _ = false

-- The value of a nonnegative int.
abbrev pub bounded_int : Value → Option ℕ
bounded_int (int (pos n)) = some n
bounded_int _ = none

-- `if "sig" in record: verify_transport(room, record)`
unfoldable pub verify_if_signed : Platform → Str → Fields → Outcome (Unit {0})
unfolding verify_transport has_key
verify_if_signed p room record_fields =
    if has_key "sig" record_fields then verify_transport p room record_fields else ok tt

-- One line of an export, which has to carry the sequence number `expected`.
unfoldable pub read_record : Platform → Str → ℕ → Value → Outcome Fields
unfolding has_exactly verify_if_signed parse_time value_at
read_record p room expected (obj fields) = do
  guard (has_exactly fields message_keys || has_exactly fields unsigned_keys)
      "invalid export record shape"
  seq ← or_raise (bounded_int (value_at "seq" fields)) "export sequence gap, reorder, or replay"
  guard (seq == expected) "export sequence gap, reorder, or replay"
  guard (short_text (value_at "text" fields)) "invalid record text"
  guard (is_text (value_at "from" fields)) "invalid record sender"
  parse_time p (get "ts" fields)
  verify_if_signed p room fields
  ok fields
read_record p room expected _ = err (value_error "invalid export record shape")

unfoldable pub read_records : Platform → Str → ℕ → List Bytes → Outcome (List Fields)
unfolding read_record loads_bytes
read_records p room expected [] = ok []
read_records p room expected (line ∷ lines) = do
  value ← loads_bytes p line
  one ← read_record p room expected value
  more ← read_records p room (suc expected) lines
  ok (one ∷ more)

-- The checked capture metadata of one room.
pub record Capture : Type 0 where
  pub room : Str
  pub generation : ℕ
  pub first_seq : ℕ
  pub last_seq : ℕ

unfoldable pub read_capture : Value → Outcome (Capture × Fields)
unfolding has_exactly value_at bounded is_room
read_capture (obj fields) = do
  guard (has_exactly fields capture_keys) "invalid capture metadata shape"
  guard (is_room_name (value_at "room" fields)) "invalid capture room"
  generation ← or_raise (bounded (value_at "generation" fields)) "invalid capture integer"
  first_seq ← or_raise (bounded (value_at "first_seq" fields)) "invalid capture integer"
  last_seq ← or_raise (bounded (value_at "last_seq" fields)) "invalid capture integer"
  ok (
    record {
      room = text_or_empty (value_at "room" fields);
      generation = generation;
      first_seq = first_seq;
      last_seq = last_seq;
    },
    fields,
  )
read_capture _ = err (value_error "invalid capture metadata shape")

-- `records and records[-1]["seq"] == last`
unfoldable pub ends_at : List Fields → ℕ → Bool
unfolding is_int value_at
ends_at [] last = false
ends_at (r ∷ []) last = is_int (value_at "seq" r) (pos last)
ends_at (r ∷ q ∷ rs) last = ends_at (q ∷ rs) last

unfoldable pub load_export : Platform → File → Value → Outcome (Capture × List Fields)
unfolding ends_at read_capture read_bounded read_records splitlines value_at is_str
load_export p file descriptor = do
  capture ← read_capture descriptor
  raw ← read_bounded file
  guard (is_str (value_at "sha256" capture.1) (p.sha256 raw)) "export does not match capture digest"
  records ← read_records p capture.0.room capture.0.first_seq (splitlines raw)
  guard (leb 1 capture.0.first_seq && ends_at records capture.0.last_seq)
      "empty or truncated export"
  ok (capture.0, records)
