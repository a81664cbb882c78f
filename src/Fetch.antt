-- ===== src/Fetch.antt =====
-- scripts/fetch-mailbox-once.py: one run of the fetch timer, on the private state directory.
pub mod Paused
pub mod Timer
use flop_contributions.Prelude.{
  ℕ, ◌+◌, ℤ, pos, Bool, true, false, not, ◌&&◌, ◌||◌, Option, none, some, List, [], ◌∷◌, ◌==◌,
  if◌then◌else◌,
}
use flop_contributions.Outcome.{
  Outcome, ok, err, value_error, os_error, subprocess_error, ◌>>=◌, ◌>>◌, guard, or_raise,
}
use flop_contributions.Text.{Str, Bytes, codes}
use flop_contributions.Json.{Value, int, obj, Fields, is_str}
use flop_contributions.Json.Plain.{plain}
use flop_contributions.Platform.{Platform}
use flop_contributions.Mailbox.Files.{newlines}
use flop_contributions.Tclk.Transcript.{value_at}

-- The state directory. The lock is free where no other run holds it; `pending` is the poller's file, and
-- `linked` says that one of the three files which the poller uses is a symlink.
pub record Home : Type 0 where
  pub is_link : Bool
  pub owner : ℕ
  pub mode : ℕ
  pub lock_free : Bool
  pub halt : Bool
  pub batch : Option Bytes
  pub pending : Bool
  pub linked : Bool
  pub has_poller : Bool

-- What a run of the poller leaves: its exit status (`none` where it is stopped after 45 seconds or cannot
-- be started), its output, whether its pending file is there, and a batch that was saved by hand meanwhile.
pub record Poll : Type 0 where
  pub returncode : Option ℕ
  pub output : Bytes
  pub left_pending : Bool
  pub saved_meanwhile : Option Bytes

-- The message that is printed.
pub data Note : Type 0 where
  busy paused transient empty saved : Note

abbrev pub is_there {ℓ} : {A : Type ℓ} → Option A → Bool
is_there none = false
is_there (some a) = true

-- `type(data.get('count')) is int and data['count'] >= 0`
abbrev pub count_of : Value → Option ℕ
count_of (int (pos n)) = some n
count_of _ = none

-- The number of messages of a well-formed batch.
unfoldable pub batch_count : Value → Outcome ℕ
unfolding is_str value_at
batch_count (obj fields) = do
  guard (is_str (value_at "status" fields) (codes "ok")) "invalid batch"
  or_raise (count_of (value_at "count" fields)) "invalid batch"
batch_count _ = err (value_error "invalid batch")

-- The output is read back as UTF-8 and parsed.
unfoldable pub read_output : Platform → Bytes → Outcome ℕ
unfolding batch_count plain newlines
read_output p output = do
  text ← or_raise (p.decode_utf8 output) "UnicodeDecodeError"
  value ← or_raise (p.parse_json (newlines text)) "JSONDecodeError"
  batch_count (plain value)

-- `os.link` does not replace a batch that is there.
unfoldable pub publish : Home → Bytes → Home × Outcome Note
publish s output = elim s.batch [
  | none ↦ (record s { batch = some output }, ok saved)
  | some b ↦ (s, err os_error)
]

-- What follows the poll, in the state that it left.
unfoldable pub after_status : Platform → Home → Bytes → ℕ → Home × Outcome Note
unfolding read_output publish
after_status p s output code =
    if code == 75 && not s.pending
    then (record s { halt = false }, ok transient)
    else if not (code == 0)
    then (s, err (value_error "poll failed"))
    else (elim (read_output p output) [
      | err e ↦ (s, err e)
      | ok count ↦
          if count == 0 && not s.pending
          then (record s { halt = false }, ok empty)
          else publish s output
    ])

unfoldable pub after_poll : Platform → Home → Poll → Home × Outcome Note
unfolding after_status
after_poll p s poll = elim poll.returncode [
  | none ↦ (s, err subprocess_error)
  | some code ↦ after_status p s poll.output code
]

-- The pause is written before the poller runs.
abbrev pub halted : Home → Home
halted s = record s { halt = true }

abbrev pub polled : Home → Poll → Home
polled s poll = record s { pending = poll.left_pending; batch = poll.saved_meanwhile }

abbrev pub is_private : ℕ → Home → Bool
is_private user s = s.owner == user && s.mode == 448

abbrev pub is_paused : Home → Bool
is_paused s = s.halt || is_there s.batch || s.pending

-- `main`, for the user `user`; mode 0o700 is 448.
unfoldable pub fetch : Platform → ℕ → Poll → Home → Home × Outcome Note
unfolding after_poll
fetch p user poll s =
    if s.is_link
    then (s, err (value_error "unsafe state"))
    else if not (is_private user s)
    then (s, err (value_error "unsafe state"))
    else if not s.lock_free
    then (s, ok busy)
    else if is_paused s
    then (s, ok paused)
    else if s.linked
    then (s, err (value_error "unsafe state file"))
    else if not s.has_poller
    then (halted s, err (value_error "unsafe poller"))
    else after_poll p (polled (halted s) poll) poll
