-- ===== src/Mailbox/Files.antt =====
-- `load_json_object`, `require_private_file` and `read_room`: the files that the review reads.
use flop_contributions.Prelude.{
  ℕ, ◌*◌, ◌%◌, true, ◌&&◌, Option, none, some, [], ◌∷◌, length, leb, ◌==◌, if◌then◌else◌,
}
use flop_contributions.Outcome.{Outcome, ok, err, system_exit, ◌>>=◌, ◌>>◌, require, or_fail}
use flop_contributions.Text.{Str, is_room, strip}
use flop_contributions.Json.{Value, obj, Fields}
use flop_contributions.Json.Plain.{plain}
use flop_contributions.Platform.{Platform, File}

abbrev pub max_batch_bytes : ℕ
max_batch_bytes = 2 * 1024 * 1024

-- `read_text` turns "\r\n" and "\r" into "\n".
unfoldable pub newlines : Str → Str
newlines [] = []
newlines (c ∷ []) = (if c == 13 then 10 else c) ∷ []
newlines (c ∷ d ∷ s) =
    let rest = newlines (d ∷ s) in
    if c == 13 && d == 10 then rest else (if c == 13 then 10 else c) ∷ rest

unfoldable pub object_of : Value → Outcome Fields
object_of (obj fields) = ok fields
object_of _ = err (system_exit "must contain one JSON object")

unfoldable pub load_json_object : Platform → File → Option ℕ → Outcome Fields
unfolding newlines plain object_of
load_json_object p file byte_limit = do
  require file.regular "must be a regular file, not a symlink"
  require (elim byte_limit [ none ↦ true | some limit ↦ leb (length file.content) limit ])
      "exceeds bytes"
  text ← or_fail (p.decode_utf8 file.content) "cannot read valid JSON"
  value ← or_fail (p.parse_json (newlines text)) "cannot read valid JSON"
  object_of (plain value)

-- The owner and the permission bits of a file.
pub record Details : Type 0 where
  pub owner : ℕ
  pub mode : ℕ

-- `stat.S_IMODE(mode) & 0o077` is 0 where the last two octal digits are.
unfoldable pub require_private_file : ℕ → Option Details → Outcome (Unit {0})
require_private_file user details = do
  d ← or_fail details "cannot inspect"
  require (d.owner == user) "must be owned by the current user"
  require (d.mode % 64 == 0) "must not be accessible by group or other users"

unfoldable pub read_room : Platform → File → Outcome Str
unfolding newlines strip is_room
read_room p file = do
  require file.regular "mailbox capability file must be a regular file, not a symlink"
  text ← or_fail (p.decode_utf8 file.content) "cannot read mailbox capability file"
  require (is_room (strip p.is_space (newlines text)))
      "mailbox capability file contains an invalid room name"
  ok (strip p.is_space (newlines text))
