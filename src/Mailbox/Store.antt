-- ===== src/Mailbox/Store.antt =====
-- `write_receipt` and `main`: the receipt file.
use flop_contributions.Prelude.{ℕ, Bool, Option, some, List, [], ◌∷◌, ◌++◌}
use flop_contributions.Outcome.{Outcome, ok, err, system_exit, ◌>>=◌, ◌>>◌, require}
use flop_contributions.Text.{Bytes, eq_str}
use flop_contributions.Platform.{Platform, File, indented}
use flop_contributions.Mailbox.Files.{
  max_batch_bytes, Details, require_private_file, load_json_object, read_room,
}
use flop_contributions.Mailbox.Review.{Verifier}
use flop_contributions.Mailbox.Receipt.{Receipt, validate_batch, receipt_value}
use flop_contributions.Mailbox.History.{reject_historical_replays}

-- What stands at the path of the receipt. A directory cannot be read as a file.
pub data Entry : Type 0 where
  missing link directory : Entry
  regular : Bytes → Entry

-- The ASCII bytes of the receipt.
unfoldable pub encoded : Platform → Receipt → Bytes
unfolding receipt_value
encoded p receipt = p.dumps_as indented (receipt_value receipt) ++ 10 ∷ []

-- The entry after the call, or the failure, which leaves the entry as it is. `writable` says that the
-- temporary file could be written, synchronised and renamed; an OSError removes it again.
unfoldable pub write_receipt : Platform → Bool → Entry → Receipt → Outcome Entry
unfolding encoded eq_str
write_receipt p writable link receipt = err (system_exit "receipt path must not be a symlink")
write_receipt p writable directory receipt = err (system_exit "cannot read existing receipt")
write_receipt p writable (regular old) receipt = do
  require (eq_str old (encoded p receipt)) "existing receipt does not match this reviewed batch"
  ok (regular old)
write_receipt p writable missing receipt = do
  require writable "cannot write receipt atomically"
  ok (regular (encoded p receipt))

-- What `main` finds on the host.
pub record Host : Type 0 where
  pub user : ℕ
  pub batch_details : Option Details
  pub room_details : Option Details
  pub batch : File
  pub room : File
  pub verifier : Verifier
  pub history_is_link : Bool
  pub history : List File
  pub writable : Bool
  pub receipt : Entry

unfoldable pub review : Platform → Host → Outcome (Receipt × Entry)
unfolding require_private_file load_json_object read_room validate_batch reject_historical_replays
    write_receipt
review p host = do
  require_private_file host.user host.batch_details
  require_private_file host.user host.room_details
  batch ← load_json_object p host.batch (some max_batch_bytes)
  room ← read_room p host.room
  receipt ← validate_batch p host.verifier room batch
  reject_historical_replays p receipt host.history_is_link host.history
  entry ← write_receipt p host.writable host.receipt receipt
  ok (receipt, entry)
