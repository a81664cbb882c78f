-- ===== src/Mailbox/Writes.antt =====
-- What `write_receipt` leaves at the path of the receipt.
use flop_contributions.Prelude.{◌≡◌, ◌⊎◌, ◌↔◌, Bool, true, arith}
use flop_contributions.Outcome.{ok}
use flop_contributions.Text.Laws.{eq_str_iff}
use flop_contributions.Platform.{Platform}
use flop_contributions.Mailbox.Receipt.{Receipt}
use flop_contributions.Mailbox.Store.{
  Entry, missing, link, directory, regular, encoded, write_receipt,
}

-- A receipt is written exactly where its path is free and can be written, or already holds the same
-- bytes; the path then holds the bytes of the receipt, and no other content is ever replaced.
pub write_receipt_iff :
    (p : Platform) (writable : Bool) (before after : Entry) (r : Receipt)
    → (write_receipt p writable before r ≡ ok after) ↔ (
        (after ≡ regular (encoded p r))
        × (((before ≡ missing) × (writable ≡ true)) ⊎ (before ≡ after)))
unfolding write_receipt
write_receipt_iff p writable link after r = ground arith
write_receipt_iff p writable directory after r = ground arith
write_receipt_iff p writable missing after r = ground arith
write_receipt_iff p writable (regular old) after r = ground (arith, eq_str_iff old (encoded p r))
