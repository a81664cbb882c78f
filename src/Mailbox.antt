-- ===== src/Mailbox.antt =====
-- scripts/review-mailbox-batch.py: the review of a saved mailbox batch, its archive of receipts, and the
-- receipt file that the acknowledgement reads.
pub mod Files
pub mod Review
pub mod Loop
pub mod Receipt
pub mod Sound
pub mod Signed
pub mod Replays
pub mod Writes
pub mod History
pub mod Store
