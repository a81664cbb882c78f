-- ===== src/Archive.antt =====
-- scripts/verify-close-call-archive.py: the archive's index, the signed commitments of its sweeps, and the
-- records that are supplied.
pub mod Index
pub mod Commitments
pub mod Records
pub mod Listed
pub mod Committed
pub mod Sound
