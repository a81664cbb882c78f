-- ===== src/Audit.antt =====
-- scripts/audit-tclk-cross-room.py: two captured room exports, read with the functions of the tclk/1
-- validator, and the audit of one contract across them.
pub mod Export
pub mod Room
pub mod Numbered
pub mod Replays
pub mod Chosen
pub mod Tracks
pub mod Named
pub mod Timed
pub mod Sound
