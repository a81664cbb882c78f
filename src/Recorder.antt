-- ===== src/Recorder.antt =====
-- scripts/record-contest-room.py: the ranges of sequence numbers of a room, the inspection of an export,
-- and what a capture adds to the coverage of the archive.
pub mod Ranges
pub mod Inspect
pub mod Seen
pub mod Capture
pub mod Grows
