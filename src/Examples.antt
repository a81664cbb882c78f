-- ===== src/Examples.antt =====
-- Concrete inputs: a toy platform with frames, contracts and batches, and the theorems at them.
mod Exports
mod Fixtures
mod Letters
mod Archives
mod Captures
mod Contests
mod Open
mod Protocol
mod Ranges
mod Rooms
mod Runs
