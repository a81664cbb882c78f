-- ===== src/CloseCall.antt =====
-- scripts/verify-close-call.py: a frozen contest package, and the exports of its five referee rooms.
pub mod Envelope
pub mod Rooms
pub mod Exports
pub mod Evidence
pub mod Package
pub mod Loop
pub mod Lines
pub mod Agree
pub mod Complete
pub mod Launch
pub mod Bound
pub mod Verified
pub mod Classified
