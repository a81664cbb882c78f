-- ===== src/Tclk.antt =====
-- scripts/validate-tclk-transcript.py: the frames of tclk/1, their signed transport, the contract
-- state machine, and the transcript validator.
pub mod Patterns
pub mod Frame
pub mod Validate
pub mod Transport
pub mod Contract
pub mod Transcript
pub mod Report
