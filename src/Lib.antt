-- ===== src/Lib.antt =====
-- A model of the Python scripts of flop-contributions: offline, fail-closed reviewers of what a
-- Technocore venue serves, and theorems about them. A script reads saved JSON, raises an error for
-- anything it does not understand, and prints a redacted report otherwise.
--
-- The parts, and how they fit together:
-- - scripts/validate-tclk-transcript.py reads a saved mailbox batch (validate_transcript): the header,
--   then each message in order: its keys, its sequence number (check_sequence), its Ed25519 signature
--   (verify_transport), the tclk/1 frame in its text (decode_line, validate_frame), and the contract
--   the frame belongs to (Contract.apply). The report gives each contract's state.
-- - scripts/audit-tclk-cross-room.py uses the same frames and contracts on two room exports: offers
--   and acceptances on the offer board, the other frames in a deal room whose name is derived from
--   the target contract (load_export, audit).
-- - scripts/verify-technocore-export.py checks one room export without reading frames (verify_signed,
--   and the loop of main).
-- - scripts/record-contest-room.py reads captures of a room with verify_signed (inspect) and keeps the
--   ranges of sequence numbers seen and the referee's receipts (merge, holes, record).
-- - scripts/review-mailbox-batch.py reviews a saved mailbox batch message by message
--   (validate_batch): it runs scripts/verify-envelope.py on each, compares the receipt with those
--   archived (reject_historical_replays) and writes it once (write_receipt).
-- - scripts/verify-envelope.py checks the signature of one envelope from its standard input.
-- - scripts/fetch-mailbox-once.py runs the poller under a pause that only a person lifts
--   (Fetch.fetch; Fetch.Timer is the timer that starts it again and again).
-- - scripts/install-reviewed-signer.py puts a reviewed file in place, or leaves what is there.
-- - scripts/verify-close-call.py checks a frozen contest package (verify_package), finds its five
--   referee rooms (classify_rooms) and reads their exports (verify_exports).
-- - scripts/verify-close-call-archive.py checks the archive of a contest (validate_index), the signed
--   commitments to its sweeps (verify_commitments), with verify_envelope of verify-close-call.py,
--   and the records that are supplied (verify_records).
--
-- The files:
-- - Prelude: the library's names and the Boolean tests, the lemmas on lists, and the integers
--   over the native numbers. Outcome: a result or a Python exception; the message of a ValueError
--   is kept without the parts that an f-string fills in.
-- - Text: a str is a list of code points, and bytes a list of bytes; the patterns DID, ROOM
--   and SIGNATURE; Text.Decimal, Text.Utf8 and Text.Lines are str(int), encode and splitlines.
-- - Json: JSON values and dicts in insertion order, and the hook reject_duplicates, applied from
--   the inside out as json.loads does. Dict keys are native strings, all other texts code points.
-- - Table: association lists for dicts with str keys. Platform: what is not in the repository.
-- - Base58, Base64: base58_decode, and base64.b64decode and urlsafe_b64encode on whole groups.
-- - Tclk.Patterns, Tclk.Frame, Tclk.Validate: the constants, FRAME_KEYS, validate_frame and
--   decode_line. A validated frame keeps its whole dict (fields), which the digests read, beside the
--   members that the contract reads.
-- - Tclk.Transport: verify_transport and parse_time. Tclk.Contract: Contract and its apply, one
--   function for each kind of frame. Tclk.Transcript: the loop, whose local variables are the
--   record State. Tclk.Report: the header checks and the report.
-- - Audit.Export: read_bounded and load_export. Audit.Room: the loop of audit and its report.
-- - Export: verify_signed and main of the export verifier, without arguments and printing.
-- - Recorder.Ranges: merge and holes. Recorder.Inspect: inspect. Recorder.Capture: the part of record
--   that makes the coverage, the receipts and the warnings of one capture.
-- - Json.Plain: json.load without a hook. Text.Pure: the tests on a PurePosixPath.
-- - Envelope: verify-envelope.py. Mailbox.Files, Mailbox.Review, Mailbox.Receipt, Mailbox.History
--   and Mailbox.Store: the private files, the messages, the receipt, the archive and the written file
--   of review-mailbox-batch.py. Fetch and Install: the two scripts of these names, over a record of
--   the files that they find.
-- - CloseCall.Envelope, CloseCall.Rooms, CloseCall.Exports, CloseCall.Evidence, CloseCall.Package:
--   verify-close-call.py from its helpers to main. Archive.Index, Archive.Commitments and
--   Archive.Records: verify-close-call-archive.py.
-- - Modules below these hold proofs: Tclk.Contract.Steps (what each frame may change), Safety and
--   Invariant, Tclk.Transcript.{Loop, Sequence, Replays, History, Led, Follow,
--   Apart}, Tclk.Report.{Header, Entries, Sound}, Table.{Laws, Keys}, Tclk.Transport.Material,
--   Tclk.Validate.Lines, Audit.{Numbered, Replays, Chosen, Tracks, Timed, Named, Sound}, Json.Laws,
--   Base58.Laws, Text.Decimal.Laws, Export.Continuous, Recorder.Ranges.{Merge, Holes},
--   Envelope.{Closed, Clean, Sound}, Mailbox.{Loop, Sound, Signed, Replays, Writes}, Fetch.Paused,
--   Install.Outcomes, CloseCall.{Loop, Lines, Agree, Complete, Launch, Bound, Verified, Classified},
--   Archive.{Listed, Committed, Sound}, Recorder.{Seen, Grows}.
-- - Examples: a toy platform and the batches, exports, archives and directories at which the theorems
--   are applied; Examples.Open opens the definitions that a group of examples runs.
--
-- State and aliasing: contract_by_id shares the Contract objects of contracts; here it holds the
-- offer id under which contracts keeps the object. Loops are recursion on the list of messages or
-- records, so nothing needs fuel but the digits of a number: to_bytes and decimal use as many steps as
-- the number itself, which is enough as each step divides it
-- (Base58.Laws, Text.Decimal.Laws).
-- Whole floats stand for the integers they equal where the code compares them with integers.
--
-- Parameters, as they are not in the repository (Platform): SHA-256, Ed25519, the JSON grammar and
-- printer in their variants, the UTF-8 decoder, datetime.fromisoformat, the classes of characters of
-- unicodedata, strip and \w; the exit status of the envelope verifier's process (Verifier.run) and of
-- the poller (Poll); and the file system as flags and the bytes of files (File, Details, Home, Directory,
-- Package).
--
-- Not modelled: the command lines and the printing; constant members of the reports; the scripts
-- around curl and flock in scripts/*.sh; the vendored signer; model-close-call-position.py; and of
-- record-contest-room.py the HTTP fetch and the archive of snapshots on disk.
mod Prelude
pub mod Outcome
pub mod Text
pub mod Json
pub mod Table
pub mod Platform
pub mod Base58
pub mod Base64
pub mod Tclk
pub mod Audit
pub mod Envelope
pub mod Export
pub mod Mailbox
pub mod Fetch
pub mod Install
pub mod CloseCall
pub mod Archive
pub mod Recorder
mod Examples
