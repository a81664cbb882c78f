-- ===== src/Examples/Open.antt =====
-- The functions that the examples run, opened together: an example says `unfolding opened_all`.
pub mod Archive
pub mod CloseCall
pub mod Fetch
pub mod Mailbox
pub mod Recorder
use flop_contributions.Text.{
  eq_str, mem_str, starts_with, run_of, head_then, after, is_did, is_room, is_signature,
}
use flop_contributions.Text.Decimal.{decimal_from, decimal, decimal_ℤ}
use flop_contributions.Text.Utf8.{utf8_char, utf8}
use flop_contributions.Text.Lines.{split_from, splitlines}
use flop_contributions.Json.{
  elements, get, keys, mem_key, has_key, subset, has_exactly, without, append_field, reject_from,
  reject_duplicates, is_str, is_int, hook,
}
use flop_contributions.Table.{find, put, lt_str, insert, sorted}
use flop_contributions.Platform.{loads, redacted_hash, digest, loads_bytes}
use flop_contributions.Base58.{
  index_of, number_of, to_bytes_from, to_bytes, leading_ones, base58_decode,
}
use flop_contributions.Base64.{sextet, letter, decode_groups, encode_groups}
use flop_contributions.Tclk.Patterns.{
  is_hex32, is_amount, is_asset, is_rail, is_proto, is_nonce, is_transport_nonce,
}
use flop_contributions.Tclk.Frame.{parse_kind}
use flop_contributions.Tclk.Validate.{
  text_of, require_string, optional_string, ms_of, require_ms, validate_job, optional_job, choice,
  rail_texts, rails_of, is_hash_lock, validate_offer, validate_body, fields_match, validate_frame,
  decode_line,
}
use flop_contributions.Tclk.Transport.{
  key_of_did, canonical_signature, envelope, did_text, nonce_of, signed_text, verify_transport,
  ends_with_z, parse_time,
}
use flop_contributions.Tclk.Contract.{
  new, eq_status, names, is_party, agrees, reached, from_hex, opened, contract_id, apply_accept,
  apply_lock, apply_reveal, apply_refund, apply_heartbeat, apply_cancel, apply_receipt, apply_body,
  apply,
}
use flop_contributions.Tclk.Transcript.{
  value_at, bounded, check_sequence, same_sender, contract_of, enter_offer, enter_accept, held,
  enter_other, enter_body, enter, enter_line, process, process_all,
}
use flop_contributions.Tclk.Report.{
  check_first, read_header, initial, hash_contract, report_contract, report_contracts,
  validate_transcript,
}
use flop_contributions.Audit.Export.{
  read_bounded, verify_if_signed, read_record, read_records, read_capture, ends_at, load_export,
}
use flop_contributions.Audit.Room.{
  belongs, count_frame, list_offer, accept_offer, advance_selected, audit_body, audit_frame,
  is_protocol, audit_record, audit_records, deal_room, bind_capture, bind_captures, audit,
}
use flop_contributions.Export.{
  subscript, signed_sender, signed_nonce, signed_record, verify_signed, sequence_number, continues,
  count_signed, read_row, read_line, read_rows, last_of, first_seq, verify_export,
}
use flop_contributions.Prelude.{ℕ}
use flop_contributions.Examples.Fixtures.{toy_dumps, line}

unfoldable pub opened_all : ℕ
unfolding eq_str mem_str starts_with run_of head_then after is_did is_room is_signature decimal_from
    decimal decimal_ℤ utf8_char utf8 split_from splitlines elements get keys mem_key has_key subset
    has_exactly without append_field reject_from reject_duplicates is_str is_int hook find put
    lt_str insert sorted loads redacted_hash digest loads_bytes index_of number_of to_bytes_from
    to_bytes leading_ones base58_decode sextet letter decode_groups encode_groups is_hex32 is_amount
    is_asset is_rail is_proto is_nonce is_transport_nonce parse_kind text_of require_string
    optional_string ms_of require_ms validate_job optional_job choice rail_texts rails_of
    is_hash_lock validate_offer validate_body fields_match validate_frame decode_line key_of_did
    canonical_signature envelope did_text nonce_of signed_text verify_transport ends_with_z
    parse_time new eq_status names is_party agrees reached from_hex opened contract_id apply_accept
    apply_lock apply_reveal apply_refund apply_heartbeat apply_cancel apply_receipt apply_body apply
    value_at bounded check_sequence same_sender contract_of enter_offer enter_accept held
    enter_other enter_body enter enter_line process process_all check_first read_header initial
    hash_contract report_contract report_contracts validate_transcript read_bounded verify_if_signed
    read_record read_records read_capture ends_at load_export belongs count_frame list_offer
    accept_offer advance_selected audit_body audit_frame is_protocol audit_record audit_records
    deal_room bind_capture bind_captures audit toy_dumps line subscript signed_sender signed_nonce
    signed_record verify_signed sequence_number continues count_signed read_row read_line read_rows
    last_of first_seq verify_export
opened_all = 0
