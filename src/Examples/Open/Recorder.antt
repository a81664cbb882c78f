-- ===== src/Examples/Open/Recorder.antt =====
-- Functions that the examples run, opened together: an example says `unfolding opened_recorder`.
use flop_contributions.Text.{
  eq_str, mem_str, starts_with, run_of, head_then, after, is_did, is_room, is_signature, run_then,
  is_closed_signature, lstrip, strip,
}
use flop_contributions.Text.Decimal.{decimal_from, decimal, decimal_ℤ}
use flop_contributions.Text.Utf8.{utf8_char, utf8}
use flop_contributions.Text.Lines.{split_from, splitlines}
use flop_contributions.Json.{
  elements, get, keys, mem_key, has_key, subset, has_exactly, without, append_field, reject_from,
  reject_duplicates, is_str, is_int, hook, hook_items, hook_fields,
}
use flop_contributions.Json.Plain.{set_field, plain, plain_items, plain_fields}
use flop_contributions.Table.{find, put, lt_str, insert, sorted}
use flop_contributions.Platform.{loads, redacted_hash, digest, loads_bytes}
use flop_contributions.Base58.{
  index_of, number_of, to_bytes_from, to_bytes, leading_ones, base58_decode,
}
use flop_contributions.Base64.{sextet, letter, decode_groups, encode_groups}
use flop_contributions.Recorder.Inspect.{
  decode, is_matching, read_item, read_items, items_of, payload_of, keep_receipts, after_payload,
  after_verification, read_signed, read_line, read_lines, inspect,
}
use flop_contributions.Recorder.Capture.{last_end, is_regressed, with_gaps, of_inspection, capture}
use flop_contributions.Recorder.Ranges.{
  insert_range, sorted_ranges, extend, merge_from, merge, holes_from, holes,
}
use flop_contributions.Export.{
  subscript, signed_sender, signed_nonce, signed_record, verify_signed, sequence_number, continues,
  count_signed, read_row, read_rows, last_of, first_seq, verify_export,
}
use flop_contributions.Tclk.Transcript.{
  value_at, bounded, check_sequence, same_sender, contract_of, enter_offer, enter_accept, held,
  enter_other, enter_body, enter, enter_line, process, process_all,
}
use flop_contributions.CloseCall.Rooms.{
  room_types, ends_with, matches, classify_from, same_set, classify_rooms,
}
use flop_contributions.Prelude.{ℕ}
use flop_contributions.Examples.Fixtures.{toy_dumps, line}

unfoldable pub opened_recorder : ℕ
unfolding eq_str mem_str starts_with run_of head_then after is_did is_room is_signature run_then
    is_closed_signature lstrip strip decimal_from decimal decimal_ℤ utf8_char utf8 split_from
    splitlines elements get keys mem_key has_key subset has_exactly without append_field reject_from
    reject_duplicates is_str is_int hook hook_items hook_fields set_field plain plain_items
    plain_fields find put lt_str insert sorted loads redacted_hash digest loads_bytes index_of
    number_of to_bytes_from to_bytes leading_ones base58_decode sextet letter decode_groups
    encode_groups decode is_matching read_item read_items items_of payload_of keep_receipts
    after_payload after_verification read_signed read_line read_lines inspect last_end is_regressed
    with_gaps of_inspection capture insert_range sorted_ranges extend merge_from merge holes_from
    holes subscript signed_sender signed_nonce signed_record verify_signed sequence_number continues
    count_signed read_row read_rows last_of first_seq verify_export value_at bounded check_sequence
    same_sender contract_of enter_offer enter_accept held enter_other enter_body enter enter_line
    process process_all room_types ends_with matches classify_from same_set classify_rooms toy_dumps
    line
opened_recorder = 0
