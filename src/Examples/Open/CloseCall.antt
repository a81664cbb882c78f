-- ===== src/Examples/Open/CloseCall.antt =====
-- Functions that the examples run, opened together: an example says `unfolding opened_closecall`.
use flop_contributions.Text.{
  eq_str, mem_str, starts_with, run_of, head_then, after, is_did, is_room, is_signature, run_then,
  is_closed_signature, lstrip, strip,
}
use flop_contributions.Text.Decimal.{decimal_from, decimal, decimal_ℤ}
use flop_contributions.Text.Utf8.{utf8_char, utf8}
use flop_contributions.Text.Lines.{split_from, splitlines}
use flop_contributions.Json.{
  elements, get, keys, mem_key, has_key, subset, has_exactly, without, append_field, reject_from,
  reject_duplicates, is_str, is_int, hook, hook_items, hook_fields,
}
use flop_contributions.Json.Plain.{set_field, plain, plain_items, plain_fields}
use flop_contributions.Table.{find, put, lt_str, insert, sorted}
use flop_contributions.Platform.{loads, redacted_hash, digest, loads_bytes}
use flop_contributions.Base58.{
  index_of, number_of, to_bytes_from, to_bytes, leading_ones, base58_decode,
}
use flop_contributions.Base64.{sextet, letter, decode_groups, encode_groups}
use flop_contributions.Tclk.Transcript.{
  value_at, bounded, check_sequence, same_sender, contract_of, enter_offer, enter_accept, held,
  enter_other, enter_body, enter, enter_line, process, process_all,
}
use flop_contributions.Text.Pure.{split_slash, real_parts, join_slash, printed, is_safe_path}
use flop_contributions.CloseCall.Envelope.{
  is_hash, load_json, read_regular, decode_did, decode_signature, verify_envelope,
}
use flop_contributions.CloseCall.Rooms.{
  room_types, ends_with, matches, classify_from, same_set, classify_rooms,
}
use flop_contributions.CloseCall.Exports.{
  check_referee, type_in, are_texts, enter_seed, enter_final, enter_sweep, enter_message,
  read_message, read_messages, read_room, read_rooms,
}
use flop_contributions.CloseCall.Evidence.{
  latest_of, sweep_at, commitments, all_same, agree_from, verify_exports,
}
use flop_contributions.CloseCall.Package.{
  check_artifact, check_artifacts, check_manifest, room_names, distinct_names, referee_list,
  check_contest, verify_package, verify_close_call,
}
use flop_contributions.Prelude.{ℕ}
use flop_contributions.Examples.Fixtures.{toy_dumps, line}

unfoldable pub opened_closecall : ℕ
unfolding eq_str mem_str starts_with run_of head_then after is_did is_room is_signature run_then
    is_closed_signature lstrip strip decimal_from decimal decimal_ℤ utf8_char utf8 split_from
    splitlines elements get keys mem_key has_key subset has_exactly without append_field reject_from
    reject_duplicates is_str is_int hook hook_items hook_fields set_field plain plain_items
    plain_fields find put lt_str insert sorted loads redacted_hash digest loads_bytes index_of
    number_of to_bytes_from to_bytes leading_ones base58_decode sextet letter decode_groups
    encode_groups value_at bounded check_sequence same_sender contract_of enter_offer enter_accept
    held enter_other enter_body enter enter_line process process_all split_slash real_parts
    join_slash printed is_safe_path is_hash load_json read_regular decode_did decode_signature
    verify_envelope room_types ends_with matches classify_from same_set classify_rooms check_referee
    type_in are_texts enter_seed enter_final enter_sweep enter_message read_message read_messages
    read_room read_rooms latest_of sweep_at commitments all_same agree_from verify_exports
    check_artifact check_artifacts check_manifest room_names distinct_names referee_list
    check_contest verify_package verify_close_call toy_dumps line
opened_closecall = 0
