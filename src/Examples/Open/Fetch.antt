-- ===== src/Examples/Open/Fetch.antt =====
-- Functions that the examples run, opened together: an example says `unfolding opened_fetch`.
use flop_contributions.Text.{
  eq_str, mem_str, starts_with, run_of, head_then, after, is_did, is_room, is_signature, run_then,
  is_closed_signature, lstrip, strip,
}
use flop_contributions.Text.Decimal.{decimal_from, decimal, decimal_ℤ}
use flop_contributions.Text.Utf8.{utf8_char, utf8}
use flop_contributions.Text.Lines.{split_from, splitlines}
use flop_contributions.Json.{
  elements, get, keys, mem_key, has_key, subset, has_exactly, without, append_field, reject_from,
  reject_duplicates, is_str, is_int, hook, hook_items, hook_fields,
}
use flop_contributions.Json.Plain.{set_field, plain, plain_items, plain_fields}
use flop_contributions.Table.{find, put, lt_str, insert, sorted}
use flop_contributions.Platform.{loads, redacted_hash, digest, loads_bytes}
use flop_contributions.Base58.{
  index_of, number_of, to_bytes_from, to_bytes, leading_ones, base58_decode,
}
use flop_contributions.Base64.{sextet, letter, decode_groups, encode_groups}
use flop_contributions.Tclk.Transcript.{
  value_at, bounded, check_sequence, same_sender, contract_of, enter_offer, enter_accept, held,
  enter_other, enter_body, enter, enter_line, process, process_all,
}
use flop_contributions.Mailbox.Files.{
  newlines, object_of, load_json_object, require_private_file, read_room,
}
use flop_contributions.Fetch.{batch_count, read_output, publish, after_status, after_poll, fetch}
use flop_contributions.Fetch.Timer.{fetch_all}
use flop_contributions.Prelude.{ℕ}
use flop_contributions.Examples.Fixtures.{toy_dumps, line}

unfoldable pub opened_fetch : ℕ
unfolding eq_str mem_str starts_with run_of head_then after is_did is_room is_signature run_then
    is_closed_signature lstrip strip decimal_from decimal decimal_ℤ utf8_char utf8 split_from
    splitlines elements get keys mem_key has_key subset has_exactly without append_field reject_from
    reject_duplicates is_str is_int hook hook_items hook_fields set_field plain plain_items
    plain_fields find put lt_str insert sorted loads redacted_hash digest loads_bytes index_of
    number_of to_bytes_from to_bytes leading_ones base58_decode sextet letter decode_groups
    encode_groups value_at bounded check_sequence same_sender contract_of enter_offer enter_accept
    held enter_other enter_body enter enter_line process process_all newlines object_of
    load_json_object require_private_file read_room batch_count read_output publish after_status
    after_poll fetch fetch_all toy_dumps line
opened_fetch = 0
