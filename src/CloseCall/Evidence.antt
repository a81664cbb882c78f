-- ===== src/CloseCall/Evidence.antt =====
-- `verify_exports`, after its loop over the rooms: they have to commit to the same files.
use flop_contributions.Prelude.{
  ℕ, zero, suc, Bool, false, Option, none, some, List, [], ◌∷◌, all, length, ◌==◌, if◌then◌else◌,
}
use flop_contributions.Outcome.{
  Outcome, ok, err, attribute_error, key_error, ◌>>=◌, ◌>>◌, guard, or_raise,
}
use flop_contributions.Text.{Str, eq_str}
use flop_contributions.Platform.{Platform, File, redacted_hash}
use flop_contributions.CloseCall.Envelope.{text_of}
use flop_contributions.CloseCall.Rooms.{firsts, seconds, same_set}
use flop_contributions.CloseCall.Exports.{Progress, Reviewed, Room, read_rooms}

-- The number of the sweeps, where it is the same in all rooms.
unfoldable pub latest_of : List Room → Option ℕ
latest_of [] = none
latest_of ((room, sweeps, lines) ∷ rooms) =
    if all (λ (r : Room). length r.1 == length sweeps) rooms then some (length sweeps) else none

-- `room_sweeps[n]`, where `i` is `n - 1`
unfoldable pub sweep_at : List Str → ℕ → Option Str
sweep_at [] i = none
sweep_at (h ∷ hs) zero = some h
sweep_at (h ∷ hs) (suc i) = sweep_at hs i

unfoldable pub commitments : ℕ → List Room → Outcome (List Str)
unfolding sweep_at
commitments i [] = ok []
commitments i ((room, sweeps, lines) ∷ rooms) = do
  one ← elim (sweep_at sweeps i) [ none ↦ err key_error | some h ↦ ok h ]
  more ← commitments i rooms
  ok (one ∷ more)

-- `len(set(hashes)) == 1`
unfoldable pub all_same : List Str → Bool
unfolding eq_str
all_same [] = false
all_same (h ∷ hs) = all (λ g. eq_str g h) hs

-- The loop over `count` sweeps behind the first `i`.
unfoldable pub agree_from : ℕ → ℕ → List Room → Outcome (Unit {0})
unfolding commitments all_same
agree_from zero i rooms = ok tt
agree_from (suc count) i rooms = do
  hashes ← commitments i rooms
  guard (all_same hashes) "referee file commitments disagree"
  agree_from count (suc i) rooms

abbrev pub counts_of : List Room → List (Str × ℕ)
counts_of [] = []
counts_of ((room, sweeps, lines) ∷ rooms) = (room, lines) ∷ counts_of rooms

pub record Evidence : Type 0 where
  pub referee_did_sha256 : Str
  pub latest_sweep : ℕ
  pub final_present : Bool
  pub record_counts : List (Str × ℕ)

abbrev pub nothing_read : Progress
nothing_read = record {
  referee = none;
  seeded = false;
  final_seen = false;
  previous_seq = 0;
  room_sweeps = [];
}

unfoldable pub verify_exports : Platform → List (Str × File) → Reviewed → Outcome Evidence
unfolding same_set read_rooms latest_of agree_from redacted_hash
verify_exports p paths reviewed = do
  guard (same_set (firsts paths) (seconds reviewed.roles))
      "exports must match the five configured referee rooms exactly"
  read ← read_rooms p reviewed paths reviewed.roles nothing_read
  guard read.0.seeded "signed launch seed is missing"
  referee ← or_raise read.0.referee "signed launch seed is missing"
  latest ← or_raise (latest_of read.1) "referee rooms end at different sweeps"
  agree_from latest 0 read.1
  did ← elim (text_of referee) [ none ↦ err attribute_error | some did ↦ ok did ]
  hash ← redacted_hash p did
  ok (record {
    referee_did_sha256 = hash;
    latest_sweep = latest;
    final_present = read.0.final_seen;
    record_counts = counts_of read.1;
  })
