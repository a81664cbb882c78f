-- ===== src/Examples/Archives.antt =====
-- The theorem on the archive verifier at an archive of a full and a redacted record.
use flop_contributions.Prelude.{ℕ, ◌≡◌, refl, pos, true, List, [], ◌∷◌, ◌++◌, length, if◌then◌else◌}
use flop_contributions.Outcome.{ok}
use flop_contributions.Text.{Str, codes, eq_str}
use flop_contributions.Json.{int, str, arr, obj, nil, cons, Fields, end, field}
use flop_contributions.Platform.{Platform, File}
use flop_contributions.Archive.Commitments.{Directory, flow_name}
use flop_contributions.Archive.Records.{ArchiveReport, verify_archive}
use flop_contributions.Archive.Sound.{IsArchive, verify_archive-IsArchive}
use flop_contributions.Examples.Open.Archive.{opened_archive}
use flop_contributions.Examples.Protocol.{result}
use flop_contributions.Examples.Fixtures.{platform, message, alice, pick, toy_dumps, toy_hash}

abbrev sweep_record : ℕ → Fields
sweep_record n = field "input" (obj (field "n" (int (pos n)) end)) (
    field "output"
      (obj (field "sweep" (int (pos n)) (field "minted" (arr (cons (int (pos 4)) nil)) end))) end)

abbrev stored : Fields → File
unfolding toy_dumps
stored fs = record { regular = true; content = toy_dumps (obj fs) }

abbrev digest_of : Fields → Str
unfolding toy_dumps
digest_of fs = toy_hash (toy_dumps (obj fs))

-- What stands behind the redacted record.
abbrev original : Str
original = toy_hash (codes "withheld")

abbrev size : Fields → ℕ
unfolding toy_dumps
size fs = length (toy_dumps (obj fs))

abbrev index_fields : Fields
index_fields = field "contest" (str (codes "spring")) (
    field "sweeps"
      (arr (
        cons
          (obj (
            field "n" (int (pos 1)) (
              field "status" (str (codes "full")) (
                field "bytes" (int (pos (size (sweep_record 1)))) (
                  field "file" (str (digest_of (sweep_record 1))) (
                    field "path"
                      (str (codes "sweeps/" ++ digest_of (sweep_record 1) ++ codes ".json"))
                      end))))))
          (cons
            (obj (
              field "n" (int (pos 2)) (
                field "status" (str (codes "redacted")) (
                  field "bytes" (int (pos (size (sweep_record 2)))) (
                    field "file" (str original) (
                      field "path" (str (codes "redacted/" ++ original ++ codes ".json")) (
                        field "redacted" (int (pos 3))
                          (field "sha256" (str (digest_of (sweep_record 2))) end))))))))
            nil)))
      end)

abbrev flow : ℕ → Str → Fields
flow n file = field "t" (str (codes "flow")) (field "n" (int (pos n)) (field "file" (str file) end))

abbrev flow_record : ℕ → Str → Fields
unfolding toy_dumps
flow_record n file = message n alice 10 (toy_dumps (obj (flow n file)))

abbrev archive_platform : Platform
unfolding toy_dumps eq_str
archive_platform = record platform {
  parse_finite = λ text. pick text (
      index_fields
      ∷ flow_record 1 (digest_of (sweep_record 1))
      ∷ flow_record 2 original
      ∷ sweep_record 1
      ∷ sweep_record 2
      ∷ []);
  parse_json = λ text. pick text (flow 1 (digest_of (sweep_record 1)) ∷ flow 2 original ∷ []);
}

abbrev flows : Directory
unfolding flow_name eq_str
flows = record {
  is_real = true;
  file = λ name.
      if eq_str name (codes "0000000000000001.json")
      then stored (flow_record 1 (digest_of (sweep_record 1)))
      else stored (flow_record 2 original);
}

abbrev supplied : List (ℕ × File)
supplied = (2, stored (sweep_record 2)) ∷ (1, stored (sweep_record 1)) ∷ []

archived :
    (r : ArchiveReport) × (verify_archive archive_platform
        (stored index_fields)
        flows
        (codes "spring")
        supplied
      ≡ ok r)
unfolding opened_archive
archived =
    result (verify_archive archive_platform (stored index_fields) flows (codes "spring") supplied)
      refl

verify_archive-IsArchive_example :
    IsArchive archive_platform (stored index_fields) flows (codes "spring") supplied archived.0
verify_archive-IsArchive_example =
    verify_archive-IsArchive archive_platform (stored index_fields) flows (codes "spring") supplied
      archived.0 archived.1
