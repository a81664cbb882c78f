-- ===== src/Examples/Contests.antt =====
-- The theorems on the Close Call verifier at a package with its five rooms and one sweep.
use flop_contributions.Prelude.{ℕ, ◌≡◌, refl, pos, true, List, [], ◌∷◌, ◌++◌, length, if◌then◌else◌}
use flop_contributions.Outcome.{ok}
use flop_contributions.Text.{Str, codes, eq_str}
use flop_contributions.Json.{int, str, arr, obj, Items, nil, cons, Fields, end, field}
use flop_contributions.Platform.{Platform, File}
use flop_contributions.CloseCall.Exports.{Reviewed}
use flop_contributions.CloseCall.Evidence.{Evidence, verify_exports}
use flop_contributions.CloseCall.Package.{Package, verify_close_call}
use flop_contributions.CloseCall.Complete.{IsComplete, verify_exports-IsComplete}
use flop_contributions.CloseCall.Launch.{AnySeed, verify_exports-AnySeed}
use flop_contributions.CloseCall.Classified.{IsContest, verify_close_call-IsContest}
use flop_contributions.Examples.Open.CloseCall.{opened_closecall}
use flop_contributions.Examples.Protocol.{result}
use flop_contributions.Examples.Fixtures.{platform, message, alice, pick, toy_dumps, toy_hash}

abbrev stored : Fields → File
unfolding toy_dumps
stored fs = record { regular = true; content = toy_dumps (obj fs) }

abbrev room_list : Items
room_list = cons (str (codes "c-price")) (
    cons (str (codes "c-flow")) (
      cons (str (codes "c-state"))
        (cons (str (codes "c-positions")) (cons (str (codes "c-pnl")) nil))))

abbrev contest : Fields
contest =
    field "contest_id" (str (codes "spring"))
      (field "rooms" (obj (field "referee" (arr room_list) end)) end)

abbrev listed : Fields
unfolding toy_dumps
listed =
    field "contest.json"
      (obj (
        field "url" (str (codes "contest.json")) (
          field "bytes" (int (pos (length (toy_dumps (obj contest)))))
            (field "sha256" (str (toy_hash (toy_dumps (obj contest)))) end))))
      end

abbrev manifest : Fields
manifest = field "schema_version" (int (pos 1)) (
    field "package" (str (codes "technocore-close-call"))
      (field "entrypoint" (str (codes "contest.json")) (field "files" (obj listed) end)))

abbrev manifest_hash : Str
unfolding toy_dumps
manifest_hash = toy_hash (toy_dumps (obj manifest))

abbrev seed : Fields
seed = field "t" (str (codes "seed")) (
    field "season" (str (codes "spring"))
      (field "package" (str manifest_hash) (field "rooms" (arr room_list) end)))

abbrev final : Fields
final = field "t" (str (codes "final")) end

abbrev committed : Str → Fields
committed kind =
    field "t" (str kind)
      (field "n" (int (pos 1)) (field "file" (str (toy_hash (codes "sweep"))) end))

abbrev said : ℕ → Fields → Fields
unfolding toy_dumps
said seq fs = message seq alice 10 (toy_dumps (obj fs))

abbrev only : Fields → List Fields
only fs = said 1 fs ∷ []

abbrev lines : List Fields → Str
unfolding toy_dumps
lines [] = []
lines (r ∷ rs) = toy_dumps (obj r) ++ 10 ∷ lines rs

abbrev in_price : List Fields
in_price = said 1 seed ∷ said 2 (committed (codes "price")) ∷ said 3 final ∷ []

abbrev spoken : List Fields
spoken =
    in_price
    ++ only (committed (codes "flow"))
    ++ only (committed (codes "state"))
    ++ only (committed (codes "positions"))
    ++ only (committed (codes "pnl"))

abbrev contest_platform : Platform
unfolding toy_dumps eq_str
contest_platform = record platform {
  parse_json = λ text. pick text (
      manifest
      ∷ contest
      ∷ seed
      ∷ final
      ∷ committed (codes "price")
      ∷ committed (codes "flow")
      ∷ committed (codes "state")
      ∷ committed (codes "positions")
      ∷ committed (codes "pnl")
      ∷ spoken);
}

abbrev export : List Fields → File
export rs = record { regular = true; content = lines rs }

abbrev exports : List (Str × File)
exports =
    (codes "c-price", export in_price)
    ∷ (codes "c-flow", export (only (committed (codes "flow"))))
    ∷ (codes "c-state", export (only (committed (codes "state"))))
    ∷ (codes "c-positions", export (only (committed (codes "positions"))))
    ∷ (codes "c-pnl", export (only (committed (codes "pnl"))))
    ∷ []

abbrev frozen : Package
unfolding eq_str
frozen = record {
  is_real = true;
  file = λ name. if eq_str name (codes "manifest.json") then stored manifest else stored contest;
  stays_inside = λ name. true;
}

verified :
    (e : Evidence) × (verify_close_call contest_platform frozen manifest_hash
        (codes "spring")
        exports
      ≡ ok e)
unfolding opened_closecall
verified =
    result (verify_close_call contest_platform frozen manifest_hash (codes "spring") exports) refl

verify_close_call-IsContest_example :
    IsContest contest_platform frozen manifest_hash (codes "spring") exports verified.0
verify_close_call-IsContest_example =
    verify_close_call-IsContest contest_platform frozen manifest_hash (codes "spring") exports
      verified.0 verified.1

abbrev reviewed : Reviewed
reviewed = record {
  expected_hash = manifest_hash;
  contest_id = codes "spring";
  roles =
      (codes "price", codes "c-price")
      ∷ (codes "flow", codes "c-flow")
      ∷ (codes "state", codes "c-state")
      ∷ (codes "positions", codes "c-positions")
      ∷ (codes "pnl", codes "c-pnl")
      ∷ [];
}

read_exports : (e : Evidence) × (verify_exports contest_platform exports reviewed ≡ ok e)
unfolding opened_closecall
read_exports = result (verify_exports contest_platform exports reviewed) refl

verify_exports-IsComplete_example : IsComplete contest_platform exports reviewed read_exports.0
verify_exports-IsComplete_example =
    verify_exports-IsComplete contest_platform exports reviewed read_exports.0 read_exports.1

verify_exports-AnySeed_example : AnySeed contest_platform reviewed exports reviewed.roles
verify_exports-AnySeed_example =
    verify_exports-AnySeed contest_platform exports reviewed read_exports.0 read_exports.1
