-- ===== src/Examples/Runs.antt =====
-- The theorems on the fetch timer and the signer's installer.
use flop_contributions.Prelude.{
  ◌≡◌, ◌↔◌, ◌⊎◌, refl, pos, true, false, none, some, [], ◌∷◌, ◌++◌, inr,
}
use flop_contributions.Outcome.{ok}
use flop_contributions.Text.{codes}
use flop_contributions.Json.{Value, int, str, obj, end, field}
use flop_contributions.Platform.{Platform}
use flop_contributions.Fetch.{Home, Poll, saved, fetch}
use flop_contributions.Fetch.Paused.{
  IsReady, IsQuiet, IsBatch, fetch_paused, fetch_resumes_iff, fetch_saves_iff, fetch_keeps_batch,
}
use flop_contributions.Fetch.Timer.{fetch_all, fetch_all_paused, fetch_all-delivers}
use flop_contributions.Install.{expected_sha256, private_mode, directory, missing, regular, install}
use flop_contributions.Install.Outcomes.{IsInstalled, install_iff, install_keeps}
use flop_contributions.Examples.Open.Fetch.{opened_fetch}
use flop_contributions.Examples.Fixtures.{platform}

abbrev delivered : Value
delivered = obj (field "status" (str (codes "ok")) (field "count" (int (pos 2)) end))

abbrev poller : Platform
poller = record platform { parse_json = λ text. some delivered; sha256 = λ raw. expected_sha256 }

abbrev ready : Home
ready = record {
  is_link = false;
  owner = 1000;
  mode = 448;
  lock_free = true;
  halt = false;
  batch = none;
  pending = false;
  linked = false;
  has_poller = true;
}

ready-IsReady : IsReady 1000 ready
ready-IsReady = record {
  real = refl;
  private = refl;
  lock_free = refl;
  halt = refl;
  batch = refl;
  pending = refl;
  linked = refl;
  has_poller = refl;
}

abbrev failing : Poll
failing = record { returncode = some 75; output = []; left_pending = false; saved_meanwhile = none }

abbrev delivering : Poll
delivering = record {
  returncode = some 0;
  output = codes "batch";
  left_pending = false;
  saved_meanwhile = none;
}

fetch_all-delivers_example :
    fetch_all poller 1000 ((failing ∷ failing ∷ []) ++ delivering ∷ []) ready
    ≡ record ready { halt = true; batch = some (codes "batch") }
unfolding opened_fetch
fetch_all-delivers_example =
    fetch_all-delivers poller 1000 1 (failing ∷ failing ∷ []) delivering ready ready-IsReady
      ((refl, refl, refl), ((refl, refl, refl), tt)) (refl, refl, refl, refl)

abbrev killed : Home
killed = record ready { halt = true }

fetch_all_paused_example : fetch_all poller 1000 (delivering ∷ failing ∷ []) killed ≡ killed
fetch_all_paused_example = fetch_all_paused poller 1000 (delivering ∷ failing ∷ []) killed refl

fetch_paused_example :
    (fetch poller 1000 delivering killed ≡ fetch poller 1000 failing killed)
    × ((fetch poller 1000 delivering killed).0 ≡ killed)
fetch_paused_example = fetch_paused poller 1000 delivering failing killed refl

fetch_resumes_iff_example :
    ((fetch poller 1000 failing ready).0.halt ≡ false) ↔ IsQuiet poller failing
fetch_resumes_iff_example = fetch_resumes_iff poller 1000 failing ready ready-IsReady

fetch_saves_iff_example :
    (((fetch poller 1000 delivering ready).1 ≡ ok saved) ↔ IsBatch poller delivering)
    × (IsBatch poller delivering
        → (fetch poller 1000 delivering ready).0.batch ≡ some (codes "batch"))
    × (¬ IsBatch poller delivering → (fetch poller 1000 delivering ready).0.batch ≡ none)
fetch_saves_iff_example = fetch_saves_iff poller 1000 delivering ready ready-IsReady

abbrev overtaken : Poll
overtaken = record delivering { saved_meanwhile = some (codes "by hand") }

fetch_keeps_batch_example : (fetch poller 1000 overtaken ready).0.batch ≡ some (codes "by hand")
fetch_keeps_batch_example =
    fetch_keeps_batch poller 1000 overtaken ready (codes "by hand") (inr (ready-IsReady, refl))

install_iff_example :
    (install poller 1000 (codes "signer") (directory 1000 private_mode) true missing
      ≡ (regular 1000 private_mode (codes "signer"), ok true))
    ↔ ((poller.sha256 (codes "signer") ≡ expected_sha256)
        × (directory 1000 private_mode ≡ directory 1000 private_mode)
        × IsInstalled 1000
            (codes "signer")
            true
            missing
            true
            (regular 1000 private_mode (codes "signer")))
install_iff_example =
    install_iff poller 1000 (codes "signer") (directory 1000 private_mode) true missing
      (regular 1000 private_mode (codes "signer")) true

install_keeps_example :
    (regular 1000 448 (codes "old") ≡ missing)
    ⊎ ((install poller 1000
          (codes "signer")
          (directory 1000 private_mode)
          true
          (regular 1000 448 (codes "old"))).0
        ≡ regular 1000 448 (codes "old"))
install_keeps_example =
    install_keeps poller 1000 (codes "signer") (directory 1000 private_mode) true
      (regular 1000 448 (codes "old"))
