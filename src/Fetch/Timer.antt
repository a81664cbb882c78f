-- ===== src/Fetch/Timer.antt =====
-- Runs of the timer one after another.
use flop_contributions.Prelude.{
  ℕ, suc, ◌≡◌, refl, ap, ◌∙◌, true, false, none, some, List, [], ◌∷◌, ◌++◌, All, arith,
}
use flop_contributions.Outcome.{ok}
use flop_contributions.Platform.{Platform}
use flop_contributions.Fetch.{
  Home, Poll, read_output, publish, after_status, after_poll, is_paused, fetch,
}
use flop_contributions.Fetch.Paused.{IsReady, fetch_ready, fetch_paused}

-- The runs of the timer, with what the poller did in each.
unfoldable pub fetch_all : Platform → ℕ → List Poll → Home → Home
fetch_all p user [] s = s
fetch_all p user (poll ∷ polls) s = fetch_all p user polls (fetch p user poll s).0

-- Once there is something to review, also where a run was killed after the pause was written, no later
-- run changes anything.
pub fetch_all_paused :
    (p : Platform) (user : ℕ) (polls : List Poll) (s : Home)
    → is_paused s ≡ true
    → fetch_all p user polls s ≡ s
unfolding fetch_all
fetch_all_paused p user [] s h = refl
fetch_all_paused p user (poll ∷ polls) s h =
    let e = (fetch_paused p user poll poll s h).1 in
    ap (fetch_all p user polls) e ∙ fetch_all_paused p user polls s h

-- The poller could not reach the room.
abbrev pub IsTransient : Poll → Type 0
IsTransient poll =
    (poll.returncode ≡ some 75) × (poll.left_pending ≡ false) × (poll.saved_meanwhile ≡ none)

-- The poller returned `n + 1` messages.
abbrev pub IsDelivery : Platform → ℕ → Poll → Type 0
IsDelivery p n poll =
    (poll.returncode ≡ some 0)
    × (poll.left_pending ≡ false)
    × (poll.saved_meanwhile ≡ none)
    × (read_output p poll.output ≡ ok (suc n))

fetch-transient :
    (p : Platform) (user : ℕ) (poll : Poll) (s : Home)
    → IsReady user s
    → IsTransient poll
    → (fetch p user poll s).0 ≡ s
unfolding after_poll after_status
fetch-transient p user poll s r t = rw (fetch_ready p user poll s r) (ground arith)

fetch-delivery :
    (p : Platform) (user n : ℕ) (poll : Poll) (s : Home)
    → IsReady user s
    → IsDelivery p n poll
    → (fetch p user poll s).0 ≡ record s { halt = true; batch = some poll.output }
unfolding after_poll after_status publish
fetch-delivery p user n poll s r d = rw (fetch_ready p user poll s r) (ground arith)

-- From a ready state, any number of transient failures does not stop the timer: the first poll that
-- delivers messages is saved, the pause is on, and nothing else of the state has changed.
pub fetch_all-delivers :
    (p : Platform) (user n : ℕ) (failures : List Poll) (poll : Poll) (s : Home)
    → IsReady user s
    → All IsTransient failures
    → IsDelivery p n poll
    → fetch_all p user (failures ++ poll ∷ []) s
      ≡ record s { halt = true; batch = some poll.output }
unfolding fetch_all
fetch_all-delivers p user n [] poll s r t d = fetch-delivery p user n poll s r d
fetch_all-delivers p user n (failure ∷ failures) poll s r t d =
    ap (fetch_all p user (failures ++ poll ∷ [])) (fetch-transient p user failure s r t.0)
    ∙ fetch_all-delivers p user n failures poll s r t.1 d
