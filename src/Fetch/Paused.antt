-- ===== src/Fetch/Paused.antt =====
-- When a run resumes, what it saves, and that a paused state is left alone.
use flop_contributions.Prelude.{
  ℕ, ◌≡◌, ◌≢◌, ◌↔◌, ◌⊎◌, Bool, true, false, none, some, arith, inl, inr,
}
use flop_contributions.Outcome.{Outcome, ok, err}
use flop_contributions.Text.{Bytes}
use flop_contributions.Platform.{Platform}
use flop_contributions.Fetch.{
  Home, Poll, saved, read_output, publish, after_status, after_poll, halted, polled, is_private,
  is_paused, fetch,
}

-- A state that may be polled: private, not locked, and with nothing to review.
pub record IsReady (user : ℕ) (s : Home) : Type 0 where
  pub real : s.is_link ≡ false
  pub private : is_private user s ≡ true
  pub lock_free : s.lock_free ≡ true
  pub halt : s.halt ≡ false
  pub batch : s.batch ≡ none
  pub pending : s.pending ≡ false
  pub linked : s.linked ≡ false
  pub has_poller : s.has_poller ≡ true

-- From a ready state the run is what follows the poll, with the pause written.
pub fetch_ready :
    (p : Platform) (user : ℕ) (poll : Poll) (s : Home)
    → IsReady user s
    → fetch p user poll s ≡ after_poll p (polled (halted s) poll) poll
unfolding fetch
fetch_ready p user poll s r = ground arith

-- A run that finds a pause, a saved batch or a pending file changes nothing, whatever the poller would
-- have returned; so it never polls.
pub fetch_paused :
    (p : Platform) (user : ℕ) (poll other : Poll) (s : Home)
    → is_paused s ≡ true
    → (fetch p user poll s ≡ fetch p user other s) × ((fetch p user poll s).0 ≡ s)
unfolding fetch
fetch_paused p user poll other s h = ground arith

-- What a poll must be for the run to go on without a pause.
abbrev pub IsQuiet : Platform → Poll → Type 0
IsQuiet p poll =
    (poll.left_pending ≡ false)
    × ((poll.returncode ≡ some 75)
        ⊎ ((poll.returncode ≡ some 0) × (read_output p poll.output ≡ ok 0)))

-- A run from a ready state leaves the pause off exactly where the poller failed for the moment or
-- returned an empty batch, and left no pending file; after everything else the pause stays.
pub fetch_resumes_iff :
    (p : Platform) (user : ℕ) (poll : Poll) (s : Home)
    → IsReady user s
    → ((fetch p user poll s).0.halt ≡ false) ↔ IsQuiet p poll
unfolding after_poll after_status publish
fetch_resumes_iff p user poll s r = rw (fetch_ready p user poll s r) (ground arith)

-- A well-formed batch that has messages, or comes with a pending file.
abbrev pub IsSubstantial : Outcome ℕ → Bool → Type 0
IsSubstantial (ok n) pending = (n ≢ 0) ⊎ (pending ≡ true)
IsSubstantial (err e) pending = ⊥

abbrev pub IsBatch : Platform → Poll → Type 0
IsBatch p poll =
    (poll.returncode ≡ some 0)
    × (poll.saved_meanwhile ≡ none)
    × IsSubstantial (read_output p poll.output) poll.left_pending

-- A run from a ready state reports a saved batch exactly where the poller returned one that is not empty,
-- or left a pending file, and no batch was saved by hand meanwhile; the saved batch is then its output,
-- and in every other case what was saved by hand meanwhile, if anything.
pub fetch_saves_iff :
    (p : Platform) (user : ℕ) (poll : Poll) (s : Home)
    → IsReady user s
    → (((fetch p user poll s).1 ≡ ok saved) ↔ IsBatch p poll)
      × (IsBatch p poll → (fetch p user poll s).0.batch ≡ some poll.output)
      × (¬ IsBatch p poll → (fetch p user poll s).0.batch ≡ poll.saved_meanwhile)
unfolding after_poll after_status publish
fetch_saves_iff p user poll s r =
    rw (fetch_ready p user poll s r) (ground arith, ground arith, ground arith)

-- A saved batch, found or saved by hand during the poll, is never replaced or removed.
pub fetch_keeps_batch :
    (p : Platform) (user : ℕ) (poll : Poll) (s : Home) (b : Bytes)
    → (s.batch ≡ some b) ⊎ (IsReady user s × (poll.saved_meanwhile ≡ some b))
    → (fetch p user poll s).0.batch ≡ some b
unfolding fetch after_poll after_status publish
fetch_keeps_batch p user poll s b (inl h) = ground arith
fetch_keeps_batch p user poll s b (inr (r, h)) = rw (fetch_ready p user poll s r) (ground arith)
