-- ===== src/Tclk/Report/Sound.antt =====
-- What a report of `validate_transcript` vouches for.
use mathlib.Core.Path.{subst}
use flop_contributions.Prelude.{
  ℕ, ◌+◌, ◌≡◌, refl, sym, some, true, ◌||◌, List, [], ◌∷◌, length, arith, ◌==◌, All,
}
use flop_contributions.Outcome.{ok-injective, ok, >>=-eq-ok, guard-eq-ok}
use flop_contributions.Text.{Str}
use flop_contributions.Text.Membership.{In, Distinct}
use flop_contributions.Json.{Value, null, obj, Fields}
use flop_contributions.Table.{find, sorted}
use flop_contributions.Table.Keys.{keys, sorted-find-Apart, find-In, Apart-Distinct}
use flop_contributions.Platform.{Platform, redacted_hash}
use flop_contributions.Tclk.Contract.{Contract}
use flop_contributions.Tclk.Transcript.{State, process_all}
use flop_contributions.Tclk.Transcript.Sequence.{
  Covers, IsSigned, process_all-Covers, process_all-IsSigned, process_all-counts,
}
use flop_contributions.Tclk.Transcript.Replays.{tclk_lines, process_all-Distinct}
use flop_contributions.Tclk.Transcript.History.{history}
use flop_contributions.Tclk.Transcript.Led.{Led}
use flop_contributions.Tclk.Transcript.Follow.{process_all-Follow}
use flop_contributions.Tclk.Transcript.Apart.{process_all-Apart}
use flop_contributions.Tclk.Report.Entries.{
  AllReported, Led-find, Apart-AllLed, report_contracts-AllReported,
}
use flop_contributions.Tclk.Report.{
  Batch, Report, read_header, initial, report_contracts, binding, validate_transcript,
}
use flop_contributions.Tclk.Report.Header.{IsHeader, FirstAgrees, read_header-IsHeader}

-- The run behind a report.
pub record Runs (p : Platform) (payload : Value) (room : Str) (r : Report) : Type 0 where
  pub header : read_header payload ≡ ok r.batch
  pub last : State
  pub ran :
      process_all p room r.batch.starting r.batch.proposed 0
        (initial r.batch.starting)
        r.batch.messages
      ≡ ok last
  pub ended : (length r.batch.messages == 0 || last.previous_seq == r.batch.proposed) ≡ true
  pub accepted : r.accepted_frame_count ≡ last.accepted
  pub ignored : r.ignored_non_tclk_count ≡ last.ignored
  pub contracts : report_contracts p (sorted last.contracts) ≡ ok r.contracts

pub validate_transcript-Runs :
    (p : Platform) (payload : Value) (room : Str) (r : Report)
    → validate_transcript p payload room ≡ ok r
    → Runs p payload room r
unfolding validate_transcript
validate_transcript-Runs p payload room r h =
    let (b, header, h₁) = >>=-eq-ok (read_header payload) _ h in
    let (s, ran, h₂) =
      >>=-eq-ok (process_all p room b.starting b.proposed 0 (initial b.starting) b.messages) _ h₁ in
    let (ended, h₃) = guard-eq-ok (length b.messages == 0 || s.previous_seq == b.proposed) _ _ h₂ in
    let (hash, hashed, h₄) = >>=-eq-ok (redacted_hash p (p.dumps (binding b))) _ h₃ in
    let (cs, reported, h₅) = >>=-eq-ok (report_contracts p (sorted s.contracts)) _ h₄ in
    subst (Runs p payload room) (ok-injective h₅) (record {
      header = header;
      last = s;
      ran = ran;
      ended = ended;
      accepted = refl;
      ignored = refl;
      contracts = reported;
    })

Covers-to_cursor :
    (starting last proposed : ℕ) (vs : List Value)
    → (length vs == 0 || last == proposed) ≡ true
    → (length vs ≡ 0 → starting ≡ proposed)
    → Covers starting last vs
    → Covers starting proposed vs
Covers-to_cursor starting last proposed [] e z c = z refl
Covers-to_cursor starting last proposed (v ∷ vs) e z c =
    let same : last ≡ proposed = ground arith in subst (λ k. Covers starting k (v ∷ vs)) same c

empty_batch :
    (first : Value) (vs : List Value) (starting proposed : ℕ)
    → FirstAgrees first vs starting proposed
    → length vs ≡ 0
    → starting ≡ proposed
empty_batch first [] starting proposed f e = f.1
empty_batch first (v ∷ vs) starting proposed f e = cc

-- The payload is an object of the batch schema.
pub record IsReview (p : Platform) (payload : Value) (room : Str) (r : Report) : Type 0 where
  pub fields : Fields
  pub is_object : payload ≡ obj fields
  pub header : IsHeader fields r.batch
  pub gapless : Covers r.batch.starting r.batch.proposed r.batch.messages
  pub signed : All (IsSigned p room) r.batch.messages
  pub unreplayed : Distinct (tclk_lines r.batch.messages)
  pub counted : r.accepted_frame_count + r.ignored_non_tclk_count ≡ length r.batch.messages

read_header-object : (v : Value) (b : Batch) → read_header v ≡ ok b → (fs : Fields) × (v ≡ obj fs)
read_header-object (obj fs) b h = (fs, refl)
read_header-object null b h = unfold read_header in cc
read_header-object _ b h = unfold read_header in cc

-- A report is returned only for a batch whose header fits its messages, whose messages are numbered
-- without gap up to the proposed cursor, from the starting cursor on unless that is 0, and are all
-- signed for the room, in which no tclk line is repeated, and each of whose messages is counted once.
pub validate_transcript-IsReview :
    (p : Platform) (payload : Value) (room : Str) (r : Report)
    → validate_transcript p payload room ≡ ok r
    → IsReview p payload room r
unfolding initial
validate_transcript-IsReview p payload room r h =
    let run = validate_transcript-Runs p payload room r h in
    let b = r.batch in
    let (fields, is_object) = read_header-object payload b run.header in
    let header =
      read_header-IsHeader fields b (subst (λ v. read_header v ≡ ok b) is_object run.header) in
    let covers =
      process_all-Covers p room b.starting b.proposed (initial b.starting) b.messages run.last refl
        run.ran in
    let counts =
      process_all-counts p room b.starting b.proposed 0 (initial b.starting) b.messages run.last
        run.ran in
    record {
      fields = fields;
      is_object = is_object;
      header = header;
      gapless =
          Covers-to_cursor b.starting run.last.previous_seq b.proposed b.messages run.ended
            (empty_batch _ b.messages b.starting b.proposed header.first) covers;
      signed =
          process_all-IsSigned p room b.starting b.proposed 0 (initial b.starting) b.messages
            run.last run.ran;
      unreplayed =
          (process_all-Distinct p room b.starting b.proposed 0 (initial b.starting) b.messages
            run.last run.ran).0;
      counted = omega (arith, counts, run.accepted, run.ignored);
    }

-- The entries of a report and the frames of its batch.
pub record Reports (p : Platform) (payload : Value) (r : Report) : Type 0 where
  pub header : read_header payload ≡ ok r.batch
  pub ids : List Str
  pub once : Distinct ids
  pub complete :
      (id : Str) (c : Contract) → Led p id (history p [] r.batch.messages) (some c) → In id ids
  pub entries : AllReported p (history p [] r.batch.messages) ids r.contracts

-- A report has one entry for each offer id under which the frames of the batch lead to a contract, and no
-- other entry: an entry gives the hash of the offer id and, of the contract, the hash of its id, the
-- status and the rail. The frames are those of the batch's messages, in their order and with their
-- times: an offer opens its contract, whose id no earlier offer had, and the acceptances that refer to
-- it and the frames that name a contract id which its acceptance gave lead on, each permitted by the
-- rules of the protocol.
pub validate_transcript-IsReported :
    (p : Platform) (payload : Value) (room : Str) (r : Report)
    → validate_transcript p payload room ≡ ok r
    → Reports p payload r
unfolding initial
validate_transcript-IsReported p payload room r h =
    let run = validate_transcript-Runs p payload room r h in
    let b = r.batch in
    let hist = history p [] b.messages in
    let (led, owned) =
      process_all-Follow p room b.starting b.proposed 0 [] (initial b.starting) b.messages run.last
        (unfold find in (λ id. refl, λ x. refl)) run.ran in
    let apart =
      process_all-Apart p room b.starting b.proposed 0 (initial b.starting) b.messages run.last tt
        run.ran in
    let (same, apart') = sorted-find-Apart run.last.contracts apart in
    let led' : (id : Str) → Led p id hist (find id (sorted run.last.contracts)) =
      λ id. subst (Led p id hist) (sym (same id)) (led id) in
    record {
      header = run.header;
      ids = keys (sorted run.last.contracts);
      once = Apart-Distinct (sorted run.last.contracts) apart';
      complete = λ id c l.
          let (held, found) = Led-find p hist id c (sorted run.last.contracts) (led' id) l in
          find-In id held (sorted run.last.contracts) found;
      entries =
          report_contracts-AllReported p hist (sorted run.last.contracts) r.contracts
            (Apart-AllLed p hist (sorted run.last.contracts) apart'
              (λ id c found. subst (Led p id hist) found (led' id)))
            run.contracts;
    }
