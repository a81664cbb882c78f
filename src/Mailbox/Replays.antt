-- ===== src/Mailbox/Replays.antt =====
-- What `reject_historical_replays` lets pass.
use flop_contributions.Prelude.{
  ℕ, ◌≡◌, ◌⊎◌, refl, sym, ap, ◌∙◌, pos, Bool, true, false, not, some, List, [], ◌∷◌, String, arith,
  All, inl, inr, Bool-cases,
}
use flop_contributions.Outcome.{ok, require, >>=-eq-ok, require-eq-ok}
use flop_contributions.Text.{Str}
use flop_contributions.Text.Laws.{eq_str_iff}
use flop_contributions.Text.Membership.{In, Distinct}
use flop_contributions.Json.{Value, str, obj, Fields, get, hashable, is_int}
use flop_contributions.Table.{find, put}
use flop_contributions.Table.Laws.{find-put}
use flop_contributions.Platform.{Platform, File}
use flop_contributions.Tclk.Transcript.{value_at}
use flop_contributions.Mailbox.Files.{max_batch_bytes, load_json_object}
use flop_contributions.Mailbox.Review.{Reviewed}
use flop_contributions.Mailbox.Receipt.{Receipt}
use flop_contributions.Mailbox.Sound.{hashes}
use flop_contributions.Mailbox.History.{
  current_from, current, iterated, is_replay, check_item, check_items, check_archived,
  check_history, reject_historical_replays,
}

-- The table of a receipt keeps what it had under other digests.
find-current_from :
    (h : Str) (d : List (Str × ℕ)) (es : List Reviewed)
    → ¬ In h (hashes es)
    → find h (current_from d es) ≡ find h d
unfolding current_from
find-current_from h d [] n = refl
find-current_from h d (e ∷ es) n =
    find-current_from h (put e.signature_sha256 e.seq d) es (λ i. n (inr i))
    ∙ ground (arith, find-put e.signature_sha256 h e.seq d, eq_str_iff e.signature_sha256 h, n)

-- Under the digest of an entry it holds the entry's number.
abbrev pub Holds : List (Str × ℕ) → List Reviewed → Type 0
Holds d es = All (λ e. find e.signature_sha256 d ≡ some e.seq) es

current_from-Holds :
    (d : List (Str × ℕ)) (es : List Reviewed) → Distinct (hashes es) → Holds (current_from d es) es
unfolding current_from
current_from-Holds d [] u = tt
current_from-Holds d (e ∷ es) (fresh, u) = (
  find-current_from e.signature_sha256 (put e.signature_sha256 e.seq d) es fresh
      ∙ ground (
        arith,
        find-put e.signature_sha256 e.signature_sha256 e.seq d,
        eq_str_iff e.signature_sha256 e.signature_sha256,
      ),
  current_from-Holds (put e.signature_sha256 e.seq d) es u,
)

-- An archived item that does not carry a digest of the receipt with another number.
abbrev pub IsFresh : List Reviewed → Value → Type 0
IsFresh es (obj item) =
    All
      (λ e.
        value_at "signature_sha256" item ≡ str e.signature_sha256
        → is_int (value_at "seq" item) (pos e.seq) ≡ true)
      es
IsFresh es _ = ⊥

twice : (b : Bool) → not (not b) ≡ true → b ≡ true
twice true h = refl
twice false h = cc

replay_known :
    (d : List (Str × ℕ)) (k : Str) (seq : Value) (n : ℕ)
    → find k d ≡ some n
    → is_replay d (str k) seq ≡ not (is_int seq (pos n))
unfolding is_replay
replay_known d k seq n f = rw (f, is_replay)

fresh_entry :
    (d : List (Str × ℕ)) (v seq : Value) (h : Str) (n : ℕ)
    → find h d ≡ some n
    → not (is_replay d v seq) ≡ true
    → v ≡ str h
    → is_int seq (pos n) ≡ true
fresh_entry d (str k) seq h n found t same =
    let e : k ≡ h = cc same in
    let f : find k d ≡ some n = rw e found in
    twice (is_int seq (pos n)) (ap not (sym (replay_known d k seq n f)) ∙ t)
fresh_entry d _ seq h n found t same = cc

IsFresh-entries :
    (d : List (Str × ℕ)) (item : Fields) (es : List Reviewed)
    → Holds d es
    → not (is_replay d (value_at "signature_sha256" item) (value_at "seq" item)) ≡ true
    → IsFresh es (obj item)
IsFresh-entries d item [] k t = tt
IsFresh-entries d item (e ∷ es) k t = (
  fresh_entry d (value_at "signature_sha256" item) (value_at "seq" item) e.signature_sha256 e.seq
      k.0 t,
  IsFresh-entries d item es k.1 t,
)

check_item-IsFresh :
    (d : List (Str × ℕ)) (es : List Reviewed) (v : Value)
    → Holds d es
    → check_item d v ≡ ok tt
    → IsFresh es v
unfolding check_item
check_item-IsFresh d es (obj item) k h =
    elim (Bool-cases (hashable (value_at "signature_sha256" item))) [
      | inl can ↦ IsFresh-entries d item es k (require_true _ _ (rw can at h))
      | inr cannot ↦ cc (rw cannot at h)
    ]
  where
    require_true : (b : Bool) (message : String) → require b message ≡ ok tt → b ≡ true
    require_true true message h = refl
    require_true false message h = cc
check_item-IsFresh d es _ k h = cc

check_items-IsFresh :
    (d : List (Str × ℕ)) (es : List Reviewed) (vs : List Value)
    → Holds d es
    → check_items d vs ≡ ok tt
    → All (IsFresh es) vs
unfolding check_items
check_items-IsFresh d es [] k h = tt
check_items-IsFresh d es (v ∷ vs) k h =
    let (u, one, more) = >>=-eq-ok (check_item d v) _ h in
    (check_item-IsFresh d es v k one, check_items-IsFresh d es vs k more)

-- An archived receipt that could be read, and that is of another generation or has fresh items only.
abbrev pub IsCompatible : Platform → Receipt → File → Type 0
IsCompatible p r file =
    (old : Fields) × (load_json_object p file (some max_batch_bytes) ≡ ok old)
    × ((is_int (value_at "generation" old) (pos r.generation) ≡ false)
        ⊎ ((items : List Value) × (iterated (get "messages" old) ≡ ok items)
            × All (IsFresh r.messages) items))

check_archived-IsCompatible :
    (p : Platform) (r : Receipt) (d : List (Str × ℕ)) (file : File)
    → Holds d r.messages
    → check_archived p r.generation d file ≡ ok tt
    → IsCompatible p r file
unfolding check_archived
check_archived-IsCompatible p r d file k h =
    let (old, loaded, h₁) = >>=-eq-ok (load_json_object p file (some max_batch_bytes)) _ h in
    elim (Bool-cases (is_int (value_at "generation" old) (pos r.generation))) [
      | inr other ↦ (old, loaded, inl other)
      | inl same ↦
          let (items, listed, checked) =
            >>=-eq-ok (iterated (get "messages" old)) _ (rw same at h₁) in
          (old, loaded, inr (items, listed, check_items-IsFresh d r.messages items k checked))
    ]

check_history-IsCompatible :
    (p : Platform) (r : Receipt) (d : List (Str × ℕ)) (files : List File)
    → Holds d r.messages
    → check_history p r.generation d files ≡ ok tt
    → All (IsCompatible p r) files
unfolding check_history
check_history-IsCompatible p r d [] k h = tt
check_history-IsCompatible p r d (file ∷ files) k h =
    let (u, one, more) = >>=-eq-ok (check_archived p r.generation d file) _ h in
    (check_archived-IsCompatible p r d file k one, check_history-IsCompatible p r d files k more)

-- Where the digests of a receipt differ, as those of every reviewed batch do, the receipt is let pass
-- only if every archived receipt can be read and is of another generation, or none of its items has the
-- signature digest of a message of the receipt under another sequence number.
pub reject_historical_replays-IsCompatible :
    (p : Platform) (r : Receipt) (is_link : Bool) (files : List File)
    → Distinct (hashes r.messages)
    → reject_historical_replays p r is_link files ≡ ok tt
    → All (IsCompatible p r) files
unfolding reject_historical_replays current
reject_historical_replays-IsCompatible p r is_link files u h =
    let (own, h₁) = require-eq-ok (not is_link) _ _ h in
    check_history-IsCompatible p r (current r.messages) files (current_from-Holds [] r.messages u)
      h₁
