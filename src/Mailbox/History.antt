-- ===== src/Mailbox/History.antt =====
-- `reject_historical_replays`: the receipts of earlier reviews.
use flop_contributions.Prelude.{
  ℕ, pos, Bool, false, not, Option, none, some, List, [], ◌∷◌, String, if◌then◌else◌,
}
use flop_contributions.Outcome.{Outcome, ok, err, system_exit, type_error, ◌>>=◌, ◌>>◌, require}
use flop_contributions.Text.{Str}
use flop_contributions.Json.{Value, str, arr, obj, elements, get, keys, hashable, is_int}
use flop_contributions.Table.{find, put}
use flop_contributions.Platform.{Platform, File}
use flop_contributions.Tclk.Transcript.{value_at}
use flop_contributions.Mailbox.Files.{max_batch_bytes, load_json_object}
use flop_contributions.Mailbox.Review.{Reviewed}
use flop_contributions.Mailbox.Receipt.{Receipt}

-- {item["signature_sha256"]: item["seq"] for item in receipt["messages"]}
unfoldable pub current_from : List (Str × ℕ) → List Reviewed → List (Str × ℕ)
unfolding put
current_from d [] = d
current_from d (r ∷ rs) = current_from (put r.signature_sha256 r.seq d) rs

unfoldable pub current : List Reviewed → List (Str × ℕ)
unfolding current_from
current = current_from []

-- The values that a loop over `old.get("messages", [])` meets: the characters of a text and the keys of
-- a dict are texts.
unfoldable pub iterated : Option Value → Outcome (List Value)
unfolding elements
iterated none = ok []
iterated (some (arr xs)) = ok (elements xs)
iterated (some (str s)) = ok (texts s)
  where
    texts : Str → List Value
    texts [] = []
    texts (c ∷ s) = str (c ∷ []) ∷ texts s
iterated (some (obj fs)) = ok (names (keys fs))
  where
    names : List String → List Value
    names [] = []
    names (k ∷ ks) = str [] ∷ names ks
iterated (some _) = err type_error

-- `signature_hash in current and item.get("seq") != current[signature_hash]`
unfoldable pub is_replay : List (Str × ℕ) → Value → Value → Bool
unfolding find is_int
is_replay d (str h) seq = elim (find h d) [ none ↦ false | some n ↦ not (is_int seq (pos n)) ]
is_replay d _ seq = false

unfoldable pub check_item : List (Str × ℕ) → Value → Outcome (Unit {0})
unfolding value_at is_replay
check_item d (obj item) =
    if hashable (value_at "signature_sha256" item)
    then require (not (is_replay d (value_at "signature_sha256" item) (value_at "seq" item)))
        "same-generation signed replay detected against archived receipt"
    else err type_error
check_item d _ = err (system_exit "review history file is malformed")

unfoldable pub check_items : List (Str × ℕ) → List Value → Outcome (Unit {0})
unfolding check_item
check_items d [] = ok tt
check_items d (v ∷ vs) = do check_item d v; check_items d vs

-- One archived receipt; those of another generation are passed over.
unfoldable pub check_archived : Platform → ℕ → List (Str × ℕ) → File → Outcome (Unit {0})
unfolding load_json_object value_at is_int iterated check_items
check_archived p generation d file = do
  old ← load_json_object p file (some max_batch_bytes)
  if not (is_int (value_at "generation" old) (pos generation))
      then ok tt
      else do items ← iterated (get "messages" old); check_items d items

unfoldable pub check_history : Platform → ℕ → List (Str × ℕ) → List File → Outcome (Unit {0})
unfolding check_archived
check_history p generation d [] = ok tt
check_history p generation d (file ∷ files) = do
  check_archived p generation d file
  check_history p generation d files

-- `is_link`: the history directory is a symlink. The files are those that `*.json` finds.
unfoldable pub reject_historical_replays :
    Platform → Receipt → Bool → List File → Outcome (Unit {0})
unfolding check_history current
reject_historical_replays p receipt is_link files = do
  require (not is_link) "review history directory must not be a symlink"
  check_history p receipt.generation (current receipt.messages) files
