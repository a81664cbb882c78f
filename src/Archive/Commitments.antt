-- ===== src/Archive/Commitments.antt =====
-- `verify_commitments`: the signed flow records of a directory.
use flop_contributions.Prelude.{
  ℕ, suc, ◌-◌, ℤ, pos, negsuc, Bool, true, false, List, [], ◌∷◌, ◌++◌, length, replicate,
}
use flop_contributions.Outcome.{Outcome, ok, err, value_error, type_error, ◌>>=◌, ◌>>◌, guard}
use flop_contributions.Text.{Str, codes}
use flop_contributions.Text.Decimal.{decimal}
use flop_contributions.Json.{Value, int, real, bool, str, obj, is_str, is_int}
use flop_contributions.Platform.{Platform, File}
use flop_contributions.Tclk.Transcript.{value_at}
use flop_contributions.CloseCall.Envelope.{verify_envelope}
use flop_contributions.Archive.Index.{read, load, Entry}

-- A directory: it exists and is no symlink, and its files by their names.
pub record Directory : Type 0 where
  pub is_real : Bool
  pub file : Str → File

abbrev pub padded : ℕ → Str → Str
padded width s = replicate (width - length s) b'0' ++ s

-- f"{n:016d}.json"
unfoldable pub flow_name : ℤ → Str
unfolding decimal
flow_name (pos n) = padded 16 (decimal n) ++ codes ".json"
flow_name (negsuc n) = b'-' ∷ padded 15 (decimal (suc n)) ++ codes ".json"

-- The integer that is formatted: True is 1, and a float raises ValueError.
abbrev pub formatted : Value → Outcome ℤ
formatted (int n) = ok n
formatted (bool true) = ok (pos 1)
formatted (bool false) = ok (pos 0)
formatted (real r) = err (value_error "Unknown format code")
formatted (str s) = err (value_error "Unknown format code")
formatted _ = err type_error

-- The signed flow record `n`, which has to commit to the file.
unfoldable pub check_flow : Platform → ℤ → Str → Value → Outcome (Unit {0})
unfolding verify_envelope value_at is_str is_int
check_flow p n file (obj record_fields) = do
  sealed ← verify_envelope p (codes "d-close1-flow") record_fields
  guard (is_str (value_at "t" sealed.message) (codes "flow"))
      "signed flow record has the wrong payload"
  guard (is_int (value_at "n" sealed.message) n) "signed flow record has the wrong payload"
  guard (is_str (value_at "file" sealed.message) file)
      "archive commitment differs from signed sweep"
check_flow p n file _ = err (value_error "signed flow record is not an object")

unfoldable pub verify_commitment : Platform → Directory → Entry → Outcome (Unit {0})
unfolding flow_name read load check_flow
verify_commitment p directory entry = do
  n ← formatted entry.n
  raw ← read (directory.file (flow_name n))
  flow ← load p raw
  check_flow p n entry.file flow

unfoldable pub commit_all : Platform → Directory → List Entry → Outcome (Unit {0})
unfolding verify_commitment
commit_all p directory [] = ok tt
commit_all p directory (entry ∷ entries) = do
  verify_commitment p directory entry
  commit_all p directory entries

unfoldable pub verify_commitments : Platform → List Entry → Directory → Outcome (Unit {0})
unfolding commit_all
verify_commitments p entries directory = do
  guard directory.is_real "signed flow directory must be a real directory"
  commit_all p directory entries
