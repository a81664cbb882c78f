-- ===== src/Install.antt =====
-- `install` of scripts/install-reviewed-signer.py: the signer is put into the agent's directory.
pub mod Outcomes
use flop_contributions.Prelude.{
  ℕ, ◌+◌, Bool, true, false, not, ◌&&◌, length, take, ◌==◌, if◌then◌else◌,
}
use flop_contributions.Outcome.{Outcome, ok, err, value_error, os_error}
use flop_contributions.Text.{Str, Bytes, codes, eq_str}
use flop_contributions.Platform.{Platform}

abbrev pub expected_sha256 : Str
expected_sha256 = codes "fe742f2ac22cebab80d8b3cd3cd8987d68709c6929ac315fee0b85dff9f92a2a"

-- 0o700
abbrev pub private_mode : ℕ
private_mode = 448

-- The path that is opened with O_DIRECTORY and O_NOFOLLOW.
pub data Directory : Type 0 where
  unopenable : Directory
  directory : ℕ → ℕ → Directory

-- What stands at `sign.py`: an entry that cannot be opened, a regular file with its owner, mode and
-- content, or another kind of entry.
pub data Signer : Type 0 where
  missing unreadable other : Signer
  regular : ℕ → ℕ → Bytes → Signer

-- `stream.read(len(payload) + 1) != payload` does not hold.
unfoldable pub holds_payload : Bytes → Bytes → Bool
unfolding eq_str
holds_payload payload content = eq_str (take (length payload + 1) content) payload

-- The entry that is left, and the result; it tells whether the signer was written. Where the write fails,
-- the new file is removed again.
unfoldable pub install_at : ℕ → Bytes → Bool → Signer → Signer × Outcome Bool
unfolding holds_payload
install_at user payload writable missing =
    if writable then (regular user private_mode payload, ok true) else (missing, err os_error)
install_at user payload writable (regular owner mode content) =
    if not (owner == user && mode == private_mode)
    then (
      regular owner mode content,
      err (value_error "existing signer must be a regular owned file with mode 700"),
    )
    else if not (holds_payload payload content)
    then (
      regular owner mode content,
      err (value_error "existing signer differs; refusing to overwrite it"),
    )
    else (regular owner mode content, ok false)
install_at user payload writable unreadable = (unreadable, err os_error)
install_at user payload writable other =
    (other, err (value_error "existing signer must be a regular owned file with mode 700"))

unfoldable pub install : Platform → ℕ → Bytes → Directory → Bool → Signer → Signer × Outcome Bool
unfolding install_at eq_str
install p user payload unopenable writable signer =
    if not (eq_str (p.sha256 payload) expected_sha256)
    then (signer, err (value_error "vendored signer checksum mismatch"))
    else (signer, err os_error)
install p user payload (directory owner mode) writable signer =
    if not (eq_str (p.sha256 payload) expected_sha256)
    then (signer, err (value_error "vendored signer checksum mismatch"))
    else if not (owner == user && mode == private_mode)
    then (signer, err (value_error "agent directory must be owned by you with mode 700"))
    else install_at user payload writable signer
