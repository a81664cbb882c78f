-- ===== src/Install/Outcomes.antt =====
-- When the installer succeeds, and what it leaves.
use flop_contributions.Prelude.{ℕ, ◌≡◌, ◌↔◌, ◌⊎◌, refl, Bool, true, false, [], ◌∷◌, arith, inl, inr}
use flop_contributions.Outcome.{ok}
use flop_contributions.Text.{Bytes, eq_str}
use flop_contributions.Text.Laws.{eq_str_iff}
use flop_contributions.Platform.{Platform}
use flop_contributions.Install.{
  expected_sha256, private_mode, Directory, unopenable, directory, Signer, missing, unreadable,
  other, regular, holds_payload, install_at, install,
}

-- A longer file differs within the bytes that are read of it.
holds_payload_iff :
    (payload content : Bytes) → (holds_payload payload content ≡ true) ↔ (content ≡ payload)
unfolding holds_payload eq_str
holds_payload_iff [] [] = ground arith
holds_payload_iff [] (c ∷ content) = ground arith
holds_payload_iff (b ∷ payload) [] = ground arith
holds_payload_iff (b ∷ payload) (c ∷ content) = ground (arith, holds_payload_iff payload content)

-- The new signer, or the same one as before.
abbrev pub IsInstalled : ℕ → Bytes → Bool → Signer → Bool → Signer → Type 0
IsInstalled user payload writable before true after =
    (before ≡ missing) × (writable ≡ true) × (after ≡ regular user private_mode payload)
IsInstalled user payload writable before false after =
    (before ≡ regular user private_mode payload) × (after ≡ before)

install_at_iff :
    (user : ℕ) (payload : Bytes) (writable : Bool) (before after : Signer) (written : Bool)
    → (install_at user payload writable before ≡ (after, ok written))
      ↔ IsInstalled user payload writable before written after
unfolding install_at
install_at_iff user payload writable missing after true = ground arith
install_at_iff user payload writable missing after false = ground arith
install_at_iff user payload writable unreadable after true = ground arith
install_at_iff user payload writable unreadable after false = ground arith
install_at_iff user payload writable other after true = ground arith
install_at_iff user payload writable other after false = ground arith
install_at_iff user payload writable (regular owner mode content) after true =
    ground (arith, holds_payload_iff payload content)
install_at_iff user payload writable (regular owner mode content) after false =
    ground (arith, holds_payload_iff payload content)

-- The installer succeeds exactly where the payload has the pinned digest, the directory is the user's and
-- private, and the signer was missing and could be written, or was there with the same bytes, owner and
-- mode; the signer is then the payload, the user's, with mode 700.
pub install_iff :
    (p : Platform) (user : ℕ) (payload : Bytes) (d : Directory) (writable : Bool)
    (before after : Signer) (written : Bool)
    → (install p user payload d writable before ≡ (after, ok written)) ↔ (
        (p.sha256 payload ≡ expected_sha256)
        × (d ≡ directory user private_mode)
        × IsInstalled user payload writable before written after)
unfolding install
install_iff p user payload unopenable writable before after written =
    ground (arith, eq_str_iff (p.sha256 payload) expected_sha256)
install_iff p user payload (directory owner mode) writable before after written = ground (
  arith,
  eq_str_iff (p.sha256 payload) expected_sha256,
  install_at_iff user payload writable before after written,
)

-- Whatever the result, an entry that was there is as it was.
pub install_keeps :
    (p : Platform) (user : ℕ) (payload : Bytes) (d : Directory) (writable : Bool) (before : Signer)
    → (before ≡ missing) ⊎ ((install p user payload d writable before).0 ≡ before)
unfolding install install_at
install_keeps p user payload d writable missing = inl refl
install_keeps p user payload unopenable writable unreadable = inr (ground arith)
install_keeps p user payload unopenable writable other = inr (ground arith)
install_keeps p user payload unopenable writable (regular owner mode content) = inr (ground arith)
install_keeps p user payload (directory o m) writable unreadable = inr (ground arith)
install_keeps p user payload (directory o m) writable other = inr (ground arith)
install_keeps p user payload (directory o m) writable (regular owner mode content) =
    inr (ground arith)
