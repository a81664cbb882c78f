-- ===== src/Envelope/Sound.antt =====
-- What `verify-envelope.py` accepts: an envelope whose cleaned text the key of the DID signed.
use flop_contributions.Prelude.{◌≡◌, refl, Bool, String, true, false}
use flop_contributions.Outcome.{ok, require, >>=-eq-ok, require-eq-ok}
use flop_contributions.Text.{Str, Bytes, is_room}
use flop_contributions.Text.Utf8.{utf8}
use flop_contributions.Platform.{Platform}
use flop_contributions.Envelope.{
  Envelope, clean_text, public_key_from_did, decode_signature, is_nonce_text, canonical, verify,
}

pub record IsSigned (p : Platform) (e : Envelope) : Type 0 where
  pub named : is_room e.room ≡ true
  pub numbered : is_nonce_text e.nonce ≡ true
  pub cleaned : Str
  pub clean : clean_text p e.text ≡ ok cleaned
  pub key : Bytes
  pub keyed : public_key_from_did e.did ≡ ok key
  pub signature : Bytes
  pub decoded : decode_signature e.sig ≡ ok signature
  pub material : Bytes
  pub encoded : utf8 (canonical e.room e.nonce cleaned) ≡ ok material
  pub verified : p.ed25519 key signature material ≡ true

pub verify-IsSigned : (p : Platform) (e : Envelope) → verify p e ≡ ok tt → IsSigned p e
unfolding verify
verify-IsSigned p e h =
    let (named, h₁) = require-eq-ok (is_room e.room) _ _ h in
    let (numbered, h₂) = require-eq-ok (is_nonce_text e.nonce) _ _ h₁ in
    let (cleaned, clean, h₃) = >>=-eq-ok (clean_text p e.text) _ h₂ in
    let (key, keyed, h₄) = >>=-eq-ok (public_key_from_did e.did) _ h₃ in
    let (signature, decoded, h₅) = >>=-eq-ok (decode_signature e.sig) _ h₄ in
    let (material, encoded, h₆) = >>=-eq-ok (utf8 (canonical e.room e.nonce cleaned)) _ h₅ in
    record {
      named = named;
      numbered = numbered;
      cleaned = cleaned;
      clean = clean;
      key = key;
      keyed = keyed;
      signature = signature;
      decoded = decoded;
      material = material;
      encoded = encoded;
      verified = require_true (p.ed25519 key signature material) _ h₆;
    }
  where
    require_true : (b : Bool) (message : String) → require b message ≡ ok tt → b ≡ true
    require_true true message h = refl
    require_true false message h = cc
