-- ===== src/Base58.antt =====
-- `base58_decode` of scripts/validate-tclk-transcript.py (`b58` of scripts/verify-technocore-export.py
-- is the same function; `base58btc_decode` of scripts/verify-envelope.py and `decode_did` of
-- scripts/verify-close-call.py repeat its loop).
pub mod Laws
use flop_contributions.Prelude.{
  ℕ, zero, suc, ◌+◌, ◌*◌, ◌/◌, ◌%◌, Option, none, some, [], ◌∷◌, ◌++◌, replicate, ◌==◌,
  if◌then◌else◌,
}
use flop_contributions.Outcome.{Outcome, ok, err, value_error, ◌>>=◌}
use flop_contributions.Text.{Str, Bytes, codes}

-- The alphabet B58.
abbrev pub alphabet : Str
alphabet = codes "123456789ABCDEFGHJKLMNPQRSTUVWXYZabcdefghijkmnopqrstuvwxyz"

-- `B58.index(char)`, and `none` where `char not in B58`
unfoldable pub index_of : ℕ → Str → Option ℕ
index_of c [] = none
index_of c (a ∷ s) =
    if a == c then some 0 else (elim (index_of c s) [ none ↦ none | some i ↦ some (suc i) ])

-- The loop over the characters.
unfoldable pub number_of : ℕ → Str → Outcome ℕ
unfolding index_of
number_of number [] = ok number
number_of number (c ∷ s) = elim (index_of c alphabet) [
  | none ↦ err (value_error "DID is not canonical base58btc")
  | some digit ↦ number_of (number * 58 + digit) s
]

-- `number.to_bytes((number.bit_length() + 7) // 8, "big")`: the base-256 digits, none for 0. The
-- fuel is at least their number.
unfoldable pub to_bytes_from : ℕ → ℕ → Bytes → Bytes
to_bytes_from zero number acc = acc
to_bytes_from (suc fuel) number acc =
    let rest = to_bytes_from fuel (number / 256) ((number % 256) ∷ acc) in
    if number == 0 then acc else rest

unfoldable pub to_bytes : ℕ → Bytes
unfolding to_bytes_from
to_bytes number = to_bytes_from number number []

-- `len(value) - len(value.lstrip("1"))`
unfoldable pub leading_ones : Str → ℕ
leading_ones [] = 0
leading_ones (c ∷ s) = let rest = suc (leading_ones s) in if c == b'1' then rest else 0

unfoldable pub base58_decode : Str → Outcome Bytes
unfolding number_of to_bytes leading_ones
base58_decode value = do
  number ← number_of 0 value
  ok (replicate (leading_ones value) 0 ++ to_bytes number)
