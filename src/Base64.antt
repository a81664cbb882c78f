-- ===== src/Base64.antt =====
-- `base64.b64decode(text + "==", altchars=b"-_", validate=True)` and
-- `base64.urlsafe_b64encode(raw).decode().rstrip("=")`, for the texts of 86 characters that the
-- scripts decode: 21 groups of 4 characters, and 2 characters with 4 spare bits.
use flop_contributions.Prelude.{
  ℕ, ◌+◌, ◌-◌, ◌*◌, ◌/◌, ◌%◌, ◌&&◌, Option, none, some, [], ◌∷◌, leb, ◌==◌, if◌then◌else◌,
}
use flop_contributions.Text.{Str, Bytes}

-- The six bits of a character of [A-Za-z0-9_-].
unfoldable pub sextet : ℕ → ℕ
sextet c =
    if leb b'A' c && leb c b'Z'
    then c - b'A'
    else if leb b'a' c && leb c b'z'
    then c - b'a' + 26
    else if leb b'0' c && leb c b'9'
    then c - b'0' + 52
    else if c == b'-'
    then 62
    else 63

unfoldable pub letter : ℕ → ℕ
letter n =
    if leb n 25
    then n + b'A'
    else if leb n 51
    then n - 26 + b'a'
    else if leb n 61
    then n - 52 + b'0'
    else if n == 62
    then b'-'
    else b'_'

-- The spare bits of a last group are dropped, as the C decoder does; a single character is an
-- incomplete group, and none remains to decode after `validate` of a length of 4k + 1.
unfoldable pub decode_groups : Str → Option Bytes
unfolding sextet
decode_groups (a ∷ b ∷ c ∷ d ∷ s) = elim (decode_groups s) [
  | none ↦ none
  | some rest ↦ some (
      (sextet a * 4 + sextet b / 16)
      ∷ (sextet b % 16 * 16 + sextet c / 4)
      ∷ (sextet c % 4 * 64 + sextet d)
      ∷ rest)
]
decode_groups (a ∷ b ∷ c ∷ []) =
    some ((sextet a * 4 + sextet b / 16) ∷ (sextet b % 16 * 16 + sextet c / 4) ∷ [])
decode_groups (a ∷ b ∷ []) = some ((sextet a * 4 + sextet b / 16) ∷ [])
decode_groups (a ∷ []) = none
decode_groups [] = some []

unfoldable pub encode_groups : Bytes → Str
unfolding letter
encode_groups (x ∷ y ∷ z ∷ bs) =
    letter (x / 4)
    ∷ letter (x % 4 * 16 + y / 16)
    ∷ letter (y % 16 * 4 + z / 64)
    ∷ letter (z % 64)
    ∷ encode_groups bs
encode_groups (x ∷ y ∷ []) =
    letter (x / 4) ∷ letter (x % 4 * 16 + y / 16) ∷ letter (y % 16 * 4) ∷ []
encode_groups (x ∷ []) = letter (x / 4) ∷ letter (x % 4 * 16) ∷ []
encode_groups [] = []
