-- ===== src/Text.antt =====
-- Python's `str` as its list of code points, equality, prefixes, and the character classes and
-- patterns that the scripts give to `re.fullmatch`.
pub mod Laws
pub mod Membership
pub mod Decimal
pub mod Utf8
pub mod Lines
pub mod Pure
use Prim.Native.Char.{code}
use mathlib.Core.List.{reverse}
use flop_contributions.Prelude.{
  ℕ, zero, suc, ◌≤◌, String, if◌then◌else◌, Bool, true, false, ◌&&◌, ◌||◌, List, [], ◌∷◌, length,
  drop, all, leb, ◌==◌,
}

abbrev pub Str : Type 0
Str = List ℕ

abbrev pub Bytes : Type 0
Bytes = List ℕ

-- The code points of a literal.
abbrev pub codes : String → Str
codes String.[] = []
codes (String.◌∷◌ c s) = code c ∷ codes s

unfoldable pub eq_str : Str → Str → Bool
eq_str [] [] = true
eq_str (a ∷ s) (b ∷ t) = a == b && eq_str s t
eq_str _ _ = false

-- `s in {…}`
unfoldable pub mem_str : Str → List Str → Bool
unfolding eq_str
mem_str s [] = false
mem_str s (t ∷ ts) = eq_str s t || mem_str s ts

-- `text.startswith(prefix)`
unfoldable pub starts_with : Str → Str → Bool
starts_with [] text = true
starts_with (a ∷ p) [] = false
starts_with (a ∷ p) (b ∷ text) = a == b && starts_with p text

abbrev between : ℕ → ℕ → ℕ → Bool
between lo hi c = leb lo c && leb c hi

-- [0-9]
abbrev pub is_digit : ℕ → Bool
is_digit = between b'0' b'9'

-- [0-9a-f]
abbrev pub is_hex : ℕ → Bool
is_hex c = is_digit c || between b'a' b'f' c

-- [a-z0-9]
abbrev pub is_lower_alnum : ℕ → Bool
is_lower_alnum c = is_digit c || between b'a' b'z' c

-- [A-Za-z0-9_-]
abbrev pub is_base64url : ℕ → Bool
is_base64url c = is_lower_alnum c || between b'A' b'Z' c || c == b'_' || c == b'-'

-- [1-9A-HJ-NP-Za-km-z]
abbrev pub is_base58 : ℕ → Bool
is_base58 c =
    between b'1' b'9' c
    || between b'A' b'H' c
    || between b'J' b'N' c
    || between b'P' b'Z' c
    || between b'a' b'k' c
    || between b'm' b'z' c

-- `[…]{lo,hi}`
unfoldable pub run_of : (ℕ → Bool) → ℕ → ℕ → Str → Bool
run_of class lo hi s = leb lo (length s) && leb (length s) hi && all class s

-- `[first][rest]{0,hi}`
unfoldable pub head_then : (ℕ → Bool) → (ℕ → Bool) → ℕ → Str → Bool
unfolding run_of
head_then first rest hi [] = false
head_then first rest hi (c ∷ s) = first c && run_of rest 0 hi s

-- A literal and a pattern behind it.
unfoldable pub after : Str → (Str → Bool) → Str → Bool
unfolding starts_with
after p rest s = starts_with p s && rest (drop (length p) s)

abbrev pub did_prefix : Str
did_prefix = codes "did:key:z"

-- ^did:key:z6Mk[1-9A-HJ-NP-Za-km-z]{44}$
unfoldable pub is_did : Str → Bool
unfolding after run_of
is_did = after (codes "did:key:z6Mk") (run_of is_base58 44 44)

-- ^[a-z0-9][a-z0-9_-]{0,47}$
unfoldable pub is_room : Str → Bool
unfolding head_then
is_room = head_then is_lower_alnum (λ c. is_lower_alnum c || c == b'_' || c == b'-') 47

-- ^[A-Za-z0-9_-]{86}$
unfoldable pub is_signature : Str → Bool
unfolding run_of
is_signature = run_of is_base64url 86 86

-- `[…]{n}` and one character behind it
unfoldable pub run_then : (ℕ → Bool) → ℕ → (ℕ → Bool) → Str → Bool
run_then class n last [] = false
run_then class zero last (c ∷ []) = last c
run_then class zero last (c ∷ d ∷ s) = false
run_then class (suc n) last (c ∷ s) = class c && run_then class n last s

-- [AQgw]
abbrev pub is_closing : ℕ → Bool
is_closing c = c == b'A' || c == b'Q' || c == b'g' || c == b'w'

-- ^[A-Za-z0-9_-]{85}[AQgw]$
unfoldable pub is_closed_signature : Str → Bool
unfolding run_then
is_closed_signature = run_then is_base64url 85 is_closing

-- `text.strip()`, where `space` is the class of the characters that are taken away
unfoldable pub lstrip : (ℕ → Bool) → Str → Str
lstrip space [] = []
lstrip space (c ∷ s) = let rest = lstrip space s in if space c then rest else c ∷ s

unfoldable pub strip : (ℕ → Bool) → Str → Str
unfolding lstrip
strip space s = reverse (lstrip space (reverse (lstrip space s)))
