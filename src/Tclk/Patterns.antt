-- ===== src/Tclk/Patterns.antt =====
-- The compiled patterns and the limits at the top of scripts/validate-tclk-transcript.py.
use flop_contributions.Prelude.{ℕ, Bool, false, ◌&&◌, ◌||◌, [], ◌∷◌, all, leb, ◌==◌}
use flop_contributions.Text.{
  Str, codes, is_digit, is_hex, is_lower_alnum, is_base64url, run_of, head_then, after,
}

abbrev pub max_safe_integer : ℕ
max_safe_integer = 9_007_199_254_740_991

abbrev pub max_chars : ℕ
max_chars = 4096

-- "tclk1 "
abbrev pub prefix : Str
prefix = codes "tclk1 "

-- ^0x[0-9a-f]{64}$
unfoldable pub is_hex32 : Str → Bool
unfolding after run_of
is_hex32 = after (codes "0x") (run_of is_hex 64 64)

-- ^[1-9][0-9]*$
unfoldable pub is_amount : Str → Bool
is_amount [] = false
is_amount (c ∷ s) = leb b'1' c && leb c b'9' && all is_digit s

-- ^[A-Za-z0-9_-]{1,32}$
unfoldable pub is_asset : Str → Bool
unfolding run_of
is_asset = run_of is_base64url 1 32

abbrev is_dotted : ℕ → Bool
is_dotted c = is_lower_alnum c || c == b'.' || c == b'_' || c == b'-'

-- ^[a-z0-9][a-z0-9._-]{0,63}$
unfoldable pub is_rail : Str → Bool
unfolding head_then
is_rail = head_then is_lower_alnum is_dotted 63

-- [a-z0-9][a-z0-9._-]{0,31}
unfoldable pub is_proto : Str → Bool
unfolding head_then
is_proto = head_then is_lower_alnum is_dotted 31

-- ^[0-9a-f]{8,64}$
unfoldable pub is_nonce : Str → Bool
unfolding run_of
is_nonce = run_of is_hex 8 64

-- ^[0-9]{1,19}$
unfoldable pub is_transport_nonce : Str → Bool
unfolding run_of
is_transport_nonce = run_of is_digit 1 19

-- Printable ASCII, 0x20 to 0x7E.
abbrev pub is_printable : ℕ → Bool
is_printable c = leb 0x20 c && leb c 0x7e
