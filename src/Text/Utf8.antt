-- ===== src/Text/Utf8.antt =====
-- `value.encode("utf-8")`: a lone surrogate raises UnicodeEncodeError, which is a ValueError.
use flop_contributions.Prelude.{
  ℕ, ◌+◌, ◌/◌, ◌%◌, Bool, ◌&&◌, [], ◌∷◌, ◌++◌, ltb, leb, if◌then◌else◌,
}
use flop_contributions.Outcome.{Outcome, ok, err, value_error, ◌>>=◌}
use flop_contributions.Text.{Str, Bytes}

abbrev tail_byte : ℕ → ℕ
tail_byte n = 0x80 + n % 64

unfoldable pub utf8_char : ℕ → Bytes
utf8_char c =
    if ltb c 0x80
    then c ∷ []
    else if ltb c 0x800
    then (0xc0 + c / 64) ∷ tail_byte c ∷ []
    else if ltb c 0x10000
    then (0xe0 + c / 4096) ∷ tail_byte (c / 64) ∷ tail_byte c ∷ []
    else (0xf0 + c / 262144) ∷ tail_byte (c / 4096) ∷ tail_byte (c / 64) ∷ tail_byte c ∷ []

abbrev is_surrogate : ℕ → Bool
is_surrogate c = leb 0xd800 c && leb c 0xdfff

unfoldable pub utf8 : Str → Outcome Bytes
unfolding utf8_char
utf8 [] = ok []
utf8 (c ∷ s) =
    if is_surrogate c
    then err (value_error "UnicodeEncodeError")
    else (do rest ← utf8 s; ok (utf8_char c ++ rest))
