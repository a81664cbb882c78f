-- ===== src/Platform.antt =====
-- What the scripts take from outside the repository's code: the SHA-256 and Ed25519 primitives,
-- the JSON codec and the ISO-8601 reader. They are parameters of every definition that uses them.
use flop_contributions.Prelude.{ℕ, ℤ, Bool, Option, ◌++◌}
use flop_contributions.Outcome.{Outcome, ok, or_raise, ◌>>=◌}
use flop_contributions.Text.{Str, Bytes, codes}
use flop_contributions.Text.Utf8.{utf8}
use flop_contributions.Json.{Value, hook}

-- The layouts of `json.dumps` beside the canonical one: as given and not escaped, with an indent of
-- two, and with spaces between the members; the last two sort the keys and escape to ASCII.
pub data Layout : Type 0 where
  plain indented spaced : Layout

pub record Platform : Type 0 where
  -- `hashlib.sha256(b).hexdigest()`
  pub sha256 : Bytes → Str
  -- `Ed25519PublicKey.from_public_bytes(key).verify(signature, message)` does not raise
  pub ed25519 : Bytes → Bytes → Bytes → Bool
  -- `json.dumps(value, ensure_ascii=True, sort_keys=True, separators=(",", ":"))`
  pub dumps : Value → Str
  -- `json.dumps` in another layout
  pub dumps_as : Layout → Value → Str
  -- the JSON grammar, before any hook: `none` is JSONDecodeError
  pub parse_json : Str → Option Value
  -- the same where the constants NaN and Infinity are refused
  pub parse_finite : Str → Option Value
  -- `raw.decode("utf-8")`: `none` is UnicodeDecodeError
  pub decode_utf8 : Bytes → Option Str
  -- the same as `parse_json` for `json.loads` of bytes, which finds their encoding
  pub parse_bytes : Bytes → Option Value
  -- the same where the constants NaN and Infinity are refused
  pub parse_finite_bytes : Bytes → Option Value
  -- `datetime.fromisoformat(s).timestamp() * 1000`, rounded towards zero
  pub from_iso : Str → Option ℤ
  -- `unicodedata.category(c)` is one of Cc, Cf, Cs, Co, Zl and Zp
  pub is_invisible : ℕ → Bool
  -- `c.isspace()`, the characters that `strip` takes away
  pub is_space : ℕ → Bool
  -- the characters of the class `\w` of `re`
  pub is_word : ℕ → Bool

-- `json.loads(text, object_pairs_hook=reject_duplicates)`
unfoldable pub loads : Platform → Str → Outcome Value
loads p text = do raw ← or_raise (p.parse_json text) "JSONDecodeError"; hook raw

-- A file as the scripts see it: whether it is a regular file and no symlink, and its bytes.
pub record File : Type 0 where
  pub regular : Bool
  pub content : Bytes

-- `redacted_hash`: the SHA-256 of the UTF-8 encoding
unfoldable pub redacted_hash : Platform → Str → Outcome Str
redacted_hash p text = do raw ← utf8 text; ok (p.sha256 raw)

-- `digest(tag, payload)`: the material is ASCII, so its code points are its bytes.
unfoldable pub digest : Platform → Str → Value → Str
digest p tag payload =
    codes "0x" ++ p.sha256 (codes "FLOP::tclk::v1|" ++ tag ++ codes "|" ++ p.dumps payload)

-- `json.loads(line, object_pairs_hook=reject_duplicates)` of bytes
unfoldable pub loads_bytes : Platform → Bytes → Outcome Value
loads_bytes p line = do raw ← or_raise (p.parse_bytes line) "JSONDecodeError"; hook raw
