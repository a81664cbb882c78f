-- ===== src/Json/Plain.antt =====
-- `json.loads(text)` and `json.load(stream)` without a hook: a dict keeps the last value of a key, at
-- the place of the first.
use flop_contributions.Prelude.{String, str_eq, if◌then◌else◌}
use flop_contributions.Json.{
  Value, null, bool, int, real, str, arr, obj, Items, nil, cons, Fields, end, field,
}

-- `result[key] = value`
unfoldable pub set_field : Fields → String → Value → Fields
set_field end k v = field k v end
set_field (field j w fs) k v = if str_eq j k then field j v fs else field j w (set_field fs k v)

unfoldable mutual
  unfolding set_field

  pub plain : Value → Value
  plain null = null
  plain (bool b) = bool b
  plain (int n) = int n
  plain (real r) = real r
  plain (str s) = str s
  plain (arr xs) = arr (plain_items xs)
  plain (obj fs) = obj (plain_fields end fs)

  pub plain_items : Items → Items
  plain_items nil = nil
  plain_items (cons v xs) = cons (plain v) (plain_items xs)

  pub plain_fields : Fields → Fields → Fields
  plain_fields result end = result
  plain_fields result (field k v fs) = plain_fields (set_field result k (plain v)) fs
