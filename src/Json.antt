-- ===== src/Json.antt =====
-- The values that `json.loads` returns, Python's `dict` operations on JSON objects, and
-- `reject_duplicates` (scripts/validate-tclk-transcript.py; scripts/verify-close-call.py and
-- `pairs` of scripts/verify-technocore-export.py are the same function).
pub mod Laws
pub mod Plain
use flop_contributions.Prelude.{
  ℕ, ℤ, pos, negsuc, String, Bool, true, false, not, ◌&&◌, ◌||◌, Option, none, some, List, [], ◌∷◌,
  all, length, str_eq, eq_ℤ, if◌then◌else◌,
}
use flop_contributions.Outcome.{Outcome, ok, err, value_error, ◌>>=◌}
use flop_contributions.Text.{Str, eq_str}

mutual
  -- A float is kept by the integer that it equals, if any: the scripts see no more of it.
  pub data Value : Type 0 where
    obj : Fields → Value
    arr : Items → Value
    str : Str → Value
    int : ℤ → Value
    real : Option ℤ → Value
    bool : Bool → Value
    null : Value

  -- An object's pairs, in their order. Names of fields are only compared.
  pub data Fields : Type 0 where
    field : String → Value → Fields → Fields
    end : Fields

  pub data Items : Type 0 where
    cons : Value → Items → Items
    nil : Items

unfoldable pub elements : Items → List Value
elements nil = []
elements (cons v xs) = v ∷ elements xs

-- `d.get(key)`
unfoldable pub get : String → Fields → Option Value
get k end = none
get k (field j v fs) = if str_eq j k then some v else get k fs

unfoldable pub keys : Fields → List String
keys end = []
keys (field j v fs) = j ∷ keys fs

unfoldable pub mem_key : String → List String → Bool
mem_key k [] = false
mem_key k (j ∷ js) = str_eq j k || mem_key k js

-- `key in d`
unfoldable pub has_key : String → Fields → Bool
unfolding mem_key keys
has_key k fs = mem_key k (keys fs)

-- `a <= b` on sets
unfoldable pub subset : List String → List String → Bool
unfolding mem_key
subset a b = all (λ k. mem_key k b) a

-- `set(d) == names`
unfoldable pub has_exactly : Fields → List String → Bool
unfolding subset keys
has_exactly fs names = subset (keys fs) names && subset names (keys fs)

-- `{key: value for key, value in d.items() if key != k}`
unfoldable pub without : String → Fields → Fields
without k end = end
without k (field j v fs) = let rest = without k fs in if str_eq j k then rest else field j v rest

-- `result[key] = value` for a key that `result` does not have
unfoldable pub append_field : Fields → String → Value → Fields
append_field end k v = field k v end
append_field (field j w fs) k v = field j w (append_field fs k v)

-- The loop of `reject_duplicates`, on its `result`.
unfoldable pub reject_from : Fields → Fields → Outcome Fields
unfolding has_key append_field
reject_from result end = ok result
reject_from result (field k v pairs) =
    let rest = reject_from (append_field result k v) pairs in
    if has_key k result then err (value_error "duplicate JSON key") else rest

unfoldable pub reject_duplicates : Fields → Outcome Fields
unfolding reject_from
reject_duplicates pairs = reject_from end pairs

-- `json.loads(text, object_pairs_hook=reject_duplicates)` on the parsed text: the hook is called
-- for each object, the inner ones first.
unfoldable mutual
  unfolding reject_duplicates

  pub hook : Value → Outcome Value
  hook null = ok null
  hook (bool b) = ok (bool b)
  hook (int n) = ok (int n)
  hook (real r) = ok (real r)
  hook (str s) = ok (str s)
  hook (arr xs) = do ys ← hook_items xs; ok (arr ys)
  hook (obj fs) = do gs ← hook_fields fs; hs ← reject_duplicates gs; ok (obj hs)

  pub hook_items : Items → Outcome Items
  hook_items nil = ok nil
  hook_items (cons v xs) = do w ← hook v; ys ← hook_items xs; ok (cons w ys)

  pub hook_fields : Fields → Outcome Fields
  hook_fields end = ok end
  hook_fields (field k v fs) = do w ← hook v; gs ← hook_fields fs; ok (field k w gs)

-- A list or a dict raises TypeError where it is looked up in a set or a dict.
abbrev pub hashable : Value → Bool
hashable (arr xs) = false
hashable (obj fs) = false
hashable _ = true

-- `value == s` for a text `s`
unfoldable pub is_str : Value → Str → Bool
unfolding eq_str
is_str (str t) s = eq_str t s
is_str _ s = false

-- `value == n` for an integer `n`: True and 1.0 equal 1.
unfoldable pub is_int : Value → ℤ → Bool
is_int (int m) n = eq_ℤ m n
is_int (bool true) n = eq_ℤ (pos 1) n
is_int (bool false) n = eq_ℤ (pos 0) n
is_int (real (some m)) n = eq_ℤ m n
is_int _ n = false
