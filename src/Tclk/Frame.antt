-- ===== src/Tclk/Frame.antt =====
-- The frames of tclk/1 after validation: the dict itself, and the members that the rest of the
-- validator reads from it, each under the name of its key. `FRAME_KEYS` gives the keys of a kind.
use flop_contributions.Prelude.{ℕ, String, Option, none, some, List, [], ◌∷◌, if◌then◌else◌}
use flop_contributions.Text.{Str, codes, eq_str}
use flop_contributions.Json.{Fields}

pub data Role : Type 0 where
  payer payee : Role

-- The states of a contract; the last three are also the outcomes of a receipt.
pub data Status : Type 0 where
  proposed accepted locked claimed refunded cancelled : Status

pub data Kind : Type 0 where
  offer accept lock reveal refund cancel receipt heartbeat : Kind

pub record Offer : Type 0 where
  pub sender : Str
  pub role : Role
  pub rails : List Str
  pub claim_by_ms : ℕ
  pub refund_after_ms : ℕ
  pub expires_ms : ℕ
  pub id : Str
  -- the whole dict, which the contract id is a digest of
  pub fields : Fields

pub data Body : Type 0 where
  offer : Offer → Body
  -- ref, statement, contract, nonce
  accept : Str → Str → Str → Str → Body
  -- contract, rail, ref
  lock : Str → Str → Str → Body
  -- contract, secret, ref
  reveal : Str → Str → Option Str → Body
  -- contract, ref
  refund : Str → Option Str → Body
  cancel : Str → Body
  -- contract, outcome, rail, ref
  receipt : Str → Status → Option Str → Option Str → Body
  heartbeat : Str → Body

pub record Frame : Type 0 where
  pub sender : Str
  pub body : Body
  pub fields : Fields

unfoldable pub parse_kind : Str → Option Kind
unfolding eq_str
parse_kind s =
    if eq_str s (codes "offer")
    then some Kind.offer
    else if eq_str s (codes "accept")
    then some Kind.accept
    else if eq_str s (codes "lock")
    then some Kind.lock
    else if eq_str s (codes "reveal")
    then some Kind.reveal
    else if eq_str s (codes "refund")
    then some Kind.refund
    else if eq_str s (codes "cancel")
    then some Kind.cancel
    else if eq_str s (codes "receipt")
    then some Kind.receipt
    else if eq_str s (codes "heartbeat")
    then some Kind.heartbeat
    else none

-- The required keys of FRAME_KEYS.
abbrev pub required : Kind → List String
required Kind.offer =
    "type" ∷ "from" ∷ "role" ∷ "amount" ∷ "asset" ∷ "lock" ∷ "rails" ∷ "claimByMs" ∷ "refundAfterMs"
    ∷ "expiresMs" ∷ "nonce" ∷ "id" ∷ []
required Kind.accept = "type" ∷ "from" ∷ "ref" ∷ "statement" ∷ "contract" ∷ "nonce" ∷ []
required Kind.lock = "type" ∷ "from" ∷ "contract" ∷ "rail" ∷ "ref" ∷ []
required Kind.reveal = "type" ∷ "from" ∷ "contract" ∷ "secret" ∷ []
required Kind.refund = "type" ∷ "from" ∷ "contract" ∷ []
required Kind.cancel = "type" ∷ "from" ∷ "contract" ∷ []
required Kind.receipt = "type" ∷ "from" ∷ "contract" ∷ "outcome" ∷ []
required Kind.heartbeat = "type" ∷ "from" ∷ "contract" ∷ "nonce" ∷ []

-- The allowed keys that are not required.
abbrev pub optional : Kind → List String
optional Kind.offer = "paymentKey" ∷ "job" ∷ []
optional Kind.accept = "paymentKey" ∷ []
optional Kind.lock = "presig" ∷ []
optional Kind.reveal = "ref" ∷ []
optional Kind.refund = "reason" ∷ "ref" ∷ []
optional Kind.cancel = "reason" ∷ []
optional Kind.receipt = "rail" ∷ "ref" ∷ []
optional Kind.heartbeat = "note" ∷ []
