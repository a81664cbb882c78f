-- ===== src/Examples/Fixtures.antt =====
-- A platform whose primitives are small concrete functions, and a signed offer, acceptance, lock
-- and reveal in a batch.
use flop_contributions.Prelude.{
  ℕ, ◌+◌, ◌-◌, ◌*◌, ◌/◌, ◌%◌, pos, true, false, Option, none, some, List, [], ◌∷◌, ◌++◌, length,
  replicate, leb, ltb, ◌==◌, ◌||◌, ◌&&◌, if◌then◌else◌,
}
use flop_contributions.Text.{Str, Bytes, codes, eq_str, is_base64url}
use flop_contributions.Json.{
  Value, null, bool, int, real, str, arr, obj, Items, nil, cons, Fields, end, field,
}
use flop_contributions.Text.Decimal.{decimal_ℤ}
use flop_contributions.Platform.{Platform, digest}
use flop_contributions.Tclk.Contract.{Contract, opened, contract_id}
use flop_contributions.Tclk.Frame.{Offer, Body, Frame, payer, accepted, locked, claimed, refunded}

abbrev pub hex_letter : ℕ → ℕ
hex_letter n = if leb n 9 then b'0' + n else b'a' + n - 10

abbrev pub mix : ℕ → Bytes → ℕ
mix h [] = h
mix h (b ∷ bs) = mix ((h * 31 + b) % 65536) bs

-- 64 hex digits that depend on every byte
abbrev pub toy_hash : Bytes → Str
toy_hash raw =
    let h = mix 7 raw in
    replicate 60 b'0'
    ++ hex_letter (h / 4096)
      ∷ hex_letter (h / 256 % 16)
      ∷ hex_letter (h / 16 % 16)
      ∷ hex_letter (h % 16)
      ∷ []

-- A compact text for a value; the pairs of an object stay in their order.
unfoldable mutual
  pub toy_dumps : Value → Str
  toy_dumps null = codes "null"
  toy_dumps (bool true) = codes "true"
  toy_dumps (bool false) = codes "false"
  toy_dumps (int n) = decimal_ℤ n
  toy_dumps (real r) = codes "0.0"
  toy_dumps (str s) = b'"' ∷ s ++ b'"' ∷ []
  toy_dumps (arr xs) = b'[' ∷ toy_dumps_items xs
  toy_dumps (obj fs) = b'{' ∷ toy_dumps_fields fs

  pub toy_dumps_items : Items → Str
  toy_dumps_items nil = b']' ∷ []
  toy_dumps_items (cons v xs) = toy_dumps v ++ b',' ∷ toy_dumps_items xs

  pub toy_dumps_fields : Fields → Str
  toy_dumps_fields end = b'}' ∷ []
  toy_dumps_fields (field k v fs) = codes k ++ b':' ∷ toy_dumps v ++ b',' ∷ toy_dumps_fields fs

abbrev pub alice : Str
alice = codes "did:key:z6MkuTHLqk65Bs8eM7aWxaNFeiCKGXwvAUfpqsSnVxu6HFMb"

abbrev pub bob : Str
bob = codes "did:key:z6MkuTHLqk65Bs8eM7aWxaNFeiCKGXwvAUfpqsSnVxu6HFMc"

-- The digests of a platform that can parse nothing.
abbrev pub hashing : Platform
hashing = record {
  sha256 = toy_hash;
  ed25519 = λ key signature message. leb 1 (length message);
  dumps = toy_dumps;
  dumps_as = λ layout. toy_dumps;
  parse_json = λ text. none;
  parse_finite = λ text. none;
  decode_utf8 = some;
  parse_bytes = λ text. none;
  parse_finite_bytes = λ text. none;
  from_iso = λ text. some (pos (length text));
  is_invisible = λ c. ltb c 32;
  is_space = λ c. c == 32 || (leb 9 c && leb c 13);
  is_word = is_base64url;
}

abbrev pub offer_core : Fields → Fields
offer_core rest = field "type" (str (codes "offer")) (
    field "from" (str alice) (
      field "role" (str (codes "payer")) (
        field "amount" (str (codes "25")) (
          field "asset" (str (codes "USDC")) (
            field "lock" (str (codes "hash")) (
              field "rails" (arr (cons (str (codes "x402")) nil)) (
                field "claimByMs" (int (pos 100)) (
                  field "refundAfterMs" (int (pos 200)) (
                    field "expiresMs" (int (pos 50))
                      (field "nonce" (str (codes "0123456789abcdef")) rest))))))))))

abbrev pub offer_id : Str
unfolding digest toy_dumps decimal_ℤ
offer_id = digest hashing (codes "offer") (obj (offer_core end))

abbrev pub offer_fields : Fields
offer_fields = offer_core (field "id" (str offer_id) end)

abbrev pub offer : Offer
offer = record {
  sender = alice;
  role = payer;
  rails = codes "x402" ∷ [];
  claim_by_ms = 100;
  refund_after_ms = 200;
  expires_ms = 50;
  id = offer_id;
  fields = offer_fields;
}

abbrev pub secret : Str
secret = codes "0x" ++ replicate 64 b'1'

abbrev pub statement : Str
unfolding opened
statement = opened hashing secret

abbrev pub accept_nonce : Str
accept_nonce = codes "fedcba9876543210"

abbrev pub contract : Str
unfolding contract_id toy_dumps
contract = contract_id hashing offer bob offer_id statement accept_nonce

abbrev pub accept_fields : Fields
accept_fields = field "type" (str (codes "accept")) (
    field "from" (str bob) (
      field "ref" (str offer_id) (
        field "statement" (str statement)
          (field "contract" (str contract) (field "nonce" (str accept_nonce) end)))))

abbrev pub lock_fields : Fields
lock_fields = field "type" (str (codes "lock")) (
    field "from" (str alice) (
      field "contract" (str contract)
        (field "rail" (str (codes "x402")) (field "ref" (str (codes "escrow-1")) end))))

abbrev pub reveal_fields : Fields
reveal_fields =
    field "type" (str (codes "reveal"))
      (field "from" (str bob) (field "contract" (str contract) (field "secret" (str secret) end)))

-- The first of the objects that prints as the text.
abbrev pub pick : Str → List Fields → Option Value
pick text [] = none
pick text (fs ∷ rest) = if eq_str text (toy_dumps (obj fs)) then some (obj fs) else pick text rest

abbrev pub platform : Platform
unfolding toy_dumps eq_str
platform = record hashing {
  parse_json = λ text. pick text (offer_fields ∷ accept_fields ∷ lock_fields ∷ reveal_fields ∷ []);
}

abbrev pub signature : Str
signature = replicate 86 b'A'

-- `ticks` sets the timestamp: the toy clock reads the length of the text.
abbrev pub message : ℕ → Str → ℕ → Str → Fields
message seq sender ticks text = field "seq" (int (pos seq)) (
    field "from" (str sender) (
      field "ts" (str (replicate ticks b'0' ++ b'Z' ∷ [])) (
        field "nonce" (int (pos 1700000000000))
          (field "text" (str text) (field "sig" (str signature) end)))))

unfoldable pub line : Fields → Str
unfolding toy_dumps
line fs = codes "tclk1 " ++ toy_dumps (obj fs)

abbrev pub batch : Value
batch = obj (
    field "status" (str (codes "ok")) (
      field "generation" (int (pos 3)) (
        field "starting_cursor" (int (pos 6)) (
          field "proposed_cursor" (int (pos 11)) (
            field "count" (int (pos 5)) (
              field "first_seq" (int (pos 7)) (
                field "last_seq" (int (pos 11)) (
                  field "messages"
                    (arr (
                      cons (obj (message 7 alice 10 (line offer_fields))) (
                        cons (obj (message 8 alice 11 (codes "hello"))) (
                          cons (obj (message 9 bob 12 (line accept_fields))) (
                            cons (obj (message 10 alice 20 (line lock_fields)))
                              (cons (obj (message 11 bob 30 (line reveal_fields))) nil))))))
                    end))))))))

abbrev pub accept_frame : Frame
accept_frame = record {
  sender = bob;
  body = Body.accept offer_id statement contract accept_nonce;
  fields = accept_fields;
}

abbrev pub reveal_frame : Frame
reveal_frame = record {
  sender = bob;
  body = Body.reveal contract secret none;
  fields = reveal_fields;
}

abbrev pub refund_frame : Frame
refund_frame = record { sender = alice; body = Body.refund contract none; fields = end }

abbrev pub agreed_contract : Contract
agreed_contract = record {
  offer = offer;
  status = accepted;
  payer = some alice;
  payee = some bob;
  contract = some contract;
  statement = some statement;
  rail = none;
  rail_ref = none;
}

abbrev pub locked_contract : Contract
locked_contract = record agreed_contract {
  status = locked;
  rail = some (codes "x402");
  rail_ref = some (codes "escrow-1");
}

abbrev pub claimed_contract : Contract
claimed_contract = record locked_contract { status = claimed }

abbrev pub refunded_contract : Contract
refunded_contract = record locked_contract { status = refunded }

abbrev pub receipt_frame : Frame
receipt_frame = record {
  sender = alice;
  body = Body.receipt contract claimed (some (codes "x402")) none;
  fields = end;
}
