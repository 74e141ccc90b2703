-- ===== src/Transaction/Json.antt =====
-- core/transaction.cpp: Transaction::toJson and the constructor from JSON. The text of a number is that of
-- uint64ToString, that of an array hexadecimal. The members that the constructor leaves are those of
-- `old`, the memory that it builds in.
pub mod RoundTrip
pub mod Tests
use Prim.Native.String.{String}
use pandanite_node.Common.{ℕ, List, [], true, false, if◌then◌else◌}
use pandanite_node.Common.State.{Result, ok, throws}
use pandanite_node.Common.Results.{◌>>=◌}
use pandanite_node.Helpers.{uint64_to_string, string_to_uint64}
use pandanite_node.Crypto.{
  Primitives, sha256_to_string, wallet_address_to_string, public_key_to_string, signature_to_string,
  string_to_wallet_address, string_to_public_key, string_to_signature,
}
use pandanite_node.Transaction.Defs.{Transaction, hash_contents}
use pandanite_node.Json.{Json}

module _ (json : Json) where
  open json use {Value, null, number, text, array, set, at, to_number, to_text, equals_text}

  -- What toJson writes for a payment, behind what it writes for every transaction.
  abbrev set_sender : Transaction → Value → Value
  set_sender t result =
      set
        (set (set result "from" (text (wallet_address_to_string t.from))) "signingKey"
          (text (public_key_to_string t.signing_key)))
        "signature" (text (signature_to_string t.signature))

  unfoldable pub to_json : Primitives → Transaction → Value
  to_json prims t =
      let result =
        set
          (set
            (set (set null "to" (text (wallet_address_to_string t.to))) "amount" (number t.amount))
            "timestamp" (text (uint64_to_string t.timestamp)))
          "fee" (number t.fee) in
      let hashed = set result "txid" (text (sha256_to_string (hash_contents prims t))) in
      if t.is_transaction_fee then set hashed "from" (text []) else set_sender t hashed

  -- The two branches of the constructor.
  abbrev fee_from_json : Value → Transaction → Result Transaction
  fee_from_json value t = do
    amount ← to_number (at value "amount")
    ok (record t { amount = amount; is_transaction_fee = true })

  abbrev payment_from_json : Value → Transaction → Result Transaction
  payment_from_json value t = do
    from_text ← to_text (at value "from")
    from ← string_to_wallet_address from_text
    signature_text ← to_text (at value "signature")
    signature ← string_to_signature signature_text
    amount ← to_number (at value "amount")
    key_text ← to_text (at value "signingKey")
    signing_key ← string_to_public_key key_text
    ok (record t {
      from = from;
      signature = signature;
      amount = amount;
      is_transaction_fee = false;
      signing_key = signing_key;
    })

  -- Transaction::Transaction(json)
  unfoldable pub transaction_from_json : Transaction → Value → Result Transaction
  transaction_from_json old value = do
    timestamp ← to_text (at value "timestamp")
    to_address ← to_text (at value "to")
    to ← string_to_wallet_address to_address
    fee ← to_number (at value "fee")
    let t = record old { timestamp = string_to_uint64 timestamp; to = to; fee = fee }
    if equals_text (at value "from") [] then fee_from_json value t else payment_from_json value t
