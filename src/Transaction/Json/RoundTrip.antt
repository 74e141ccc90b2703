-- ===== src/Transaction/Json/RoundTrip.antt =====
-- Reading back a transaction that was written as JSON.
use pandanite_node.Common.{
  ◌^◌, ◌<◌, ◌≡◌, [], true, false, if◌then◌else◌, refl, ap, ◌∙◌, arith, u64, Bool-cases, inl, inr,
  length,
}
use pandanite_node.Common.State.{ok}
use pandanite_node.Helpers.{uint64_to_string}
use pandanite_node.Helpers.Decimal.{string_to_uint64-uint64_to_string}
use pandanite_node.Crypto.{Primitives, array_to_string}
use pandanite_node.Crypto.Hex.RoundTrip.{
  string_to_wallet_address-array, string_to_public_key-array, string_to_signature-array,
  length-array_to_string,
}
use pandanite_node.Transaction.Defs.{Transaction}
use pandanite_node.Json.{Json, IsLawful}
use pandanite_node.Transaction.Json.{to_json, transaction_from_json}

-- The members are arrays of their sizes, and the time a uint64_t.
pub record IsSized (t : Transaction) : Type 0 where
  pub to_size : t.to < 256 ^ 25
  pub from_size : t.from < 256 ^ 25
  pub key_size : t.signing_key < 256 ^ 32
  pub signature_size : t.signature < 256 ^ 64
  pub time_size : t.timestamp < u64

-- What the constructor builds of the text of `t`: a payment keeps all but its nonce, of a mining fee
-- the wallet, the amount, the fee and the time are there.
abbrev pub reread : Transaction → Transaction → Transaction
reread old t =
    if t.is_transaction_fee
    then record old {
      timestamp = t.timestamp;
      to = t.to;
      fee = t.fee;
      amount = t.amount;
      is_transaction_fee = true;
    }
    else record t { nonce = old.nonce }

module _ (json : Json) (laws : IsLawful json) (prims : Primitives) (t : Transaction) where
  open json use {at, number, text}

  abbrev written : json.Value
  written = to_json json prims t

  -- What toJson writes for every transaction.
  at_shared :
      (at written "timestamp" ≡ text (uint64_to_string t.timestamp))
      × (at written "to" ≡ text (array_to_string 25 t.to))
      × (at written "fee" ≡ number t.fee)
      × (at written "amount" ≡ number t.amount)
  unfolding to_json
  at_shared = elim (Bool-cases t.is_transaction_fee) [
    | inl e ↦ rw e (simp (laws.at-set), simp (laws.at-set), simp (laws.at-set), simp (laws.at-set))
    | inr e ↦ rw e (simp (laws.at-set), simp (laws.at-set), simp (laws.at-set), simp (laws.at-set))
  ]

  at_from_fee : t.is_transaction_fee ≡ true → at written "from" ≡ text []
  unfolding to_json
  at_from_fee e = rw e (simp (laws.at-set))

  module _ (e : t.is_transaction_fee ≡ false) where
    at_from : at written "from" ≡ text (array_to_string 25 t.from)
    unfolding to_json
    at_from = rw e (simp (laws.at-set))

    at_signature : at written "signature" ≡ text (array_to_string 64 t.signature)
    unfolding to_json
    at_signature = rw e (simp (laws.at-set))

    at_key : at written "signingKey" ≡ text (array_to_string 32 t.signing_key)
    unfolding to_json
    at_key = rw e (simp (laws.at-set))

  not_empty : json.equals_text (text (array_to_string 25 t.from)) [] ≡ false
  not_empty = elim (Bool-cases (json.equals_text (text (array_to_string 25 t.from)) [])) [
    | inl same ↦ absurd (
        omega (
          arith,
          ap length ((laws.equals_text-text (array_to_string 25 t.from) []).0 same),
          length-array_to_string 25 t.from,
        ))
    | inr other ↦ other
  ]

  module _ (old : Transaction) (s : IsSized t) where
    fee_read :
        t.is_transaction_fee ≡ true
        → transaction_from_json json old written
          ≡ ok (record old {
            timestamp = t.timestamp;
            to = t.to;
            fee = t.fee;
            amount = t.amount;
            is_transaction_fee = true;
          })
    unfolding transaction_from_json
    fee_read e = simp (
      at_shared.0,
      laws.to_text-text,
      at_shared.1,
      string_to_wallet_address-array t.to s.to_size,
      at_shared.2,
      laws.to_number-number,
      at_from_fee e,
      (laws.equals_text-text [] []).1 refl,
      at_shared.3,
      string_to_uint64-uint64_to_string t.timestamp s.time_size,
    )

    payment_read :
        t.is_transaction_fee ≡ false
        → transaction_from_json json old written
          ≡ ok (record t { is_transaction_fee = false; nonce = old.nonce })
    unfolding transaction_from_json
    payment_read e = simp (
      at_shared.0,
      laws.to_text-text,
      at_shared.1,
      string_to_wallet_address-array t.to s.to_size,
      at_shared.2,
      laws.to_number-number,
      at_from e,
      not_empty,
      at_shared.3,
      at_signature e,
      at_key e,
      string_to_wallet_address-array t.from s.from_size,
      string_to_public_key-array t.signing_key s.key_size,
      string_to_signature-array t.signature s.signature_size,
      string_to_uint64-uint64_to_string t.timestamp s.time_size,
    )

    reread-fee :
        t.is_transaction_fee ≡ true
        → record old {
          timestamp = t.timestamp;
          to = t.to;
          fee = t.fee;
          amount = t.amount;
          is_transaction_fee = true;
        }
          ≡ reread old t
    reread-fee e = rw e refl

    reread-payment :
        t.is_transaction_fee ≡ false
        → record t { is_transaction_fee = false; nonce = old.nonce } ≡ reread old t
    reread-payment e = rw e refl

    -- A transaction that is written as JSON is read back, but for the nonce, and but for the sender, the
    -- key and the signature of a mining fee, which are those of the memory that it is built in. The
    -- members have their sizes, and the values of the JSON library meet its documentation.
    pub transaction_from_json-to_json :
        transaction_from_json json old (to_json json prims t) ≡ ok (reread old t)
    transaction_from_json-to_json = elim (Bool-cases t.is_transaction_fee) [
      | inl e ↦ fee_read e ∙ ap ok (reread-fee e)
      | inr e ↦ payment_read e ∙ ap ok (reread-payment e)
    ]
