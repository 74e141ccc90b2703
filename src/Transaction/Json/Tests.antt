-- ===== src/Transaction/Json/Tests.antt =====
-- A transaction written as JSON and read back.
use pandanite_node.Common.{◌≡◌, arith}
use pandanite_node.Common.Bytes.{bytes_be, bytes_le, from_be, from_le}
use pandanite_node.Common.State.{ok}
use pandanite_node.Crypto.{wallet_address_from_public_key}
use pandanite_node.Transaction.Json.{to_json, transaction_from_json}
use pandanite_node.Transaction.Json.RoundTrip.{IsSized, transaction_from_json-to_json}
use pandanite_node.Json.Values.{values, values-IsLawful}
use pandanite_node.Samples.{prims, payment, mining_fee, checksum}

pub payment-IsSized : IsSized (payment 30 2 0)
unfolding wallet_address_from_public_key checksum from_be from_le bytes_be bytes_le
payment-IsSized = record {
  to_size = omega arith;
  from_size = omega arith;
  key_size = omega arith;
  signature_size = omega arith;
  time_size = omega arith;
}

pub mining_fee-IsSized : IsSized (mining_fee 50)
unfolding wallet_address_from_public_key checksum from_be from_le bytes_be bytes_le
mining_fee-IsSized = record {
  to_size = omega arith;
  from_size = omega arith;
  key_size = omega arith;
  signature_size = omega arith;
  time_size = omega arith;
}

transaction_from_json-to_json_example :
    transaction_from_json values (mining_fee 50) (to_json values prims (payment 30 2 7))
    ≡ ok (payment 30 2 0)
transaction_from_json-to_json_example =
    transaction_from_json-to_json values values-IsLawful prims (payment 30 2 7) (mining_fee 50)
      (record {
        to_size = payment-IsSized.to_size;
        from_size = payment-IsSized.from_size;
        key_size = payment-IsSized.key_size;
        signature_size = payment-IsSized.signature_size;
        time_size = payment-IsSized.time_size;
      })
