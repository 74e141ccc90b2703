-- ===== src/Server/Bodies/Tests.antt =====
-- Requests in JSON, with concrete values.
use pandanite_node.Common.{ℕ, ◌+◌, ◌^◌, ◌<◌, ◌≡◌, List, [], ◌∷◌, map, arith, refl}
use pandanite_node.Common.Bytes.{bytes_be, bytes_le, from_be, from_le}
use pandanite_node.Common.State.{Result, ok, Action}
use pandanite_node.Crypto.{wallet_address_from_public_key}
use pandanite_node.Transaction.{Transaction}
use pandanite_node.Transaction.Json.{to_json}
use pandanite_node.Transaction.Json.RoundTrip.{IsSized}
use pandanite_node.Transaction.Json.Tests.{payment-IsSized, mining_fee-IsSized}
use pandanite_node.Executor.{ExecutionStatus, success}
use pandanite_node.User.{User, new_transaction, sign}
use pandanite_node.Json.Values
use pandanite_node.Json.Values.{values, values-IsLawful}
use pandanite_node.Server.Queries.{sent}
use pandanite_node.Server.Bodies.{add_transaction_json_handler, create_transaction_handler}
use pandanite_node.Server.Bodies.Loops.{answers, added, add_transaction_json_handler_lem}
use pandanite_node.Server.Bodies.Created.{
  request, created, HoldsSigned, create_transaction_handler-HoldsSigned,
}
use pandanite_node.Samples.{prims, bob, payment, mining_fee, checksum}

abbrev sent_on : List Transaction
sent_on = payment 30 2 0 ∷ mining_fee 50 ∷ []

-- A pool that accepts every transaction, and counts.
abbrev accepting : Transaction → Action ℕ ExecutionStatus
accepting t n = (ok success, n + 1)

-- A parser that finds the same value in every body.
abbrev parse_added : List ℕ → Result Values.Value
parse_added body = ok (values.array (map (to_json values prims) sent_on))

add_transaction_json_handler_lem_example :
    add_transaction_json_handler values parse_added prims (λ _. mining_fee 0) accepting [] 7 ≡ (
      sent (
          values.array (
            answers values values-IsLawful parse_added prims
              (λ _. mining_fee 0)
              accepting
              (λ t n. success)
              (λ t n. n + 1)
              (λ t n. refl)
              sent_on
              7)),
      9,
    )
unfolding added
add_transaction_json_handler_lem_example =
    add_transaction_json_handler_lem values values-IsLawful parse_added prims (λ _. mining_fee 0)
      accepting (λ t n. success) (λ t n. n + 1) (λ t n. refl) [] sent_on 7 refl
      (payment-IsSized, (mining_fee-IsSized, tt))

abbrev alice_keys : User
alice_keys = record { public_key = 3; private_key = 5 }

abbrev signature : List ℕ → ℕ → ℕ → ℕ
signature bytes public_key private_key = 1

abbrev parse_request : List ℕ → Result Values.Value
parse_request body = ok (
    request values values-IsLawful (λ _. ok Values.null) prims signature (mining_fee 0) alice_keys
      bob 30 2 1000)

created-IsSized : IsSized (
    created values values-IsLawful parse_request prims signature
      (mining_fee 0)
      alice_keys
      bob
      30
      2
      1000)
unfolding wallet_address_from_public_key checksum from_be from_le bytes_be bytes_le sign
    new_transaction
created-IsSized = record {
  to_size = omega arith;
  from_size = omega arith;
  key_size = omega arith;
  signature_size = omega arith;
  time_size = omega arith;
}

bob_size : bob < 256 ^ 25
unfolding wallet_address_from_public_key checksum from_be from_le bytes_be bytes_le
bob_size = omega arith

create_transaction_handler-HoldsSigned_example :
    HoldsSigned values values-IsLawful parse_request prims signature
      (mining_fee 0)
      alice_keys
      bob
      30
      2
      1000
      (mining_fee 0)
      (create_transaction_handler values parse_request prims signature (mining_fee 0) [])
create_transaction_handler-HoldsSigned_example =
    create_transaction_handler-HoldsSigned values values-IsLawful parse_request prims signature
      (mining_fee 0) alice_keys bob 30 2 1000 (mining_fee 0) [] refl (omega arith) (omega arith)
      bob_size created-IsSized (λ bytes. refl) refl
