-- ===== src/User/Tests.antt =====
-- A user pays another one.
use pandanite_node.Common.{ℕ, refl, arith, List}
use pandanite_node.Common.Bytes.{bytes_be, from_be}
use pandanite_node.Crypto.{wallet_address_from_public_key}
use pandanite_node.Transaction.{Transaction}
use pandanite_node.Transaction.Buffer.{TransactionInfo, serialize}
use pandanite_node.Api.{send_transaction, read_raw_transactions}
use pandanite_node.User.{User, send, sign_transaction, sign, new_transaction, get_address}
use pandanite_node.User.Signing.{IsOneValid, read_raw_transactions-send_transaction}
use pandanite_node.Samples.{prims, mining_fee, checksum}

abbrev alice : User
alice = record { public_key = 3; private_key = 13 }

abbrev bob : User
bob = record { public_key = 4; private_key = 14 }

abbrev ed25519_sign : List ℕ → ℕ → ℕ → ℕ
ed25519_sign bytes pub_key signing_key = 1

abbrev memory : TransactionInfo → Transaction
memory t = mining_fee 0

abbrev zeros : Transaction → ℕ
zeros t = 0

read_raw_transactions-send_transaction_example : IsOneValid prims (
    read_raw_transactions prims memory zeros
      (send_transaction (send prims ed25519_sign (mining_fee 0) 1000 alice bob 30)))
unfolding serialize send sign_transaction sign new_transaction get_address
    wallet_address_from_public_key checksum bytes_be from_be
read_raw_transactions-send_transaction_example =
    read_raw_transactions-send_transaction prims ed25519_sign memory zeros (mining_fee 0) 1000 alice
      bob 30 (λ bytes. refl) (λ t. refl)
      (record {
        signature_bound = ground arith;
        signing_key_bound = ground arith;
        timestamp_bound = ground arith;
        to_bound = ground arith;
        amount_bound = ground arith;
        fee_bound = ground arith;
      })
