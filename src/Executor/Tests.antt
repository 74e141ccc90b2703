-- ===== src/Executor/Tests.antt =====
-- Runs of the executor: a block with a payment, its rollback, a transaction outside a block.
use pandanite_node.Common.{◌+◌, ◌-◌, ◌<◌, ◌≡◌, refl, sym, subst, arith, List, [], ◌∷◌, u64, ℕ, All}
use pandanite_node.Common.Bytes.{bytes_be, bytes_le, from_be}
use pandanite_node.Common.Dict.{lookup, insert, value_at, contains}
use pandanite_node.Common.State.{ok}
use pandanite_node.Crypto.{wallet_address_from_public_key, check_signature}
use pandanite_node.Transaction.{Transaction, copy, get_hash, hash_contents, signature_valid}
use pandanite_node.TxStore.{has_transaction}
use pandanite_node.Ledger.{Ledger}
use pandanite_node.Ledger
use pandanite_node.Ledger.Methods.{balance, IsBounded}
use pandanite_node.Ledger.Supply.{supply}
use pandanite_node.Executor.{
  Exec, rollback, rollback_block, success, execute_transaction, mismatched, update_ledger, transfer,
  transfer_known, check_amount, check_fees, move_funds, pay_fees, credit, deposit, withdraw,
  withdraw_known, create_if_missing, too_low, refuse, add_delta, sub_delta,
}
use pandanite_node.Executor.Block.{
  execute_block, execute_checked, execute_found, execute_transactions, execute_one,
  check_transactions, check_transaction, check_fee, is_member,
}
use pandanite_node.Executor.Deltas.{Tracks, start, execute_block-Tracks}
use pandanite_node.Executor.Rollback.{Throws, ran, rollback-execute_block-Throws}
use pandanite_node.Executor.Supply.Blocks.{execute_block-supply}
use pandanite_node.Executor.Supply.{InRange}
use pandanite_node.Executor.Undoing.Restored.{rollback_block-execute_block}
use pandanite_node.Samples.{checksum, prims, stale, alice, bob, payment, mining_fee}

-- Alice, who has 100 coins, pays 30 to Bob, who mines the block.
abbrev pub before : Ledger
before = record { db = (alice, 100) ∷ []; nonces = [] }

abbrev pub transactions : List Transaction
transactions = mining_fee 50 ∷ payment 30 2 0 ∷ []

pub before-IsBounded : IsBounded before
unfolding value_at lookup wallet_address_from_public_key
before-IsBounded w = ground arith

abbrev pub after : Exec
after = record {
  ledger = record { db = (alice, 68) ∷ (bob, 82) ∷ []; nonces = [] };
  deltas = (alice, u64 - 32) ∷ (bob, 82) ∷ [];
  invalid_transactions = [];
}

pub execute_block_run :
    execute_block prims stale 2 transactions [] 50 (start before []) ≡ (ok success, after)
unfolding execute_block execute_checked execute_found execute_transactions execute_one
    check_transactions check_transaction check_fee is_member copy get_hash hash_contents
    signature_valid check_signature has_transaction contains mismatched update_ledger transfer
    transfer_known check_amount check_fees move_funds pay_fees credit deposit withdraw
    withdraw_known create_if_missing too_low refuse add_delta sub_delta lookup insert
    wallet_address_from_public_key checksum Ledger.has_wallet Ledger.create_wallet
    Ledger.set_wallet_value Ledger.get_wallet_value Ledger.withdraw Ledger.deposit bytes_le bytes_be
    from_be
execute_block_run = refl

-- As the third block, from the state that addBlock begins with.
pub execute_third_block_run :
    execute_block prims stale 3 transactions [] 50 (start before []) ≡ (ok success, after)
unfolding execute_block execute_checked execute_found execute_transactions execute_one
    check_transactions check_transaction check_fee is_member copy get_hash hash_contents
    signature_valid check_signature has_transaction contains mismatched update_ledger transfer
    transfer_known check_amount check_fees move_funds pay_fees credit deposit withdraw
    withdraw_known create_if_missing too_low refuse add_delta sub_delta lookup insert
    wallet_address_from_public_key checksum Ledger.has_wallet Ledger.create_wallet
    Ledger.set_wallet_value Ledger.get_wallet_value Ledger.withdraw Ledger.deposit bytes_le bytes_be
    from_be
execute_third_block_run = refl

pub transactions-InRange : All InRange transactions
transactions-InRange = (
  record { amount_bound = ground arith; fee_bound = ground arith },
  (record { amount_bound = ground arith; fee_bound = ground arith }, tt),
)

rollback_block-execute_block_example :
    ((rollback_block prims stale 9 transactions (after.ledger, [])).0 ≡ ok tt)
    × ((w : ℕ)
        → balance w (rollback_block prims stale 9 transactions (after.ledger, [])).1.0
          ≡ balance w before)
rollback_block-execute_block_example =
    rollback_block-execute_block prims stale 2 9 (λ e. ground (arith, e)) transactions
      transactions-InRange [] 50 stale [] (start before []) after before-IsBounded execute_block_run

execute_block-supply_example : supply after.ledger ≡ supply before + 50
execute_block-supply_example =
    execute_block-supply prims stale 2 transactions [] 50 (start before []) after (ground arith)
      transactions-InRange (tt, tt) before-IsBounded execute_block_run

execute_block-Tracks_example : Tracks before after
execute_block-Tracks_example =
    subst (λ r. Tracks before r.1) execute_block_run
      (execute_block-Tracks prims before stale 2 transactions [] 50 [] before-IsBounded)

after_less : balance alice after.ledger < balance alice before
unfolding value_at lookup wallet_address_from_public_key checksum
after_less = ground arith

rollback-execute_block-Throws_example :
    Throws
      (rollback
        (ran prims stale 2 transactions [] 50 before []).deltas
        (ran prims stale 2 transactions [] 50 before []).ledger).0
rollback-execute_block-Throws_example =
    rollback-execute_block-Throws prims stale 2 transactions [] 50 before [] alice before-IsBounded
      (subst (λ r. balance alice r.1.ledger < balance alice before) (sym execute_block_run)
        after_less)

pub execute_transaction_run : execute_transaction prims (payment 30 2 0) (start before []) ≡ (
  ok success,
  record {
    ledger = record { db = (0, 2) ∷ (alice, 68) ∷ (bob, 30) ∷ []; nonces = [] };
    deltas = (0, 2) ∷ (alice, u64 - 32) ∷ (bob, 30) ∷ [];
    invalid_transactions = [];
  },
)
unfolding execute_transaction hash_contents signature_valid check_signature mismatched update_ledger
    transfer transfer_known check_amount check_fees move_funds pay_fees credit deposit withdraw
    withdraw_known create_if_missing too_low refuse add_delta sub_delta lookup insert contains
    wallet_address_from_public_key checksum Ledger.has_wallet Ledger.create_wallet
    Ledger.set_wallet_value Ledger.get_wallet_value Ledger.withdraw Ledger.deposit bytes_le bytes_be
    from_be
execute_transaction_run = refl
