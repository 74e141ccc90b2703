-- ===== src/Executor.antt =====
-- server/executor.cpp: executing and rolling back the transactions of a block on the ledger.
-- `Exec` is what a run changes: the ledger, the deltas (what it has added to each wallet, modulo
-- 2 ^ 64), and the global list of invalid transactions, of which the copies on disk are left out.
-- A transaction that a loop copies has the nonce that `stale` gives it; updateLedger reads none.
mod Status
pub mod Names
pub mod Block
pub mod Invariants
pub mod Deltas
pub mod Rollback
pub mod Undoing
pub mod Supply
pub mod Tests
pub use Status.*
use mathlib.Core.List.{reverse}
use pandanite_node.Common.{
  ℕ, ◌+◌, ◌-◌, ◌%◌, Bool, true, false, not, ◌&&◌, ◌||◌, Option, none, some, List, [], ◌∷◌, ◌++◌,
  ltb, ◌==◌, u64, if◌then◌else◌, ◌⊎◌, inl, inr,
}
use pandanite_node.Common.Dict.{Dict, lookup, insert}
use pandanite_node.Common.State.{
  Action, Result, pure, throw, gets, modify, missing_account, ◌>>=◌, ◌>>◌,
}
use pandanite_node.Crypto.{Primitives, wallet_address_from_public_key}
use pandanite_node.Transaction.{Transaction, copy, get_hash, signature_valid, null_address}
use pandanite_node.Ledger
use pandanite_node.Ledger.{Ledger}
use pandanite_node.TxStore.{has_transaction, remove_transaction}

pub record Exec : Type 0 where
  pub ledger : Ledger
  pub deltas : Dict ℕ
  pub invalid_transactions : List (ℕ × ℕ)

-- A method of the ledger, called on the ledger of the run.
abbrev pub on_ledger : {A : Type 0} → Action Ledger A → Action Exec A
on_ledger m s = let (r, l) = m s.ledger in (r, record s { ledger = l })

-- isInvalidTransaction
pub is_invalid_transaction : ℕ → ℕ → List (ℕ × ℕ) → Bool
is_invalid_transaction block_id wallet [] = false
is_invalid_transaction block_id wallet ((block, w) ∷ items) =
    (w == wallet && block == block_id) || is_invalid_transaction block_id wallet items

-- addInvalidTransaction: an entry that is there is not added again.
pub add_invalid_transaction : ℕ → ℕ → List (ℕ × ℕ) → List (ℕ × ℕ)
unfolding is_invalid_transaction
add_invalid_transaction block_id wallet items =
    if is_invalid_transaction block_id wallet items then items else items ++ (block_id, wallet) ∷ []

add_delta : ℕ → ℕ → Exec → Exec
add_delta to amt s = elim (lookup to s.deltas) [
  | none ↦ record s { deltas = insert to amt s.deltas }
  | some d ↦ record s { deltas = insert to ((d + amt) % u64) s.deltas }
]

-- `-amt` and `senderDelta->second -= amt` on uint64_t
sub_delta : ℕ → ℕ → Exec → Exec
sub_delta from amt s = elim (lookup from s.deltas) [
  | none ↦ record s { deltas = insert from ((u64 - amt) % u64) s.deltas }
  | some d ↦ record s { deltas = insert from ((d + u64 - amt) % u64) s.deltas }
]

pub create_if_missing : ℕ → Bool → Action Exec (Unit {0})
create_if_missing to true = pure tt
create_if_missing to false = on_ledger (Ledger.create_wallet to)

pub deposit : ℕ → ℕ → Action Exec (Unit {0})
unfolding add_delta create_if_missing
deposit to amt = do
  create_if_missing to (← gets (λ s. Ledger.has_wallet to s.ledger))
  on_ledger (Ledger.deposit to amt)
  modify (add_delta to amt)

pub withdraw_known : ℕ → ℕ → Bool → Action Exec (Unit {0})
withdraw_known from amt true = on_ledger (Ledger.withdraw from amt)
withdraw_known from amt false = throw missing_account

pub withdraw : ℕ → ℕ → Action Exec (Unit {0})
unfolding withdraw_known sub_delta
withdraw from amt = do
  withdraw_known from amt (← gets (λ s. Ledger.has_wallet from s.ledger))
  modify (sub_delta from amt)

-- `lacking && !isInvalidTransaction(blockId, from) && blockId != 0`
pub too_low : ℕ → ℕ → Bool → Exec → Bool
too_low block_id from lacking s =
    lacking
    && (not (is_invalid_transaction block_id from s.invalid_transactions) && not (block_id == 0))

-- addInvalidTransaction, and `return BALANCE_TOO_LOW`
pub refuse : ℕ → ℕ → Action Exec ExecutionStatus
refuse block_id from =
    modify (λ s. record s {
      invalid_transactions = add_invalid_transaction block_id from s.invalid_transactions;
    })
    >> pure balance_too_low

-- The calls that move the money.
pub pay_fees : ℕ → ℕ → ℕ → Action Exec (Unit {0})
pay_fees from miner fees =
    if ltb 0 fees then (withdraw from fees >> deposit miner fees) else pure tt

pub move_funds : Transaction → ℕ → Action Exec ExecutionStatus
unfolding pay_fees
move_funds t miner = do
  withdraw t.from t.amount
  deposit t.to t.amount
  pay_fees t.from miner t.fee
  pure success

-- The two tests of the sender's total, each of which may refuse.
pub check_fees : Transaction → ℕ → ℕ → Bool → Action Exec ExecutionStatus
unfolding refuse too_low
check_fees t miner block_id true = refuse block_id t.from
check_fees t miner block_id false = move_funds t miner

pub check_amount : Transaction → ℕ → ℕ → ℕ → Bool → Action Exec ExecutionStatus
unfolding refuse too_low check_fees
check_amount t miner block_id total true = refuse block_id t.from
check_amount t miner block_id total false = do
  short ← gets (too_low block_id t.from (ltb ((total + u64 - t.amount) % u64) t.fee))
  check_fees t miner block_id short

pub transfer_known : Transaction → ℕ → ℕ → Bool → Action Exec ExecutionStatus
unfolding check_amount too_low
transfer_known t miner block_id false = pure sender_does_not_exist
transfer_known t miner block_id true = do
  total ← on_ledger (Ledger.get_wallet_value t.from)
  short ← gets (too_low block_id t.from (ltb total t.amount))
  check_amount t miner block_id total short

-- The branch of updateLedger behind the genesis block.
pub transfer : Transaction → ℕ → ℕ → Action Exec ExecutionStatus
unfolding transfer_known
transfer t miner block_id = do
  known ← gets (λ s. Ledger.has_wallet t.from s.ledger)
  transfer_known t miner block_id known

pub credit : Transaction → Action Exec ExecutionStatus
credit t = do deposit t.to t.amount; pure success

module _ (prims : Primitives) where
  -- The key that signed does not belong to the sender.
  pub mismatched : Transaction → Bool
  mismatched t = not (wallet_address_from_public_key prims t.signing_key == t.from)

  pub update_ledger : Transaction → ℕ → ℕ → ℕ → Action Exec ExecutionStatus
  update_ledger t miner block_mining_fee block_id =
      if not t.is_transaction_fee && (ltb 1 block_id && mismatched t)
      then pure wallet_signature_mismatch
      else if t.is_transaction_fee
      then (if t.amount == block_mining_fee then credit t else pure incorrect_mining_fee)
      else if block_id == 1
      then credit t
      else transfer t miner block_id

  -- Executor::ExecuteTransaction
  pub execute_transaction : Transaction → Action Exec ExecutionStatus
  execute_transaction t =
      if not t.is_transaction_fee && not (signature_valid prims t)
      then pure invalid_signature
      else if not t.is_transaction_fee && mismatched t
      then pure wallet_signature_mismatch
      else update_ledger t null_address 0 0

-- Executor::Rollback, in the order of the map's keys
pub rollback : Dict ℕ → Action Ledger (Unit {0})
rollback [] = pure tt
rollback ((wallet, delta) ∷ deltas) = Ledger.withdraw wallet delta >> rollback deltas

pub revert_fees : ℕ → ℕ → ℕ → Action Ledger (Unit {0})
revert_fees from miner fees =
    if ltb 0 fees
    then (Ledger.revert_deposit miner fees >> Ledger.revert_send from fees)
    else pure tt

-- rollbackLedger
pub rollback_ledger : Transaction → ℕ → Action Ledger (Unit {0})
unfolding revert_fees
rollback_ledger t miner = if t.is_transaction_fee then Ledger.revert_deposit t.to t.amount else do
  revert_fees t.from miner t.fee
  Ledger.revert_deposit t.to t.amount
  Ledger.revert_send t.from t.amount

-- The first loop of RollbackBlock: the wallet of the first mining fee, if there is one; `unset` is
-- what the variable holds before.
pub find_miner : ℕ → List Transaction → ℕ
find_miner unset [] = unset
find_miner unset (t ∷ ts) = if t.is_transaction_fee then t.to else find_miner unset ts

module _ (prims : Primitives) (stale : Transaction → ℕ) where
  -- The second loop, on the transactions from the last to the first.
  pub rollback_transactions : List Transaction → ℕ → Action (Ledger × Dict ℕ) (Unit {0})
  rollback_transactions [] miner (l, txdb) = (Result.ok tt, (l, txdb))
  rollback_transactions (t ∷ ts) miner (l, txdb) =
      let (r, l') = rollback_ledger t miner l in
      (elim r [
        | Result.ok _ ↦ rollback_transactions ts miner (
          l',
          if t.is_transaction_fee then txdb else remove_transaction prims (copy stale t) txdb,
        )
        | Result.throws e ↦ (Result.throws e, (l', txdb))
      ])

  -- Executor::RollbackBlock
  pub rollback_block : ℕ → List Transaction → Action (Ledger × Dict ℕ) (Unit {0})
  unfolding rollback_transactions find_miner
  rollback_block unset transactions =
      rollback_transactions (reverse transactions) (find_miner unset transactions)
