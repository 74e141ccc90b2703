-- ===== src/Executor/Block.antt =====
-- Executor::ExecuteBlock of server/executor.cpp: the loop that tests the transactions, and the
-- loop that executes them.
use pandanite_node.Common.{
  ℕ, Bool, false, not, ◌&&◌, ◌||◌, Option, none, some, List, [], ◌∷◌, ltb, ◌==◌, if◌then◌else◌,
}
use pandanite_node.Common.Dict.{Dict}
use pandanite_node.Common.State.{Action, pure, ◌>>=◌}
use pandanite_node.Crypto.{Primitives}
use pandanite_node.Transaction.{Transaction, copy, get_hash, signature_valid}
use pandanite_node.TxStore.{has_transaction}
use pandanite_node.Executor.{
  Exec, ExecutionStatus, mismatched, update_ledger, invalid_signature, extra_mining_fee,
  incorrect_mining_fee, no_mining_fee, expired_transaction, wallet_signature_mismatch, success,
}

-- What the first loop has found: the mining fee's receiver and amount, and the set of hashes.
pub record Found : Type 0 where
  pub fee : Option (ℕ × ℕ)
  pub hashes : List ℕ

-- A step of the first loop: an early return, or the loop goes on.
pub data Check : Type 0 where
  fails : ExecutionStatus → Check
  passes : Found → Check

unfoldable pub is_member : ℕ → List ℕ → Bool
is_member h [] = false
is_member h (x ∷ xs) = h == x || is_member h xs

unfoldable pub check_fee : Transaction → Found → Option (ℕ × ℕ) → Check
check_fee t found none = passes (record found { fee = some (t.to, t.amount) })
check_fee t found (some _) = fails extra_mining_fee

-- `if (updateStatus != SUCCESS) return updateStatus;`
abbrev pub go_on : ExecutionStatus → Action Exec ExecutionStatus → Action Exec ExecutionStatus
go_on success rest = rest
go_on status rest = pure status

module _ (prims : Primitives) (stale : Transaction → ℕ) (block_id : ℕ) where
  unfoldable pub check_transaction : Dict ℕ → Transaction → Found → Check
  unfolding check_fee
  check_transaction txdb t found =
      if t.is_transaction_fee
      then check_fee t found found.fee
      else if is_member (get_hash prims t) found.hashes
          || (has_transaction prims t txdb && not (block_id == 1))
      then fails expired_transaction
      else if ltb 1 block_id && mismatched prims t
      then fails wallet_signature_mismatch
      else passes (record found { hashes = get_hash prims t ∷ found.hashes })

  unfoldable pub check_transactions : Dict ℕ → List Transaction → Found → Check
  check_transactions txdb [] found = passes found
  check_transactions txdb (t ∷ ts) found = elim (check_transaction txdb (copy stale t) found) [
    | fails status ↦ fails status
    | passes found' ↦ check_transactions txdb ts found'
  ]

  -- The body of the second loop for one transaction.
  unfoldable pub execute_one : Transaction → ℕ → ℕ → Action Exec ExecutionStatus
  execute_one t miner block_mining_fee =
      if not t.is_transaction_fee && (not (signature_valid prims t) && not (block_id == 1))
      then pure invalid_signature
      else update_ledger prims t miner block_mining_fee block_id

  unfoldable pub execute_transactions : List Transaction → ℕ → ℕ → Action Exec ExecutionStatus
  execute_transactions [] miner block_mining_fee = pure success
  execute_transactions (t ∷ ts) miner block_mining_fee = do
    status ← execute_one (copy stale t) miner block_mining_fee
    go_on status (execute_transactions ts miner block_mining_fee)

  -- The tests between the loops.
  unfoldable pub execute_found : List Transaction → ℕ → Option (ℕ × ℕ) → Action Exec ExecutionStatus
  execute_found transactions block_mining_fee none = pure no_mining_fee
  execute_found transactions block_mining_fee (some (miner, mining_fee)) =
      if mining_fee == block_mining_fee
      then execute_transactions transactions miner block_mining_fee
      else pure incorrect_mining_fee

  unfoldable pub execute_checked : List Transaction → ℕ → Check → Action Exec ExecutionStatus
  unfolding execute_found
  execute_checked transactions block_mining_fee (fails status) = pure status
  execute_checked transactions block_mining_fee (passes found) =
      execute_found transactions block_mining_fee found.fee

  unfoldable pub execute_block : List Transaction → Dict ℕ → ℕ → Action Exec ExecutionStatus
  unfolding execute_checked
  execute_block transactions txdb block_mining_fee =
      execute_checked transactions block_mining_fee
        (check_transactions txdb transactions (record { fee = none; hashes = [] }))
