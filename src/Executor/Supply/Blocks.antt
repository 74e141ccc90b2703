-- ===== src/Executor/Supply/Blocks.antt =====
-- The money in circulation under the execution of a transaction and of a block.
use pandanite_node.Common.{
  ℕ, ◌+◌, ◌≡◌, ◌≢◌, none, Bool, true, false, arith, refl, sym, subst, ap, Option-cases, inl, inr,
  List, [], ◌∷◌, All,
}
use native.Mathlib.Nat.{add_assoc, add-zero}
use pandanite_node.Common.Dict.{Dict}
use pandanite_node.Common.State.{Action, ok, Ensures, Ensures-bind}
use pandanite_node.Crypto.{Primitives}
use pandanite_node.Transaction.{Transaction, copy}
use pandanite_node.Ledger.{Ledger}
use pandanite_node.Ledger
use pandanite_node.Ledger.Methods.{IsBounded}
use pandanite_node.Common.Dict.Sorted.{IsSorted}
use pandanite_node.Ledger.Supply.{Holds, supply, get_wallet_value-Holds, mint-Holds}
use pandanite_node.Executor.{
  Exec, ExecutionStatus, success, deposit, on_ledger, check_fees, check_amount, transfer_known,
  transfer, credit, update_ledger,
}
use pandanite_node.Executor.Block.{
  go_on, execute_one, execute_transactions, execute_found, execute_checked, execute_block, Check,
  fails, passes, Found, check_transactions,
}
use pandanite_node.Executor.Supply.{
  Supplied, Paid, InRange, move_funds-Supplied, deposit-Supplied, on_ledger-Ensures,
}
use pandanite_node.Executor.Supply.MiningFee.{
  minted, minted_by, fee_found, check_transactions-fee, check_transactions-ne,
}

module _ (total : ℕ) (t : Transaction) (r : InRange t) where
  check_fees-Supplied :
      (miner block_id : ℕ) (b : Bool)
      → Ensures (Supplied total 0) (check_fees t miner block_id b) (Paid total)
  unfolding check_fees
  check_fees-Supplied miner block_id true s h = λ e. cc
  check_fees-Supplied miner block_id false s h = move_funds-Supplied total t miner r s h

  check_amount-Supplied :
      (miner block_id value : ℕ) (b : Bool)
      → Ensures (Supplied total 0) (check_amount t miner block_id value b) (Paid total)
  unfolding check_amount
  check_amount-Supplied miner block_id value true s h = λ e. cc
  check_amount-Supplied miner block_id value false s h = check_fees-Supplied miner block_id _ s h

  transfer_known-Supplied :
      (miner block_id : ℕ) (b : Bool)
      → Ensures (Supplied total 0) (transfer_known t miner block_id b) (Paid total)
  unfolding transfer_known
  transfer_known-Supplied miner block_id false s h = λ e. cc
  transfer_known-Supplied miner block_id true s h =
      Ensures-bind (Supplied total 0) (λ _. Supplied total 0) (Paid total)
        (on_ledger (Ledger.get_wallet_value t.from)) _
        (on_ledger-Ensures (Holds total 0) (λ _. Holds total 0) _
          (get_wallet_value-Holds total 0 t.from))
        (λ value s' h'. check_amount-Supplied miner block_id value _ s' h') s h

  credit-Supplied : Ensures (Supplied total 0) (credit t) (Paid (total + t.amount))
  unfolding credit
  credit-Supplied s h =
      Ensures-bind (Supplied (total + t.amount) (0 + t.amount)) (λ _. Supplied (total + t.amount) 0)
        (Paid (total + t.amount)) (deposit t.to t.amount) _
        (deposit-Supplied (total + t.amount) 0 t.to t.amount r.amount_bound) (λ _ s' h' _. h') s
        (mint-Holds total t.amount s.ledger h)

module _ (prims : Primitives) (total : ℕ) (t : Transaction) (r : InRange t) where
  update_ledger-Supplied :
      (miner block_mining_fee block_id : ℕ)
      → Ensures
          (Supplied total 0)
          (update_ledger prims t miner block_mining_fee block_id)
          (Paid (total + minted block_id t))
  unfolding update_ledger transfer
  update_ledger-Supplied miner block_mining_fee block_id s h = ground (
    arith,
    credit-Supplied total t r s h,
    transfer_known-Supplied total t r miner block_id (Ledger.has_wallet t.from s.ledger) s h,
  )

module _ (prims : Primitives) (stale : Transaction → ℕ) (block_id : ℕ) where
  execute_one-Supplied :
      (total : ℕ) (t : Transaction) (miner block_mining_fee : ℕ)
      → InRange t
      → Ensures
          (Supplied total 0)
          (execute_one prims stale block_id t miner block_mining_fee)
          (Paid (total + minted block_id t))
  unfolding execute_one
  execute_one-Supplied total t miner block_mining_fee r s h =
      ground (arith, update_ledger-Supplied prims total t r miner block_mining_fee block_id s h)

  go_on-Supplied :
      (total total' : ℕ) (status : ExecutionStatus) (rest : Action Exec ExecutionStatus)
      → Ensures (Supplied total 0) rest (Paid total')
      → Ensures (Paid total status) (go_on status rest) (Paid total')
  go_on-Supplied total total' success rest h s p = h s (p refl)
  go_on-Supplied total total' status rest h s p = λ e. cc

  execute_transactions-Supplied :
      (total : ℕ) (ts : List Transaction) (miner block_mining_fee : ℕ)
      → All InRange ts
      → Ensures
          (Supplied total 0)
          (execute_transactions prims stale block_id ts miner block_mining_fee)
          (Paid (total + minted_by block_id ts))
  unfolding execute_transactions copy
  execute_transactions-Supplied total [] miner block_mining_fee r s h =
      λ _. subst (λ n. Supplied n 0 s) (sym (add-zero total)) h
  execute_transactions-Supplied total (t ∷ ts) miner block_mining_fee r s h =
      let total' = total + minted block_id t in
      rw (← add_assoc total (minted block_id t) (minted_by block_id ts)) (
        Ensures-bind (Supplied total 0) (Paid total') (Paid (total' + minted_by block_id ts))
          (execute_one prims stale block_id (copy stale t) miner block_mining_fee) _
          (execute_one-Supplied total (copy stale t) miner block_mining_fee
            (record { amount_bound = r.0.amount_bound; fee_bound = r.0.fee_bound }))
          (λ status.
            go_on-Supplied total' (total' + minted_by block_id ts) status _
              (execute_transactions-Supplied total' ts miner block_mining_fee r.1))
          s h)

  -- A block that is executed with success had a mining fee of the amount that was due.
  execute_checked-Supplied :
      (total : ℕ) (ts : List Transaction) (block_mining_fee : ℕ) (c : Check)
      → ((found : Found) → c ≡ passes found → fee_found found.fee ≡ minted_by block_id ts)
      → c ≢ fails success
      → All InRange ts
      → Ensures
          (Supplied total 0)
          (execute_checked prims stale block_id ts block_mining_fee c)
          (Paid (total + block_mining_fee))
  unfolding execute_checked execute_found
  execute_checked-Supplied total ts block_mining_fee (fails status) fee ne r s h =
      λ e. absurd (ne (ap fails e))
  execute_checked-Supplied total ts block_mining_fee (passes found) fee ne r s h =
      elim (Option-cases found.fee) [
        | inl none_found ↦ ground arith
        | inr ((miner, amount), have) ↦ ground (
          arith,
          fee found refl,
          execute_transactions-Supplied total ts miner block_mining_fee r s h,
        )
      ]

  -- A block, other than the genesis block, that is executed with success raises the sum of all
  -- balances by exactly the mining fee that was due: fees and transfers move money, and nothing
  -- else is minted. The balances before were uint64_t, the store in order, and the amounts and
  -- fees of the transactions are uint64_t.
  pub execute_block-supply :
      (ts : List Transaction) (txdb : Dict ℕ) (block_mining_fee : ℕ) (s s' : Exec)
      → block_id ≢ 1
      → All InRange ts
      → IsSorted s.ledger.db
      → IsBounded s.ledger
      → execute_block prims stale block_id ts txdb block_mining_fee s ≡ (ok success, s')
      → supply s'.ledger ≡ supply s.ledger + block_mining_fee
  unfolding execute_block
  execute_block-supply ts txdb block_mining_fee s s' ne r sorted bounded e = ground (
    arith,
    e,
    execute_checked-Supplied (supply s.ledger) ts block_mining_fee
        (check_transactions prims stale block_id txdb ts (record { fee = none; hashes = [] }))
        (λ found c. omega (
          arith,
          check_transactions-fee prims stale block_id txdb ts (record { fee = none; hashes = [] })
              found ne c,
        ))
        (check_transactions-ne prims stale block_id txdb ts _) r s
        (record { sorted = sorted; bounded = bounded; adds_up = add-zero (supply s.ledger) }),
  )
