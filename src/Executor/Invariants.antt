-- ===== src/Executor/Invariants.antt =====
-- A rule for the executor: what every deposit and every withdrawal keeps, and the list of invalid
-- transactions has no part in, is kept by the execution of a transaction and of a block, however
-- it ends.
use pandanite_node.Common.{
  ℕ, ◌≡◌, subst, sym, Bool, true, false, List, [], ◌∷◌, Bool-cases, Option-cases, inl, inr, arith,
  ltb,
}
use pandanite_node.Common.Dict.{Dict}
use pandanite_node.Common.State.{Action, Keeps, Keeps-bind}
use pandanite_node.Crypto.{Primitives}
use pandanite_node.Transaction.{Transaction, copy}
use pandanite_node.Ledger
use pandanite_node.Ledger.{Ledger}
use pandanite_node.Executor.{
  Exec, ExecutionStatus, success, deposit, withdraw, move_funds, transfer, credit, update_ledger,
  pay_fees, check_fees, check_amount, transfer_known, on_ledger, execute_transaction,
}
use pandanite_node.Executor.Block.{
  go_on, execute_one, execute_transactions, execute_block, execute_checked, execute_found, Check,
  fails, passes,
}

-- A read changes nothing.
get_wallet_value-same : (w : ℕ) (s : Exec) → (on_ledger (Ledger.get_wallet_value w) s).1 ≡ s
unfolding Ledger.get_wallet_value
get_wallet_value-same w s = ground arith

module _ (P : Exec → Type 0) (keeps_deposit : (to amt : ℕ) → Keeps P (deposit to amt))
    (keeps_withdraw : (from amt : ℕ) → Keeps P (withdraw from amt))
    (keeps_invalid : (s : Exec) (items : List (ℕ × ℕ))
      → P s
      → P (record s { invalid_transactions = items })) where
  pay_fees-Keeps : (from miner fees : ℕ) → Keeps P (pay_fees from miner fees)
  unfolding pay_fees
  pay_fees-Keeps from miner fees s p = elim (Bool-cases (ltb 0 fees)) [
    | inl e ↦ rw e (
        Keeps-bind P (withdraw from fees) (λ _. deposit miner fees) (keeps_withdraw from fees)
          (λ _. keeps_deposit miner fees) s p)
    | inr e ↦ rw e p
  ]

  pub move_funds-Keeps : (t : Transaction) (miner : ℕ) → Keeps P (move_funds t miner)
  unfolding move_funds
  move_funds-Keeps t miner =
      Keeps-bind P (withdraw t.from t.amount) _ (keeps_withdraw t.from t.amount) λ _.
        Keeps-bind P (deposit t.to t.amount) _ (keeps_deposit t.to t.amount) λ _.
          Keeps-bind P (pay_fees t.from miner t.fee) _ (pay_fees-Keeps t.from miner t.fee)
            λ _ s p. p

  check_fees-Keeps :
      (t : Transaction) (miner block_id : ℕ) (b : Bool) → Keeps P (check_fees t miner block_id b)
  unfolding check_fees
  check_fees-Keeps t miner block_id true s p = keeps_invalid s _ p
  check_fees-Keeps t miner block_id false s p = move_funds-Keeps t miner s p

  check_amount-Keeps :
      (t : Transaction) (miner block_id total : ℕ) (b : Bool)
      → Keeps P (check_amount t miner block_id total b)
  unfolding check_amount
  check_amount-Keeps t miner block_id total true s p = keeps_invalid s _ p
  check_amount-Keeps t miner block_id total false s p = check_fees-Keeps t miner block_id _ s p

  transfer_known-Keeps :
      (t : Transaction) (miner block_id : ℕ) (b : Bool)
      → Keeps P (transfer_known t miner block_id b)
  unfolding transfer_known
  transfer_known-Keeps t miner block_id false s p = p
  transfer_known-Keeps t miner block_id true s p =
      Keeps-bind P (on_ledger (Ledger.get_wallet_value t.from)) _
        (λ s' p'. subst P (sym (get_wallet_value-same t.from s')) p')
        (λ total s' p'. check_amount-Keeps t miner block_id total _ s' p') s p

  credit-Keeps : (t : Transaction) → Keeps P (credit t)
  unfolding credit
  credit-Keeps t = Keeps-bind P (deposit t.to t.amount) _ (keeps_deposit t.to t.amount) λ _ s p. p

  go_on-Keeps :
      (status : ExecutionStatus) (rest : Action Exec ExecutionStatus)
      → Keeps P rest
      → Keeps P (go_on status rest)
  go_on-Keeps success rest h s p = h s p
  go_on-Keeps status rest h s p = p

  module _ (prims : Primitives) where
    pub update_ledger-Keeps :
        (t : Transaction) (miner block_mining_fee block_id : ℕ)
        → Keeps P (update_ledger prims t miner block_mining_fee block_id)
    unfolding update_ledger transfer
    update_ledger-Keeps t miner block_mining_fee block_id s p = ground (
      arith,
      p,
      credit-Keeps t s p,
      transfer_known-Keeps t miner block_id (Ledger.has_wallet t.from s.ledger) s p,
    )

    pub execute_transaction-Keeps : (t : Transaction) → Keeps P (execute_transaction prims t)
    unfolding execute_transaction
    execute_transaction-Keeps t s p = ground (arith, p, update_ledger-Keeps t 0 0 0 s p)

    module _ (stale : Transaction → ℕ) (block_id : ℕ) where
      execute_one-Keeps :
          (t : Transaction) (miner block_mining_fee : ℕ)
          → Keeps P (execute_one prims stale block_id t miner block_mining_fee)
      unfolding execute_one
      execute_one-Keeps t miner block_mining_fee s p =
          ground (arith, p, update_ledger-Keeps t miner block_mining_fee block_id s p)

      execute_transactions-Keeps :
          (ts : List Transaction) (miner block_mining_fee : ℕ)
          → Keeps P (execute_transactions prims stale block_id ts miner block_mining_fee)
      unfolding execute_transactions
      execute_transactions-Keeps [] miner block_mining_fee s p = p
      execute_transactions-Keeps (t ∷ ts) miner block_mining_fee s p =
          Keeps-bind P (execute_one prims stale block_id (copy stale t) miner block_mining_fee) _
            (execute_one-Keeps (copy stale t) miner block_mining_fee)
            (λ status. go_on-Keeps status _ (execute_transactions-Keeps ts miner block_mining_fee))
            s p

      execute_checked-Keeps :
          (ts : List Transaction) (block_mining_fee : ℕ) (c : Check)
          → Keeps P (execute_checked prims stale block_id ts block_mining_fee c)
      unfolding execute_checked
      execute_checked-Keeps ts block_mining_fee (fails status) s p = p
      execute_checked-Keeps ts block_mining_fee (passes found) s p = elim (Option-cases found.fee) [
        | inl e ↦ rw (e, execute_found) p
        | inr ((miner, fee), e) ↦
            rw (e, execute_found)
              (ground (arith, p, execute_transactions-Keeps ts miner block_mining_fee s p))
      ]

      pub execute_block-Keeps :
          (ts : List Transaction) (txdb : Dict ℕ) (block_mining_fee : ℕ)
          → Keeps P (execute_block prims stale block_id ts txdb block_mining_fee)
      unfolding execute_block
      execute_block-Keeps ts txdb block_mining_fee s p =
          execute_checked-Keeps ts block_mining_fee _ s p
