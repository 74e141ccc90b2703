-- ===== src/Executor/Supply.antt =====
-- The money in circulation: executing a block mints its mining fee and nothing else.
pub mod MiningFee
pub mod Blocks
use pandanite_node.Common.{
  ℕ, ◌+◌, ◌-◌, ◌%◌, ◌≤◌, ◌<◌, ◌≡◌, ◌≢◌, ◌⊎◌, Option, none, some, Bool, true, false, arith, ltb, u64,
  if◌then◌else◌, ◌==◌, Option-cases, inl, inr, List, [], ◌∷◌, Bool-cases, All, not, ◌&&◌,
}
use pandanite_node.Common.Dict.{Dict}
use pandanite_node.Common.State.{Action, Result, ok, throws, Ensures, Ensures-bind, Returns}
use pandanite_node.Crypto.{Primitives}
use pandanite_node.Transaction.{Transaction, copy}
use pandanite_node.Ledger.{Ledger}
use pandanite_node.Ledger
use pandanite_node.Ledger.Supply.{Holds, supply, create-Holds, deposit-Holds, withdraw-Holds}
use pandanite_node.Executor.{
  Exec, ExecutionStatus, success, deposit, withdraw, pay_fees, move_funds, on_ledger, add_delta,
  sub_delta, create_if_missing, withdraw_known, check_fees, check_amount, transfer_known, transfer,
  credit, update_ledger, balance_too_low,
}
use pandanite_node.Executor.Block.{
  go_on, execute_one, execute_transactions, execute_found, execute_checked, execute_block, Check,
  fails, passes,
}

on_ledger-Returns :
    {A : Type 0} (Q : A → Ledger → Type 0) (r : Result A) (l : Ledger) (s : Exec)
    → Returns Q r l
    → Returns (λ a s'. Q a s'.ledger) r (record s { ledger = l })
on_ledger-Returns Q (ok a) l s h = h
on_ledger-Returns Q (throws e) l s h = tt

-- What a method of the ledger ensures, it ensures when the executor calls it.
pub on_ledger-Ensures :
    {A : Type 0} (P : Ledger → Type 0) (Q : A → Ledger → Type 0) (m : Action Ledger A)
    → Ensures P m Q
    → Ensures (λ s. P s.ledger) (on_ledger m) (λ a s. Q a s.ledger)
on_ledger-Ensures P Q m h s p = on_ledger-Returns Q (m s.ledger).0 (m s.ledger).1 s (h s.ledger p)

-- The same of the ledger in the executor's state.
abbrev pub Supplied : ℕ → ℕ → Exec → Type 0
Supplied total owed s = Holds total owed s.ledger

add_delta-ledger : (to amt : ℕ) (s : Exec) → (add_delta to amt s).ledger ≡ s.ledger
unfolding add_delta
add_delta-ledger to amt s = ground arith

sub_delta-ledger : (from amt : ℕ) (s : Exec) → (sub_delta from amt s).ledger ≡ s.ledger
unfolding sub_delta
sub_delta-ledger from amt s = ground arith

create_if_missing-Supplied :
    (total owed wallet : ℕ) (b : Bool)
    → Ensures (Supplied total owed) (create_if_missing wallet b) (λ _. Supplied total owed)
unfolding create_if_missing
create_if_missing-Supplied total owed wallet true s h = h
create_if_missing-Supplied total owed wallet false s h =
    on_ledger-Ensures (Holds total owed) (λ _. Holds total owed) (Ledger.create_wallet wallet)
      (create-Holds total owed wallet 0) s h

module _ (total owed wallet amt : ℕ) where
  pub deposit-Supplied :
      amt < u64
      → Ensures (Supplied total (owed + amt)) (deposit wallet amt) (λ _. Supplied total owed)
  unfolding deposit
  deposit-Supplied small s h =
      Ensures-bind (Supplied total (owed + amt)) (λ _. Supplied total (owed + amt))
        (λ _. Supplied total owed) (create_if_missing wallet (Ledger.has_wallet wallet s.ledger)) _
        (create_if_missing-Supplied total (owed + amt) wallet _)
        (λ _.
          Ensures-bind (Supplied total (owed + amt)) (λ _. Supplied total owed)
            (λ _. Supplied total owed) (on_ledger (Ledger.deposit wallet amt)) _
            (on_ledger-Ensures (Holds total (owed + amt)) (λ _. Holds total owed) _
              (deposit-Holds total owed wallet amt small))
            (λ _ s' h'. rw add_delta-ledger h'))
        s h

  withdraw_known-Supplied :
      (b : Bool)
      → Ensures
          (Supplied total owed)
          (withdraw_known wallet amt b)
          (λ _. Supplied total (owed + amt))
  unfolding withdraw_known
  withdraw_known-Supplied true s h =
      on_ledger-Ensures (Holds total owed) (λ _. Holds total (owed + amt)) _
        (withdraw-Holds total owed wallet amt) s h
  withdraw_known-Supplied false s h = tt

  withdraw-Supplied :
      Ensures (Supplied total owed) (withdraw wallet amt) (λ _. Supplied total (owed + amt))
  unfolding withdraw
  withdraw-Supplied s h =
      Ensures-bind (Supplied total owed) (λ _. Supplied total (owed + amt))
        (λ _. Supplied total (owed + amt))
        (withdraw_known wallet amt (Ledger.has_wallet wallet s.ledger)) _
        (withdraw_known-Supplied _) (λ _ s' h'. rw sub_delta-ledger h') s h

-- The members of a transaction that are uint64_t.
pub record InRange (t : Transaction) : Type 0 where
  pub amount_bound : t.amount < u64
  pub fee_bound : t.fee < u64

pub InRange-copy : (stale : Transaction → ℕ) (t : Transaction) → InRange t → InRange (copy stale t)
unfolding copy
InRange-copy stale t h = record { amount_bound = h.amount_bound; fee_bound = h.fee_bound }

-- What a status promises: after a success everything is paid.
abbrev pub Paid : ℕ → ExecutionStatus → Exec → Type 0
Paid total status s = status ≡ success → Supplied total 0 s

module _ (total : ℕ) where
  pay_fees-Supplied :
      (from miner fees : ℕ)
      → fees < u64
      → Ensures (Supplied total 0) (pay_fees from miner fees) (λ _. Supplied total 0)
  unfolding pay_fees
  pay_fees-Supplied from miner fees small s h = elim (Bool-cases (ltb 0 fees)) [
    | inl e ↦ rw e (
        Ensures-bind (Supplied total 0) (λ _. Supplied total (0 + fees)) (λ _. Supplied total 0)
          (withdraw from fees) _ (withdraw-Supplied total 0 from fees)
          (λ _. deposit-Supplied total 0 miner fees small) s h)
    | inr e ↦ rw e h
  ]

  pub move_funds-Supplied :
      (t : Transaction) (miner : ℕ)
      → InRange t
      → Ensures (Supplied total 0) (move_funds t miner) (Paid total)
  unfolding move_funds
  move_funds-Supplied t miner r =
      Ensures-bind (Supplied total 0) (λ _. Supplied total (0 + t.amount)) (Paid total)
        (withdraw t.from t.amount) _ (withdraw-Supplied total 0 t.from t.amount)
        λ _.
          Ensures-bind (Supplied total (0 + t.amount)) (λ _. Supplied total 0) (Paid total)
            (deposit t.to t.amount) _ (deposit-Supplied total 0 t.to t.amount r.amount_bound)
            λ _.
              Ensures-bind (Supplied total 0) (λ _. Supplied total 0) (Paid total)
                (pay_fees t.from miner t.fee) _ (pay_fees-Supplied t.from miner t.fee r.fee_bound)
                λ _ s h _. h
