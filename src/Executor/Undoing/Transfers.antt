-- ===== src/Executor/Undoing/Transfers.antt =====
-- Executor::RollbackBlock after ExecuteBlock: one transaction, taken back.
use mathlib.Core.Path.{fun_ext}
use pandanite_node.Common.{
  ℕ, ◌≡◌, ◌≢◌, Bool, true, false, not, ◌&&◌, arith, refl, sym, subst, ltb, ◌==◌, if◌then◌else◌, inl,
  inr, Bool-cases,
}
use pandanite_node.Common.State.{
  Action, Result, ok, throws, Returns, resume, ◌>>=◌, ◌>>◌, pure, gets,
}
use pandanite_node.Crypto.{Primitives}
use pandanite_node.Transaction.{Transaction}
use pandanite_node.Ledger.{Ledger}
use pandanite_node.Ledger
use pandanite_node.Executor.{
  Exec, ExecutionStatus, success, wallet_signature_mismatch, incorrect_mining_fee, deposit,
  withdraw, move_funds, pay_fees, revert_fees, refuse, too_low, check_fees, check_amount,
  transfer_known, transfer, credit, update_ledger, mismatched, rollback_ledger,
}
use pandanite_node.Executor.Supply.{InRange}
use pandanite_node.Executor.Undoing.{
  Undone, Undoable, Always, IsSuccess, Undoable-bind, deposit-Undoable, withdraw-Undoable,
}

pub Undoable-if :
    {A : Type 0} (C : A → Type 0) (m m' : Action Exec A) (u : Action Ledger (Unit {0})) (b : Bool)
    → (b ≡ true → Undoable C m u)
    → (b ≡ false → Undoable C m' u)
    → Undoable C (if b then m else m') u
Undoable-if C m m' u true h h' = h refl
Undoable-if C m m' u false h h' = h' refl

-- What is not a success need not be undone.
pub refused-Undoable :
    (status : ExecutionStatus) (u : Action Ledger (Unit {0}))
    → status ≢ success
    → Undoable IsSuccess (pure status) u
refused-Undoable status u ne s b = λ e. absurd (ne e)

pub pure-Undoable : {A : Type 0} (C : A → Type 0) (a : A) → Undoable C (pure a) (pure tt)
pure-Undoable C a s b = λ c. (b, λ l m. (refl, m))

-- What the rollback does to a transfer.
abbrev revert : Transaction → ℕ → Action Ledger (Unit {0})
revert t miner =
    (revert_fees t.from miner t.fee >> Ledger.revert_deposit t.to t.amount)
    >> Ledger.revert_send t.from t.amount

module _ (t : Transaction) (r : InRange t) (miner : ℕ) where
  pay_fees-Undoable : Undoable Always (pay_fees t.from miner t.fee) (revert_fees t.from miner t.fee)
  unfolding pay_fees revert_fees
  pay_fees-Undoable = elim (Bool-cases (ltb 0 t.fee)) [
    | inl e ↦ rw e (
        Undoable-bind Always (withdraw t.from t.fee) (deposit miner t.fee)
          (Ledger.revert_send t.from t.fee) (Ledger.revert_deposit miner t.fee)
          (withdraw-Undoable t.from t.fee r.fee_bound) (deposit-Undoable miner t.fee r.fee_bound))
    | inr e ↦ rw e (pure-Undoable Always tt)
  ]

  move_funds-Undoable : Undoable IsSuccess (move_funds t miner) (revert t miner)
  unfolding move_funds
  move_funds-Undoable =
      Undoable-bind IsSuccess (withdraw t.from t.amount) _ (Ledger.revert_send t.from t.amount)
        (revert_fees t.from miner t.fee >> Ledger.revert_deposit t.to t.amount)
        (withdraw-Undoable t.from t.amount r.amount_bound)
        (Undoable-bind IsSuccess (deposit t.to t.amount) _ (Ledger.revert_deposit t.to t.amount)
          (revert_fees t.from miner t.fee) (deposit-Undoable t.to t.amount r.amount_bound)
          (Undoable-bind IsSuccess (pay_fees t.from miner t.fee) (pure success)
            (revert_fees t.from miner t.fee) (pure tt) pay_fees-Undoable
            (pure-Undoable IsSuccess success)))

  check_fees-Undoable :
      (block_id : ℕ) (b : Bool)
      → Undoable IsSuccess (check_fees t miner block_id b) (revert t miner)
  unfolding check_fees refuse
  check_fees-Undoable block_id true s h = λ e. cc
  check_fees-Undoable block_id false s h = move_funds-Undoable s h

  check_amount-Undoable :
      (block_id value : ℕ) (b : Bool)
      → Undoable IsSuccess (check_amount t miner block_id value b) (revert t miner)
  unfolding check_amount refuse
  check_amount-Undoable block_id value true s h = λ e. cc
  check_amount-Undoable block_id value false s h = check_fees-Undoable block_id _ s h

  -- Reading the balance leaves the ledger alone.
  get_wallet_value-state : (w : ℕ) (l : Ledger) → (Ledger.get_wallet_value w l).1 ≡ l
  unfolding Ledger.get_wallet_value
  get_wallet_value-state w l = ground arith

  transfer_known-Undoable :
      (block_id : ℕ) (b : Bool)
      → Undoable IsSuccess (transfer_known t miner block_id b) (revert t miner)
  unfolding transfer_known
  transfer_known-Undoable block_id false s h = λ e. cc
  transfer_known-Undoable block_id true s h =
      let value = (Ledger.get_wallet_value t.from s.ledger).0 in
      let k = λ (total : ℕ).
        (gets (too_low block_id t.from (ltb total t.amount)) >>= λ short.
        check_amount t miner block_id total short) in
      subst
        (λ l.
          Returns (λ a s'. IsSuccess a → Undone (revert t miner) s.ledger s')
            (resume k value (record s { ledger = l })).0
            (resume k value (record s { ledger = l })).1)
        (sym (get_wallet_value-state t.from s.ledger))
        (go k value (λ total s' h'. check_amount-Undoable block_id total _ s' h'))
    where
      go :
          (k : ℕ → Action Exec ExecutionStatus) (value : Result ℕ)
          → ((total : ℕ) → Undoable IsSuccess (k total) (revert t miner))
          → Returns
              (λ a s'. IsSuccess a → Undone (revert t miner) s.ledger s')
              (resume k value s).0
              (resume k value s).1
      go k (ok total) hk = hk total s h
      go k (throws e) hk = tt

  transfer-Undoable :
      (block_id : ℕ) → Undoable IsSuccess (transfer t miner block_id) (revert t miner)
  unfolding transfer
  transfer-Undoable block_id s h =
      transfer_known-Undoable block_id (Ledger.has_wallet t.from s.ledger) s h

  credit-Undoable : Undoable IsSuccess (credit t) (Ledger.revert_deposit t.to t.amount)
  unfolding credit
  credit-Undoable =
      Undoable-bind IsSuccess (deposit t.to t.amount) (pure success)
        (Ledger.revert_deposit t.to t.amount) (pure tt)
        (deposit-Undoable t.to t.amount r.amount_bound) (pure-Undoable IsSuccess success)

pub >>_assoc : (a b c : Action Ledger (Unit {0})) → ((a >> b) >> c) ≡ (a >> (b >> c))
>>_assoc a b c = fun_ext (λ l. go (a l).0 (a l).1)
  where
    go :
        (r : Result (Unit {0})) (l : Ledger)
        → (let (r', l') = resume (λ _. b) r l in resume (λ _. c) r' l') ≡ resume (λ _. b >> c) r l
    go (ok _) l = refl
    go (throws e) l = refl

-- rollbackLedger in its two cases.
rollback_ledger-fee :
    (t : Transaction) (miner : ℕ)
    → t.is_transaction_fee ≡ true
    → Ledger.revert_deposit t.to t.amount ≡ rollback_ledger t miner
unfolding rollback_ledger
rollback_ledger-fee t miner e = rw e

rollback_ledger-transfer :
    (t : Transaction) (miner : ℕ)
    → t.is_transaction_fee ≡ false
    → revert t miner ≡ rollback_ledger t miner
unfolding rollback_ledger
rollback_ledger-transfer t miner e = rw e (
    >>_assoc (revert_fees t.from miner t.fee) (Ledger.revert_deposit t.to t.amount)
      (Ledger.revert_send t.from t.amount))

module _ (prims : Primitives) (t : Transaction) (r : InRange t) (miner : ℕ) where
  pub update_ledger-Undoable :
      (fee block_id : ℕ)
      → block_id ≢ 1
      → Undoable IsSuccess (update_ledger prims t miner fee block_id) (rollback_ledger t miner)
  unfolding update_ledger
  update_ledger-Undoable fee block_id ne =
      let undo = rollback_ledger t miner in
      let mint : Action Exec ExecutionStatus =
        if t.amount == fee then credit t else pure incorrect_mining_fee in
      let move : Action Exec ExecutionStatus =
        if block_id == 1 then credit t else transfer t miner block_id in
      let mint_undone : Undoable IsSuccess mint (Ledger.revert_deposit t.to t.amount) =
        Undoable-if IsSuccess (credit t) (pure incorrect_mining_fee)
          (Ledger.revert_deposit t.to t.amount) (t.amount == fee) (λ _. credit-Undoable t r miner)
          (λ _.
            refused-Undoable incorrect_mining_fee (Ledger.revert_deposit t.to t.amount)
              (λ e. cc)) in
      let move_undone : Undoable IsSuccess move (revert t miner) =
        Undoable-if IsSuccess (credit t) (transfer t miner block_id) (revert t miner)
          (block_id == 1) (λ same. absurd (ground arith))
          (λ _. transfer-Undoable t r miner block_id) in
      Undoable-if IsSuccess (pure wallet_signature_mismatch)
        (if t.is_transaction_fee then mint else move) undo
        (not t.is_transaction_fee && (ltb 1 block_id && mismatched prims t))
        (λ _. refused-Undoable wallet_signature_mismatch undo (λ e. cc))
        (λ _.
          Undoable-if IsSuccess mint move undo t.is_transaction_fee
            (λ is_fee.
              subst (λ u. Undoable IsSuccess mint u) (rollback_ledger-fee t miner is_fee)
                mint_undone)
            (λ no_fee.
              subst (λ u. Undoable IsSuccess move u) (rollback_ledger-transfer t miner no_fee)
                move_undone))
