-- ===== src/Executor/Undoing/Restored.antt =====
-- Executor::RollbackBlock after ExecuteBlock: the balances are back.
use mathlib.Core.List.{reverse, reverse-cons, map-append, ◌++◌}
use pandanite_node.Common.{
  ℕ, ◌≡◌, ◌≢◌, none, some, Option, List, [], ◌∷◌, All, arith, refl, sym, subst, ap, ◌∙◌, ◌==◌,
  if◌then◌else◌, Option-cases, Bool-cases, inl, inr, map,
}
use pandanite_node.Common.Dict.{Dict}
use pandanite_node.Common.State.{Result, ok, Returns, pure}
use pandanite_node.Crypto.{Primitives}
use pandanite_node.Transaction.{Transaction, copy}
use pandanite_node.Transaction.Buffer.{TransactionInfo, serialize, transaction_from_info}
use pandanite_node.Ledger.{Ledger}
use pandanite_node.Ledger.Methods.{balance, IsBounded}
use pandanite_node.Executor.{
  Exec, success, no_mining_fee, incorrect_mining_fee, rollback_ledger, rollback_block, find_miner,
}
use pandanite_node.Executor.Block.{
  execute_transactions, execute_found, execute_checked, execute_block, Check, fails, passes, Found,
  check_transaction, check_transactions, check_fee,
}
use pandanite_node.Executor.Supply.{InRange}
use pandanite_node.Executor.Supply.MiningFee.{check_transactions-ne}
use pandanite_node.Executor.Undoing.{Undone, Undoable, IsSuccess}
use pandanite_node.Executor.Undoing.Transfers.{Undoable-if, refused-Undoable}
use pandanite_node.Executor.Undoing.Blocks.{
  revert_all, rollback_transactions-revert_all, execute_transactions-Undoable,
}

-- The miner that the first loop of ExecuteBlock finds is the one that RollbackBlock finds.
module _ (prims : Primitives) (stale : Transaction → ℕ) (block_id unset : ℕ) (txdb : Dict ℕ) where
  -- What a loop that goes on has of the fee: its receiver, if it had none before that of `t`.
  miner_of : Option (ℕ × ℕ) → ℕ → ℕ
  miner_of none miner = miner
  miner_of (some (miner, amount)) _ = miner

  check_transaction-miner :
      (t : Transaction) (found found' : Found) (miner : ℕ)
      → check_transaction prims stale block_id txdb t found ≡ passes found'
      → miner_of found.fee (if t.is_transaction_fee then t.to else miner)
        ≡ miner_of found'.fee miner
  unfolding check_transaction check_fee miner_of
  check_transaction-miner t found found' miner e = ground arith

  check_transactions-miner :
      (ts : List Transaction) (found found' : Found) (miner amount : ℕ)
      → check_transactions prims stale block_id txdb ts found ≡ passes found'
      → found'.fee ≡ some (miner, amount)
      → miner_of found.fee (find_miner unset ts) ≡ miner
  unfolding check_transactions copy miner_of find_miner
  check_transactions-miner [] found found' miner amount e h = ground arith
  check_transactions-miner (t ∷ ts) found found' miner amount e h =
      step (check_transaction prims stale block_id txdb (copy stale t) found) refl e
        (λ f e'. check_transactions-miner ts f found' miner amount e' h)
    where
      step :
          (c : Check)
          → check_transaction prims stale block_id txdb (copy stale t) found ≡ c
          → (elim c [
            | fails status ↦ fails status
            | passes found'' ↦ check_transactions prims stale block_id txdb ts found''
          ])
            ≡ passes found'
          → ((f : Found)
              → check_transactions prims stale block_id txdb ts f ≡ passes found'
              → miner_of f.fee (find_miner unset ts) ≡ miner)
          → miner_of found.fee (find_miner unset (t ∷ ts)) ≡ miner
      step (fails status) c e' ih = cc
      step (passes found'') c e' ih =
          check_transaction-miner (copy stale t) found found'' (find_miner unset ts) c
          ∙ ih found'' e'

module _ (prims : Primitives) (stale : Transaction → ℕ) (block_id unset : ℕ) (ne : block_id ≢ 1)
    (ts : List Transaction) (r : All InRange ts) (txdb : Dict ℕ) (fee : ℕ) where
  -- What RollbackBlock does to the ledger.
  abbrev undo : Ledger → Result (Unit {0}) × Ledger
  undo = revert_all (reverse ts) (find_miner unset ts)

  execute_checked-Undoable :
      (c : Check)
      → c ≢ fails success
      → ((found : Found) (miner amount : ℕ)
          → c ≡ passes found
          → found.fee ≡ some (miner, amount)
          → find_miner unset ts ≡ miner)
      → Undoable IsSuccess (execute_checked prims stale block_id ts fee c) undo
  unfolding execute_checked execute_found
  execute_checked-Undoable (fails status) not_success same =
      refused-Undoable status undo (λ e. not_success (ap fails e))
  execute_checked-Undoable (passes found) not_success same = elim (Option-cases found.fee) [
    | inl e ↦ rw e (refused-Undoable no_mining_fee undo (λ e. cc))
    | inr ((miner, amount), e) ↦
        let again : Undoable IsSuccess (execute_transactions prims stale block_id ts miner fee)
            undo =
          subst
            (λ m.
              Undoable IsSuccess (execute_transactions prims stale block_id ts miner fee)
                (revert_all (reverse ts) m))
            (sym (same found miner amount refl e))
            (execute_transactions-Undoable prims stale block_id ne miner fee ts r) in
        rw e (
          Undoable-if IsSuccess (execute_transactions prims stale block_id ts miner fee)
            (pure incorrect_mining_fee) undo (amount == fee) (λ _. again)
            (λ _. refused-Undoable incorrect_mining_fee undo (λ e. cc)))
  ]

  execute_block-Undoable : Undoable IsSuccess (execute_block prims stale block_id ts txdb fee) undo
  unfolding execute_block miner_of
  execute_block-Undoable =
      execute_checked-Undoable
        (check_transactions prims stale block_id txdb ts (record { fee = none; hashes = [] }))
        (check_transactions-ne prims stale block_id txdb ts (record { fee = none; hashes = [] }))
        (λ found miner amount.
          check_transactions-miner prims stale block_id unset txdb ts
            (record { fee = none; hashes = [] }) found miner amount)

  -- The block's transactions may be copies, of which RollbackBlock makes the same calls.
  pub rollback_block_of :
      (ts' : List Transaction) (stale' : Transaction → ℕ) (txdb' : Dict ℕ) (s s' : Exec)
      → revert_all (reverse ts') (find_miner unset ts') ≡ undo
      → IsBounded s.ledger
      → execute_block prims stale block_id ts txdb fee s ≡ (ok success, s')
      → ((rollback_block prims stale' unset ts' (s'.ledger, txdb')).0 ≡ ok tt)
        × ((w : ℕ)
            → balance w (rollback_block prims stale' unset ts' (s'.ledger, txdb')).1.0
              ≡ balance w s.ledger)
  unfolding rollback_block
  rollback_block_of ts' stale' txdb' s s' same b e =
      let done : Undone undo s.ledger s' =
        subst (λ o. Returns (λ a s'. IsSuccess a → Undone undo s.ledger s') o.0 o.1) e
          (execute_block-Undoable s b) refl in
      let back = done.1 s'.ledger (λ w. (refl, λ known. known)) in
      let (result, ledger) =
        rollback_transactions-revert_all prims stale' (reverse ts') (find_miner unset ts') s'.ledger
          txdb' in
      (
        result ∙ ap (λ (u : Ledger → Result (Unit {0}) × Ledger). (u s'.ledger).0) same ∙ back.0,
        λ w.
            ap (balance w) ledger
            ∙ ap (λ (u : Ledger → Result (Unit {0}) × Ledger). balance w (u s'.ledger).1) same
            ∙ (back.1 w).0,
      )

  -- After a block, other than the genesis block, that was executed with success, RollbackBlock
  -- returns, and gives every wallet the balance that it had before the block; the balances before,
  -- the amounts and the fees were uint64_t.
  pub rollback_block-execute_block :
      (stale' : Transaction → ℕ) (txdb' : Dict ℕ) (s s' : Exec)
      → IsBounded s.ledger
      → execute_block prims stale block_id ts txdb fee s ≡ (ok success, s')
      → ((rollback_block prims stale' unset ts (s'.ledger, txdb')).0 ≡ ok tt)
        × ((w : ℕ)
            → balance w (rollback_block prims stale' unset ts (s'.ledger, txdb')).1.0
              ≡ balance w s.ledger)
  rollback_block-execute_block stale' txdb' s s' = rollback_block_of ts stale' txdb' s s' refl

reverse-map : {A B : Type 0} (f : A → B) (xs : List A) → reverse (map f xs) ≡ map f (reverse xs)
reverse-map f [] = refl
reverse-map f (x ∷ xs) =
    reverse-cons (f x) (map f xs)
    ∙ ap (λ ys. ys ++ f x ∷ []) (reverse-map f xs)
    ∙ sym (map-append f (reverse xs) (x ∷ []))
    ∙ ap (map f) (sym (reverse-cons x xs))

module _ (stale : Transaction → ℕ) (memory : TransactionInfo → Transaction) where
  rollback_ledger-reopened :
      (t : Transaction) (miner : ℕ)
      → rollback_ledger
          (copy stale (copy stale (transaction_from_info (memory (serialize t)) (serialize t))))
          miner
        ≡ rollback_ledger t miner
  unfolding rollback_ledger copy transaction_from_info serialize
  rollback_ledger-reopened t miner = elim (Bool-cases t.is_transaction_fee) [
    | inl e ↦ rw e refl
    | inr e ↦ rw e refl
  ]

  -- The transactions of a block that is read back of the store.
  abbrev pub reopened_all : List Transaction → List Transaction
  reopened_all ts =
      map (copy stale)
        (map (λ t. copy stale (transaction_from_info (memory t) t)) (map serialize ts))

  revert_all-reopened :
      (ts : List Transaction) (miner : ℕ) → revert_all (reopened_all ts) miner ≡ revert_all ts miner
  unfolding revert_all
  revert_all-reopened [] miner = refl
  revert_all-reopened (t ∷ ts) miner =
      rw (rollback_ledger-reopened t miner, revert_all-reopened ts miner) refl

  find_miner-reopened :
      (unset : ℕ) (ts : List Transaction) → find_miner unset (reopened_all ts) ≡ find_miner unset ts
  unfolding find_miner copy transaction_from_info serialize
  find_miner-reopened unset [] = refl
  find_miner-reopened unset (t ∷ ts) = ground (arith, find_miner-reopened unset ts)

  reverse-reopened : (ts : List Transaction) → reverse (reopened_all ts) ≡ reopened_all (reverse ts)
  reverse-reopened ts =
      let opened = λ (t : TransactionInfo). copy stale (transaction_from_info (memory t) t) in
      reverse-map (copy stale) (map opened (map serialize ts))
      ∙ ap (map (copy stale))
          (reverse-map opened (map serialize ts) ∙ ap (map opened) (reverse-map serialize ts))

  -- RollbackBlock makes the same calls for a block that is read back of the store.
  pub revert_all-reverse_reopened :
      (unset : ℕ) (ts : List Transaction)
      → revert_all (reverse (reopened_all ts)) (find_miner unset (reopened_all ts))
        ≡ revert_all (reverse ts) (find_miner unset ts)
  revert_all-reverse_reopened unset ts =
      rw (find_miner-reopened unset ts, reverse-reopened ts)
        (revert_all-reopened (reverse ts) (find_miner unset ts))
