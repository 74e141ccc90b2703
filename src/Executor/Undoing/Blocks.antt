-- ===== src/Executor/Undoing/Blocks.antt =====
-- Executor::RollbackBlock after ExecuteBlock: the transactions of a block, taken back from the last to
-- the first.
use mathlib.Core.Path.{fun_ext}
use mathlib.Core.List.{reverse, reverse-cons}
use pandanite_node.Common.{
  ℕ, ◌≡◌, ◌≢◌, not, ◌&&◌, List, [], ◌∷◌, ◌++◌, All, refl, sym, subst, ap, ◌∙◌, ◌==◌, if◌then◌else◌,
}
use pandanite_node.Common.Dict.{Dict}
use pandanite_node.Common.State.{Action, Result, ok, throws, Returns, resume, ◌>>=◌, ◌>>◌, pure}
use pandanite_node.Crypto.{Primitives}
use pandanite_node.Transaction.{Transaction, copy, signature_valid}
use pandanite_node.TxStore.{remove_transaction}
use pandanite_node.Ledger.{Ledger}
use pandanite_node.Executor.{
  Exec, ExecutionStatus, success, invalid_signature, update_ledger, rollback_ledger,
  rollback_transactions,
}
use pandanite_node.Executor.Block.{go_on, execute_one, execute_transactions}
use pandanite_node.Executor.Supply.{InRange}
use pandanite_node.Executor.Undoing.{Undone, Undoable, IsSuccess, Returns-bind}
use pandanite_node.Executor.Undoing.Transfers.{
  >>_assoc, pure-Undoable, Undoable-if, refused-Undoable, update_ledger-Undoable,
}

status_bind :
    (rest : Action Exec ExecutionStatus) (u v : Action Ledger (Unit {0})) (before : Ledger)
    (status : ExecutionStatus) (s : Exec)
    → (IsSuccess status → Undone u before s)
    → Undoable IsSuccess rest v
    → Returns
        (λ a s'. IsSuccess a → Undone (v >> u) before s')
        (go_on status rest s).0
        (go_on status rest s).1
status_bind rest u v before success s h hk =
    Returns-bind IsSuccess u v before s.ledger (rest s).0 (rest s).1 (h refl).1 (hk s (h refl).0)
status_bind rest u v before status s h hk = λ e. cc

go_on-Undoable :
    (m rest : Action Exec ExecutionStatus) (u v : Action Ledger (Unit {0}))
    → Undoable IsSuccess m u
    → Undoable IsSuccess rest v
    → Undoable IsSuccess (m >>= λ status. go_on status rest) (v >> u)
go_on-Undoable m rest u v hm hk s b = go (m s).0 (m s).1 (hm s b)
  where
    go :
        (r : Result ExecutionStatus) (s' : Exec)
        → Returns (λ a s'. IsSuccess a → Undone u s.ledger s') r s'
        → Returns
            (λ a s'. IsSuccess a → Undone (v >> u) s.ledger s')
            (resume (λ status. go_on status rest) r s').0
            (resume (λ status. go_on status rest) r s').1
    go (ok status) s' h = status_bind rest u v s.ledger status s' h hk
    go (throws e) s' h = tt

-- rollbackLedger for each of some transactions.
unfoldable pub revert_all : List Transaction → ℕ → Action Ledger (Unit {0})
revert_all [] miner = pure tt
revert_all (t ∷ ts) miner = rollback_ledger t miner >> revert_all ts miner

then_nothing : (r : Result (Unit {0})) (l : Ledger) → (r, l) ≡ resume (λ _. pure tt) r l
then_nothing (ok _) l = refl
then_nothing (throws e) l = refl

pub revert_all-append :
    (ts : List Transaction) (t : Transaction) (miner : ℕ)
    → (revert_all ts miner >> rollback_ledger t miner) ≡ revert_all (ts ++ t ∷ []) miner
unfolding revert_all
revert_all-append [] t miner = fun_ext (λ l. then_nothing (rollback_ledger t miner l).0 _)
revert_all-append (x ∷ ts) t miner =
    >>_assoc (rollback_ledger x miner) (revert_all ts miner) (rollback_ledger t miner)
    ∙ ap (λ (u : Action Ledger (Unit {0})). rollback_ledger x miner >> u)
        (revert_all-append ts t miner)

pub rollback_transactions-revert_all :
    (prims : Primitives) (stale : Transaction → ℕ) (ts : List Transaction) (miner : ℕ) (l : Ledger)
    (txdb : Dict ℕ)
    → ((rollback_transactions prims stale ts miner (l, txdb)).0 ≡ (revert_all ts miner l).0)
      × ((rollback_transactions prims stale ts miner (l, txdb)).1.0 ≡ (revert_all ts miner l).1)
unfolding rollback_transactions revert_all
rollback_transactions-revert_all prims stale [] miner l txdb = (refl, refl)
rollback_transactions-revert_all prims stale (t ∷ ts) miner l txdb =
    go (rollback_ledger t miner l).0 (rollback_ledger t miner l).1
      (rollback_transactions-revert_all prims stale ts miner)
  where
    go :
        (r : Result (Unit {0})) (l' : Ledger)
        → ((l : Ledger) (txdb : Dict ℕ)
            → ((rollback_transactions prims stale ts miner (l, txdb)).0 ≡ (revert_all ts miner l).0)
              × ((rollback_transactions prims stale ts miner (l, txdb)).1.0
                  ≡ (revert_all ts miner l).1))
        → (let o : Result (Unit {0}) × (Ledger × Dict ℕ) = elim r [
          | Result.ok _ ↦ rollback_transactions prims stale ts miner (
            l',
            if t.is_transaction_fee then txdb else remove_transaction prims (copy stale t) txdb,
          )
          | Result.throws e ↦ (Result.throws e, (l', txdb))
        ] in
            (o.0 ≡ (resume (λ _. revert_all ts miner) r l').0)
            × (o.1.0 ≡ (resume (λ _. revert_all ts miner) r l').1))
    go (ok _) l' ih = ih l' _
    go (throws e) l' ih = (refl, refl)

module _ (prims : Primitives) (stale : Transaction → ℕ) (block_id : ℕ) (ne : block_id ≢ 1)
    (miner fee : ℕ) where
  pub execute_transactions-Undoable :
      (ts : List Transaction)
      → All InRange ts
      → Undoable IsSuccess
          (execute_transactions prims stale block_id ts miner fee)
          (revert_all (reverse ts) miner)
  unfolding execute_transactions execute_one copy revert_all rollback_ledger
  execute_transactions-Undoable [] r = pure-Undoable IsSuccess success
  execute_transactions-Undoable (t ∷ ts) r =
      let t' = copy stale t in
      let one : Undoable IsSuccess (execute_one prims stale block_id t' miner fee)
          (rollback_ledger t' miner) =
        Undoable-if IsSuccess (pure invalid_signature) (update_ledger prims t' miner fee block_id)
          (rollback_ledger t' miner)
          (not t'.is_transaction_fee && (not (signature_valid prims t') && not (block_id == 1)))
          (λ _. refused-Undoable invalid_signature (rollback_ledger t' miner) (λ e. cc))
          (λ _.
            update_ledger-Undoable prims t'
              (record { amount_bound = r.0.amount_bound; fee_bound = r.0.fee_bound }) miner fee
              block_id ne) in
      subst
        (λ u. Undoable IsSuccess (execute_transactions prims stale block_id (t ∷ ts) miner fee) u)
        (revert_all-append (reverse ts) t miner
          ∙ ap (λ xs. revert_all xs miner) (sym (reverse-cons t ts)))
        (go_on-Undoable (execute_one prims stale block_id t' miner fee)
          (execute_transactions prims stale block_id ts miner fee) (rollback_ledger t' miner)
          (revert_all (reverse ts) miner) one (execute_transactions-Undoable ts r.1))
