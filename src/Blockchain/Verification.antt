-- ===== src/Blockchain/Verification.antt =====
-- BlockChain::verifyTransaction, and the transactions that it can verify.
use pandanite_node.Common.{ℕ, ◌<◌, ◌≢◌, arith}
use pandanite_node.Crypto.{Primitives}
use pandanite_node.Transaction.{Transaction, copy}
use pandanite_node.Ledger.Methods.{balance, IsBounded}
use pandanite_node.Executor.{Exec, ExecutionStatus, success, execute_transaction, rollback}
use pandanite_node.Executor.Deltas.{start, execute_transaction-Tracks}
use pandanite_node.Executor.Rollback.{Throws, Tracks-Throws}
use pandanite_node.Blockchain.{BlockChain, verify_transaction, after_execution, after_rollback}
use pandanite_node.Common.State.{Result, ok, throws}

module _ {W : Type 0} (stale : Transaction → ℕ) (prims : Primitives) (t : Transaction) where
  after_rollback-Throws :
      (status : ExecutionStatus) (r : Result (Unit {0})) (c : BlockChain W)
      → Throws r
      → (after_rollback stale prims t status r c).0 ≢ ok success
  after_rollback-Throws status (ok _) c h = absurd h
  after_rollback-Throws status (throws e) c h = λ e. cc

  after_execution-Throws :
      (r : Result ExecutionStatus) (s : Exec) (c : BlockChain W)
      → Throws (rollback s.deltas s.ledger).0
      → (after_execution stale prims t r s c).0 ≢ ok success
  after_execution-Throws (throws e) s c h = λ e. cc
  after_execution-Throws (ok status) s c h = after_rollback-Throws status _ _ h

  -- A transaction whose execution on the chain's ledger leaves some wallet with less than it has is
  -- never verified, provided that the balances of the ledger are uint64_t.
  pub verify_transaction-refused :
      (c : BlockChain W) (w : ℕ)
      → IsBounded c.ledger
      → balance w
          (execute_transaction prims
            (copy stale t)
            (start c.ledger c.invalid_transactions)).1.ledger
        < balance w c.ledger
      → (verify_transaction stale prims t c).0 ≢ ok success
  unfolding verify_transaction
  verify_transaction-refused c w bounded less =
      let began = start c.ledger c.invalid_transactions in
      ground (
        arith,
        after_execution-Throws (execute_transaction prims (copy stale t) began).0
            (execute_transaction prims (copy stale t) began).1 c
            (Tracks-Throws c.ledger (execute_transaction prims (copy stale t) began).1 w bounded
              (execute_transaction-Tracks prims c.ledger (copy stale t) c.invalid_transactions
                bounded)
              less),
      )
