-- ===== src/Blockchain/Adding/Committed.antt =====
-- What BlockChain::addBlock has done when it returns success: it has executed the block, and put it on
-- top of the chain.
use pandanite_node.Common.{
  ℕ, ◌+◌, ◌≡◌, true, false, none, some, Option, List, refl, sym, subst, arith, Option-cases,
  Bool-cases, inl, inr, ◌==◌, Bool,
}
use pandanite_node.Common.State.{Result, ok, throws}
use pandanite_node.Crypto.{Primitives}
use pandanite_node.Transaction.{Transaction}
use pandanite_node.Transaction.Buffer.{TransactionInfo}
use pandanite_node.Block.{Block}
use pandanite_node.Executor.{Exec, ExecutionStatus, success, rollback}
use pandanite_node.Executor.Block.{execute_block}
use pandanite_node.Executor.Deltas.{start}
use pandanite_node.Mempool.{MemPool}
use pandanite_node.MerkleTree.{set_items}
use pandanite_node.MiningFee.{Doubles, get_current_mining_fee}
use pandanite_node.HeaderChain.{Work}
use pandanite_node.Blockchain.{BlockChain}
use pandanite_node.Blockchain.Adding.{
  header_status, commit, after_block, execute_sorted, after_age, add_block, is_too_old,
}
use pandanite_node.Blockchain.Adding.Extending.{
  answer_other, header_status-other, header_status-passed, add_block-passed,
}

module _ {W D : Type 0} (stale : Transaction → ℕ) (memory : TransactionInfo → Transaction)
    (prims : Primitives) (work : Work W) (doubles : Doubles D) (b : Block) (c : BlockChain W)
    (p : Option MemPool) where
  -- The transactions in the order in which they are executed.
  abbrev pub sorted : List Transaction
  sorted = (set_items prims stale b.transactions).0

  -- The chain when the block has been executed.
  abbrev pub executed : Exec → BlockChain W
  executed s = record c { ledger = s.ledger; invalid_transactions = s.invalid_transactions }

  -- The block was executed to `s`, and `o` is what putting it on top gives.
  pub record Committed (o : Result ExecutionStatus × (BlockChain W × Option MemPool)) : Type 0 where
    pub run : Exec
    pub ran :
        execute_block prims stale b.id sorted c.txdb
          (get_current_mining_fee doubles b.id)
          (start c.ledger c.invalid_transactions)
        ≡ (ok success, run)
    pub put :
        o
        ≡ commit stale memory prims work doubles
            (record b { transactions = sorted })
            (executed run, p)

  after_block-Committed :
      (r : Result ExecutionStatus) (s : Exec)
      → execute_block prims stale b.id sorted c.txdb
          (get_current_mining_fee doubles b.id)
          (start c.ledger c.invalid_transactions)
        ≡ (r, s)
      → let o =
          after_block stale memory prims work doubles
            (record b { transactions = sorted })
            r
            s
            (c, p) in
        o.0 ≡ ok success → Committed o
  unfolding after_block
  after_block-Committed (throws e) s ran h = cc
  after_block-Committed (ok success) s ran h = record { run = s; ran = ran; put = refl }
  after_block-Committed (ok status) s ran h = absurd (
      answer_other stale memory prims work doubles status (λ e. cc) (rollback s.deltas s.ledger).0
        h)

  execute_sorted-Committed :
      (root : Option ℕ)
      → let o = execute_sorted stale memory prims work doubles b sorted root (c, p) in
        o.0 ≡ ok success → Committed o
  unfolding execute_sorted
  execute_sorted-Committed none h = cc
  execute_sorted-Committed (some root) h = elim (Bool-cases (b.merkle_root == root)) [
    | inr wrong ↦ absurd (ground (arith, h, wrong))
    | inl right ↦
        let o =
          execute_block prims stale b.id sorted c.txdb (get_current_mining_fee doubles b.id)
            (start c.ledger c.invalid_transactions) in
        rw right (after_block-Committed o.0 o.1 refl (rw right at h))
  ]

  after_age-Committed :
      (r : Result Bool)
      → let o = after_age stale memory prims work doubles b r (c, p) in
        o.0 ≡ ok success → Committed o
  unfolding after_age
  after_age-Committed (throws e) h = cc
  after_age-Committed (ok true) h = cc
  after_age-Committed (ok false) h =
      execute_sorted-Committed (set_items prims stale b.transactions).1 h

  pub add_block-Committed :
      (network_time : ℕ)
      → let o = add_block stale memory prims work doubles network_time b (c, p) in
        o.0 ≡ ok success → (b.id ≡ c.num_blocks + 1) × Committed o
  unfolding add_block
  add_block-Committed network_time h =
      elim (Option-cases (header_status stale memory prims network_time b c)) [
        | inr (status, e) ↦ absurd (
            header_status-other stale memory prims work doubles network_time b c
              (ground (arith, h, e)))
        | inl e ↦
            let done = add_block-passed stale memory prims work doubles network_time b c p e in
            let age = is_too_old stale memory prims b c in
            (
              (header_status-passed stale memory prims work doubles network_time b c e).0,
              subst Committed (sym done)
                  (after_age-Committed age.0 (subst (λ r. r.0 ≡ ok success) done h)),
            )
      ]
