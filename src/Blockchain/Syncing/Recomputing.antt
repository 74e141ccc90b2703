-- ===== src/Blockchain/Syncing/Recomputing.antt =====
-- server/blockchain.cpp: recomputeLedger, which executes the blocks of the store again.
use pandanite_node.Common.{
  ℕ, zero, suc, ◌+◌, ◌≡◌, Bool, true, false, List, [], ◌∷◌, if◌then◌else◌, refl, sym, subst, arith,
}
use pandanite_node.Common.Dict.{Dict}
use pandanite_node.Common.State.{
  Result, ok, throws, Outcome, returns, exits, after, under_lock, EndsIn, EndsIn-after,
}
use pandanite_node.Crypto.{Primitives}
use pandanite_node.Transaction.{Transaction, copy}
use pandanite_node.Transaction.Buffer.{TransactionInfo}
use pandanite_node.TxStore.{insert_transaction}
use pandanite_node.Block.{Block}
use pandanite_node.Ledger
use pandanite_node.Executor.{Exec, ExecutionStatus, success}
use pandanite_node.Executor.Block.{execute_block}
use pandanite_node.MiningFee.{Doubles, get_current_mining_fee}
use pandanite_node.Blockchain.{BlockChain, get_block}
use pandanite_node.Blockchain.Syncing.{State, on_chain, set_syncing}

module _ (stale : Transaction → ℕ) (prims : Primitives) where
  -- The loop puts copies of the payments into the store, and not the mining fee.
  unfoldable pub insert_payments : ℕ → List Transaction → Dict ℕ → Dict ℕ
  insert_payments id [] txdb = txdb
  insert_payments id (t ∷ ts) txdb =
      insert_payments id ts
        (if t.is_transaction_fee then txdb else insert_transaction prims (copy stale t) id txdb)

module _ {W D : Type 0} (stale : Transaction → ℕ) (memory : TransactionInfo → Transaction)
    (prims : Primitives) (doubles : Doubles D) where
  -- What the execution of a block leaves of the chain, and what follows it.
  abbrev executed : Exec → BlockChain W → BlockChain W
  executed s c = record c { ledger = s.ledger; invalid_transactions = s.invalid_transactions }

  abbrev pub after_execute_block :
      Block → Result ExecutionStatus → Exec → State W → Outcome (State W) (Unit {0})
  after_execute_block b (throws e) s (c, p) = returns (throws e) (executed s c, p)
  after_execute_block b (ok success) s (c, p) =
      returns (ok tt)
        (record (executed s c) { txdb = insert_payments stale prims b.id b.transactions c.txdb }, p)
  after_execute_block b (ok status) s (c, p) = exits

  -- A round of the loop, for the block with the id `i`.
  unfoldable pub execute_again : ℕ → Block → State W → Outcome (State W) (Unit {0})
  unfolding insert_payments
  execute_again i b (c, p) =
      let (r, s) =
        execute_block prims stale b.id b.transactions c.txdb (get_current_mining_fee doubles i)
          (record {
            ledger = c.ledger;
            deltas = [];
            invalid_transactions = c.invalid_transactions;
          }) in
      after_execute_block b r s (c, p)

  -- From an id on for so many rounds.
  unfoldable pub execute_all : ℕ → ℕ → State W → Outcome (State W) (Unit {0})
  unfolding execute_again
  execute_all zero i s = returns (ok tt) s
  execute_all (suc n) i s =
      after (λ u s'. execute_all n (i + 1) s')
        (after (execute_again i) (on_chain (get_block stale memory i) s))

  abbrev cleared : State W → State W
  cleared (c, p) = (record c { ledger = Ledger.clear c.ledger; txdb = [] }, p)

  abbrev synced : Unit {0} → State W → Outcome (State W) (Unit {0})
  synced u s = returns (ok tt) (set_syncing false s)

  unfoldable pub recompute_ledger : Bool → State W → Outcome (State W) (Unit {0})
  unfolding execute_all
  recompute_ledger held s =
      under_lock held (λ s'. after synced (execute_all s'.0.num_blocks 1 (cleared s')))
        (set_syncing true s)

  -- The members of a chain that are not computed again.
  pub record Kept (c : BlockChain W) (s : State W) : Type 0 where
    pub num_blocks : s.0.num_blocks ≡ c.num_blocks
    pub total_work : s.0.total_work ≡ c.total_work
    pub difficulty : s.0.difficulty ≡ c.difficulty
    pub last_hash : s.0.last_hash ≡ c.last_hash
    pub block_store : s.0.block_store ≡ c.block_store

  after_execute_block-Kept :
      (c : BlockChain W) (b : Block) (r : Result ExecutionStatus) (e : Exec) (s : State W)
      → Kept c s
      → EndsIn (Kept c) (after_execute_block b r e s)
  after_execute_block-Kept c b (throws x) e s h = record {
    num_blocks = h.num_blocks;
    total_work = h.total_work;
    difficulty = h.difficulty;
    last_hash = h.last_hash;
    block_store = h.block_store;
  }
  after_execute_block-Kept c b (ok success) e s h = record {
    num_blocks = h.num_blocks;
    total_work = h.total_work;
    difficulty = h.difficulty;
    last_hash = h.last_hash;
    block_store = h.block_store;
  }
  after_execute_block-Kept c b (ok status) e s h = tt

  get_block-same : (i : ℕ) (c : BlockChain W) → (get_block stale memory i c).1 ≡ c
  unfolding get_block
  get_block-same i c = ground arith

  execute_again-Kept :
      (c : BlockChain W) (i : ℕ) (b : Block) (s : State W)
      → Kept c s
      → EndsIn (Kept c) (execute_again i b s)
  unfolding execute_again
  execute_again-Kept c i b (c', p) h = after_execute_block-Kept c b _ _ (c', p) h

  get_block-Kept :
      (c : BlockChain W) (i : ℕ) (s : State W)
      → Kept c s
      → EndsIn (Kept c) (on_chain (get_block stale memory i) s)
  get_block-Kept c i (c', p) h = subst (λ x. Kept c (x, p)) (sym (get_block-same i c')) h

  execute_all-Kept :
      (c : BlockChain W) (n i : ℕ) (s : State W) → Kept c s → EndsIn (Kept c) (execute_all n i s)
  unfolding execute_all
  execute_all-Kept c zero i s h = h
  execute_all-Kept c (suc n) i s h =
      EndsIn-after (Kept c) (Kept c) _ (λ s h. h) (λ u s' h'. execute_all-Kept c n (i + 1) s' h')
        (after (execute_again i) (on_chain (get_block stale memory i) s))
        (EndsIn-after (Kept c) (Kept c) (execute_again i) (λ s h. h) (execute_again-Kept c i)
          (on_chain (get_block stale memory i) s) (get_block-Kept c i s h))

  -- Computing the ledger again leaves the chain as it is: its length, work, difficulty and last hash, and
  -- the stored blocks, also where the execution of a block throws.
  pub recompute_ledger-Kept : (s : State W) → EndsIn (Kept s.0) (recompute_ledger false s)
  unfolding recompute_ledger
  recompute_ledger-Kept (c, p) =
      EndsIn-after (Kept c) (Kept c) synced (λ s h. h)
        (λ u s h. record {
          num_blocks = h.num_blocks;
          total_work = h.total_work;
          difficulty = h.difficulty;
          last_hash = h.last_hash;
          block_store = h.block_store;
        })
        _
        (execute_all-Kept c c.num_blocks 1 _ (record {
          num_blocks = refl;
          total_work = refl;
          difficulty = refl;
          last_hash = refl;
          block_store = refl;
        }))
