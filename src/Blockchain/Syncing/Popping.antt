-- ===== src/Blockchain/Syncing/Popping.antt =====
-- server/blockchain.cpp: popBlock after addBlock.
use pandanite_node.Common.{
  ℕ, ◌+◌, ◌<◌, ◌≡◌, Bool, true, ltb, Option, refl, sym, ap, ◌∙◌, subst, arith, All,
}
use pandanite_node.Common.Dict.{Dict}
use pandanite_node.Common.State.{
  Result, ok, throws, Outcome, returns, after, Settles, Settles-after,
}
use pandanite_node.Crypto.{Primitives}
use pandanite_node.Transaction.{Transaction}
use pandanite_node.Transaction.Buffer.{TransactionInfo}
use pandanite_node.Block.{Block, block_from_header}
use pandanite_node.Block
use pandanite_node.Ledger.{Ledger}
use pandanite_node.Ledger.Methods.{balance, IsBounded}
use pandanite_node.Executor.{rollback_block, success}
use pandanite_node.Executor.Deltas.{start}
use pandanite_node.Executor.Supply.{InRange, InRange-copy}
use pandanite_node.Executor.Undoing.Restored.{rollback_block_of, revert_all-reverse_reopened}
use pandanite_node.MerkleTree.Order.{set_items-All}
use pandanite_node.Mempool.{MemPool}
use pandanite_node.MiningFee.{Doubles, get_current_mining_fee}
use pandanite_node.HeaderChain.{Work}
use pandanite_node.Blockchain.{BlockChain, get_block, update_difficulty}
use pandanite_node.Blockchain.Adding.{put_block, commit, add_block}
use pandanite_node.Blockchain.Adding.Committed.{sorted, executed, add_block-Committed}
use pandanite_node.Blockchain.Adding.Extending.{get_block-state, update_difficulty-Top}
use pandanite_node.Blockchain.Syncing.{
  Removal, State, on_chain, after_pop, pop_rolled_back, pop_block, without, new_top,
}
use pandanite_node.Blockchain.Syncing.Restart.{
  update_difficulty-Others, read_back, get_block-put_block,
}

module _ {W D : Type 0} (stale : Transaction → ℕ) (memory : TransactionInfo → Transaction)
    (prims : Primitives) (work : Work W) (doubles : Doubles D) (removal : Removal W) (unset : ℕ)
    (held : Bool) (time : ℕ) (genesis : Option Block) where
  -- A chain of so many blocks and so much work, on which the wallets hold what they hold in `base`.
  abbrev pub Has : ℕ → W → Ledger → State W → Type 0
  Has n w base s =
      (s.0.num_blocks ≡ n)
      × (s.0.total_work ≡ w)
      × ((wallet : ℕ) → balance wallet s.0.ledger ≡ balance wallet base)

  get_block-Has :
      (n : ℕ) (w : W) (base : Ledger) (i : ℕ) (s : State W)
      → Has n w base s
      → Settles (Has n w base) (on_chain (get_block stale memory i) s)
  get_block-Has n w base i (c, p) h =
      subst (λ c'. Has n w base (c', p)) (sym (get_block-state stale memory prims work doubles i c))
        h

  update_difficulty-Has :
      (n : ℕ) (w : W) (base : Ledger) (s : State W)
      → Has n w base s
      → Settles (Has n w base) (on_chain (update_difficulty stale memory) s)
  update_difficulty-Has n w base (c, p) h =
      subst (λ c'. Has n w base (c', p))
        (sym (update_difficulty-Others stale memory prims work doubles c)) h

  after_pop-Has :
      (n : ℕ) (w : W) (base : Ledger) (s : State W)
      → 1 < n
      → Has n w base s
      → Settles
          (Has n w base)
          (after_pop stale memory prims work doubles removal unset held time genesis s)
  unfolding after_pop
  after_pop-Has n w base s many h =
      let test : ltb 1 s.0.num_blocks ≡ true = ground (arith, h.0) in
      rw test (
        Settles-after (Has n w base) (Has n w base) _ (λ s h. h)
          (λ last s' h'.
            Settles-after (Has n w base) (Has n w base)
              (new_top stale memory prims work doubles removal unset last) (λ s h. h) (λ u s h. h)
              (on_chain (update_difficulty stale memory) s') (update_difficulty-Has n w base s' h'))
          (on_chain (get_block stale memory s.0.num_blocks) s)
          (get_block-Has n w base s.0.num_blocks s h))

  rolled-Has :
      (n : ℕ) (w : W) (base : Ledger) (last : Block) (s : State W)
      → 1 < n
      → Has (n + 1) w base s
      → (r : Result (Unit {0})) → r ≡ ok tt
      → Settles (Has n (removal.remove_work w last.difficulty) base) (elim r [
        | ok x ↦
            after_pop stale memory prims work doubles removal unset held time genesis
              (without stale memory prims work doubles removal unset last s.0, s.1)
        | throws e ↦ returns (throws e) s
      ])
  rolled-Has n w base last s many h (throws e) returned = absurd (cc)
  rolled-Has n w base last s many h (ok x) returned =
      after_pop-Has n (removal.remove_work w last.difficulty) base _ many
        (omega (arith, h.0), ap (λ v. removal.remove_work v last.difficulty) h.1, h.2)

  pop_block-Has :
      (n : ℕ) (w : W) (base : Ledger) (last : Block) (s : State W)
      → 1 < n
      → s.0.num_blocks ≡ n + 1
      → s.0.total_work ≡ w
      → (get_block stale memory s.0.num_blocks s.0).0 ≡ ok last
      → let o = rollback_block prims stale unset last.transactions (s.0.ledger, s.0.txdb) in
        (o.0 ≡ ok tt) × ((wallet : ℕ) → balance wallet o.1.0 ≡ balance wallet base)
        → Settles
            (Has n (removal.remove_work w last.difficulty) base)
            (pop_block stale memory prims work doubles removal unset held time genesis s)
  unfolding pop_block pop_rolled_back
  pop_block-Has n w base last (c, p) many blocks worked e rolled =
      let same = get_block-state stale memory prims work doubles c.num_blocks c in
      let opened : on_chain (get_block stale memory c.num_blocks) (c, p)
          ≡ returns (ok last) (c, p) =
        ap {B = Outcome (State W) Block}
          (λ r. returns r ((get_block stale memory c.num_blocks c).1, p)) e
        ∙ ap {B = Outcome (State W) Block} (λ x. returns (ok last) (x, p)) same in
      let (r, (ledger, txdb)) =
        rollback_block prims stale unset last.transactions (c.ledger, c.txdb) in
      subst
        (λ o. Settles (Has n (removal.remove_work w last.difficulty) base) (
          after (pop_rolled_back stale memory prims work doubles removal unset held time genesis)
            o))
        (sym opened)
        (rolled-Has n w base last (record c { ledger = ledger; txdb = txdb }, p) many
          (blocks, worked, rolled.1) r rolled.0)

  get_block-top :
      (b : Block) (c : BlockChain W) (difficulty : ℕ)
      → b.id ≡ c.num_blocks + 1
      → (get_block stale memory b.id
          (record (put_block stale memory prims work doubles b c) { difficulty = difficulty })).0
        ≡ ok (read_back stale memory prims work doubles b)
  unfolding get_block put_block
  get_block-top b c difficulty next =
      ground (arith, next, get_block-put_block stale memory prims work doubles b c)

  module _ (b : Block) (c : BlockChain W) (p : Option MemPool) (base : Ledger)
      (undo : (w : W) (difficulty : ℕ)
        → removal.remove_work (work.add_work w difficulty) difficulty ≡ w)
      (many : 1 < c.num_blocks) (next : b.id ≡ c.num_blocks + 1) where
    pop_block-commit :
        ((txdb : Dict ℕ)
          → let o =
              rollback_block prims stale unset
                (read_back stale memory prims work doubles b).transactions
                (c.ledger, txdb) in
            (o.0 ≡ ok tt) × ((wallet : ℕ) → balance wallet o.1.0 ≡ balance wallet base))
        → Settles (Has c.num_blocks c.total_work base) (
            pop_block stale memory prims work doubles removal unset held time genesis
              (commit stale memory prims work doubles b (c, p)).1)
    unfolding commit put_block Block.serialize block_from_header
    pop_block-commit rolled =
        let put = put_block stale memory prims work doubles b c in
        let c' = (update_difficulty stale memory put).1 in
        let added = work.add_work c.total_work b.difficulty in
        let back = read_back stale memory prims work doubles b in
        let same : record put { difficulty = c'.difficulty } ≡ c' =
          ap {A = BlockChain W} {B = BlockChain W} (λ x. record x { difficulty = c'.difficulty })
            (sym (update_difficulty-Others stale memory prims work doubles put)) in
        let top =
          update_difficulty-Top stale memory prims work doubles (c.num_blocks + 1)
            (Block.get_hash prims b) added put (refl, (refl, refl)) in
        let read =
          subst (λ x. (get_block stale memory b.id x).0 ≡ ok back) same
            (get_block-top b c c'.difficulty next) in
        let last = subst (λ i. (get_block stale memory i c').0 ≡ ok back) (next ∙ sym top.0) read in
        let q = (commit stale memory prims work doubles b (c, p)).1.1 in
        let taken =
          subst
            (λ (x : BlockChain W).
              let o = rollback_block prims stale unset back.transactions (x.ledger, x.txdb) in
              (o.0 ≡ ok tt) × ((wallet : ℕ) → balance wallet o.1.0 ≡ balance wallet base))
            same (rolled put.txdb) in
        subst
          (λ w.
            Settles (Has c.num_blocks w base)
              (pop_block stale memory prims work doubles removal unset held time genesis (c', q)))
          (undo c.total_work b.difficulty)
          (pop_block-Has c.num_blocks added base back (c', q) many top.0 top.1.1 last taken)

  -- A block that addBlock accepts is undone by popBlock, however popBlock ends: the length of the
  -- chain, its work and the balance of every wallet are what they were before the block. The chain
  -- had more than one block, the transactions come in the range of uint64_t, like the balances, and
  -- removing the work of a block undoes adding it.
  pub pop_block-add_block :
      (network_time : ℕ) (b : Block) (c : BlockChain W) (p : Option MemPool)
      → ((w : W) (difficulty : ℕ) → removal.remove_work (work.add_work w difficulty) difficulty ≡ w)
      → 1 < c.num_blocks
      → IsBounded c.ledger
      → All InRange b.transactions
      → (add_block stale memory prims work doubles network_time b (c, p)).0 ≡ ok success
      → Settles (Has c.num_blocks c.total_work c.ledger) (
          pop_block stale memory prims work doubles removal unset held time genesis
            (add_block stale memory prims work doubles network_time b (c, p)).1)
  unfolding Block.serialize block_from_header
  pop_block-add_block network_time b c p undo many bounded r h =
      let (next, done) = add_block-Committed stale memory prims work doubles b c p network_time h in
      let ts = sorted stale memory prims work doubles b c p in
      let s = done.run in
      let rolled = λ (txdb : Dict ℕ).
        rollback_block_of prims stale b.id unset (ground (arith, next, many)) ts
          (set_items-All prims stale InRange (InRange-copy stale) b.transactions r) c.txdb
          (get_current_mining_fee doubles b.id) _ stale txdb (start c.ledger c.invalid_transactions)
          s (revert_all-reverse_reopened stale memory unset ts) bounded done.ran in
      subst
        (λ o.
          Settles (Has c.num_blocks c.total_work c.ledger)
            (pop_block stale memory prims work doubles removal unset held time genesis o.1))
        (sym done.put)
        (pop_block-commit (record b { transactions = ts })
          (executed stale memory prims work doubles b c p s) p c.ledger undo many next rolled)
