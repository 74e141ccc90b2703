-- ===== src/Blockchain/Syncing/Blocking.antt =====
-- server/blockchain.cpp: what becomes of the calls that lock the chain's mutex while they hold it.
use pandanite_node.Common.{
  ℕ, zero, suc, ◌+◌, ◌-◌, ◌≤◌, ◌≡◌, true, false, ◌==◌, ltb, Option, none, some, List, [], ◌∷◌, min,
  refl, sym, subst, arith,
}
use pandanite_node.Common.Int.{ℤ}
use pandanite_node.Common.State.{
  Result, ok, throws, Outcome, returns, waits, after, EndsIn, EndsIn-after, EndsIn-if,
}
use pandanite_node.Crypto.{Primitives}
use pandanite_node.Transaction.{Transaction}
use pandanite_node.Transaction.Buffer.{TransactionInfo}
use pandanite_node.Block.{Block}
use pandanite_node.Executor.{ExecutionStatus, success, unknown_error, rollback_block}
use pandanite_node.MiningFee.{Doubles}
use pandanite_node.HeaderChain.{Work}
use pandanite_node.Blockchain.{BlockChain, get_block, update_difficulty}
use pandanite_node.Blockchain.Adding.Extending.{get_block-state, update_difficulty-Top}
use pandanite_node.HostManager.{HostManager, get_good_host, get_block_count, get_block_hash}
use pandanite_node.Blockchain.Syncing.{
  Removal, State, on_chain, add_block_locking, add_block_sync, reset_chain, after_pop,
  pop_rolled_back, pop_block, blocks_per_fetch, new_top, without,
}
use pandanite_node.Blockchain.Syncing.Starting.{
  blocks_to_pop, pop_blocks, add_blocks, caught, fetch_blocks, finish, after_count, best_host,
  heavier, start_chain_sync,
}

-- A chain with at most so many blocks.
abbrev pub AtMost : {W : Type 0} → ℕ → State W → Type 0
AtMost n s = s.0.num_blocks ≤ n

module _ {W D : Type 0} (stale : Transaction → ℕ) (memory : TransactionInfo → Transaction)
    (prims : Primitives) (work : Work W) (doubles : Doubles D) where
  -- A block that comes in from a miner or a peer, while the chain is not synchronized, is never
  -- answered: the thread waits for the mutex that it holds.
  pub add_block_sync-waits :
      (t : ℕ) (b : Block) (s : State W)
      → s.0.syncing ≡ false
      → add_block_sync stale memory prims work doubles t b s ≡ waits
  unfolding add_block_sync add_block_locking
  add_block_sync-waits t b s h = rw h refl

module _ {W D : Type 0} (stale : Transaction → ℕ) (memory : TransactionInfo → Transaction)
    (prims : Primitives) (work : Work W) (doubles : Doubles D) (removal : Removal W) (unset : ℕ)
    (time : ℕ) (genesis : Option Block) where
  get_block-AtMost :
      (n i : ℕ) (s : State W)
      → AtMost n s
      → EndsIn (AtMost n) (on_chain (get_block stale memory i) s)
  get_block-AtMost n i (c, p) h =
      subst (λ c'. c'.num_blocks ≤ n) (sym (get_block-state stale memory prims work doubles i c)) h

  update_difficulty-AtMost :
      (n : ℕ) (s : State W)
      → AtMost n s
      → EndsIn (AtMost n) (on_chain (update_difficulty stale memory) s)
  update_difficulty-AtMost n (c, p) h =
      let same =
        update_difficulty-Top stale memory prims work doubles c.num_blocks c.last_hash c.total_work
          c (refl, (refl, refl)) in
      omega (arith, same.0)

  -- A chain is never begun again by a thread that holds the mutex.
  reset_chain-EndsIn :
      (P : State W → Type 0) (g : Option Block) (s : State W)
      → EndsIn P (reset_chain stale memory prims work doubles true time g s)
  unfolding reset_chain add_block_locking
  reset_chain-EndsIn P none s = tt
  reset_chain-EndsIn P (some g) (c, p) = tt

  after_pop-AtMost :
      (n : ℕ) (s : State W)
      → AtMost n s
      → EndsIn
          (AtMost n)
          (after_pop stale memory prims work doubles removal unset true time genesis s)
  unfolding after_pop
  after_pop-AtMost n s h =
      EndsIn-if (AtMost n) (ltb 1 s.0.num_blocks) _ _
        (EndsIn-after (AtMost n) (AtMost n) _ (λ s h. h)
          (λ last s' h'.
            EndsIn-after (AtMost n) (AtMost n)
              (new_top stale memory prims work doubles removal unset last) (λ s h. h) (λ u s h. h)
              (on_chain (update_difficulty stale memory) s') (update_difficulty-AtMost n s' h'))
          (on_chain (get_block stale memory s.0.num_blocks) s)
          (get_block-AtMost n s.0.num_blocks s h))
        (reset_chain-EndsIn (AtMost n) genesis s)

  EndsIn-rolled :
      (n : ℕ) (last : Block) (s : State W)
      → AtMost n s
      → (r : Result (Unit {0}))
      → EndsIn (AtMost n) (elim r [
        | ok x ↦
            after_pop stale memory prims work doubles removal unset true time genesis
              (without stale memory prims work doubles removal unset last s.0, s.1)
        | throws e ↦ returns (throws e) s
      ])
  EndsIn-rolled n last s h (throws e) = h
  EndsIn-rolled n last s h (ok x) = after_pop-AtMost n _ (omega arith)

  pop_rolled_back-AtMost :
      (n : ℕ) (last : Block) (s : State W)
      → AtMost n s
      → EndsIn
          (AtMost n)
          (pop_rolled_back stale memory prims work doubles removal unset true time genesis last s)
  unfolding pop_rolled_back
  pop_rolled_back-AtMost n last (c, p) h =
      let (r, (ledger, txdb)) =
        rollback_block prims stale unset last.transactions (c.ledger, c.txdb) in
      let rolled = record c { ledger = ledger; txdb = txdb } in EndsIn-rolled n last (rolled, p) h r

  pop_block-AtMost :
      (n : ℕ) (s : State W)
      → AtMost n s
      → EndsIn
          (AtMost n)
          (pop_block stale memory prims work doubles removal unset true time genesis s)
  unfolding pop_block
  pop_block-AtMost n s h =
      EndsIn-after (AtMost n) (AtMost n) _ (λ s h. h) (pop_rolled_back-AtMost n)
        (on_chain (get_block stale memory s.0.num_blocks) s) (get_block-AtMost n s.0.num_blocks s h)

  pub pop_blocks-AtMost :
      (n rounds : ℕ) (s : State W)
      → AtMost n s
      → EndsIn
          (AtMost n)
          (pop_blocks stale memory prims work doubles removal unset time genesis rounds s)
  unfolding pop_blocks
  pop_blocks-AtMost n zero s h = h
  pop_blocks-AtMost n (suc rounds) s h = EndsIn-if (AtMost n) (s.0.num_blocks == 1) _ _ h (
      EndsIn-after (AtMost n) (AtMost n) _ (λ s h. h) (λ u s' h'. pop_blocks-AtMost n rounds s' h')
        _ (pop_block-AtMost n s h))

  -- No block is added: the thread waits with the first.
  add_blocks-EndsIn :
      (P : State W → Type 0) (blocks : List Block) (s : State W)
      → P s
      → EndsIn P (add_blocks stale memory prims work doubles removal unset time genesis blocks s)
  unfolding add_blocks add_block_locking
  add_blocks-EndsIn P [] s h = h
  add_blocks-EndsIn P (b ∷ blocks) s h = tt

  EndsIn-answer :
      (P : State W → Type 0) (next : State W → Outcome (State W) ExecutionStatus)
      → ((s : State W) → P s → EndsIn P (next s))
      → (s : State W) → P s
      → (r : Result (List Block))
      → EndsIn P (elim r [
        | throws e ↦ returns (ok unknown_error) s
        | ok blocks ↦
            after
              (λ status s'. elim status [ success ↦ next s' | other ↦ returns (ok other) s' ])
              (caught
                (add_blocks stale memory prims work doubles removal unset time genesis blocks s))
      ])
  unfolding add_blocks add_block_locking
  EndsIn-answer P next hn s h (throws e) = h
  EndsIn-answer P next hn s h (ok []) = hn s h
  EndsIn-answer P next hn s h (ok (b ∷ blocks)) = tt

  fetch_blocks-EndsIn :
      (P : State W → Type 0) (answer : ℕ → ℕ → Result (List Block)) (target fuel i : ℕ)
      (s : State W)
      → P s
      → EndsIn P (
          fetch_blocks stale memory prims work doubles removal unset time genesis answer target fuel
            i s)
  unfolding fetch_blocks
  fetch_blocks-EndsIn P answer target zero i s h = h
  fetch_blocks-EndsIn P answer target (suc fuel) i s h = EndsIn-if P (ltb target i) _ _ h (
      EndsIn-answer P _ (fetch_blocks-EndsIn P answer target fuel (i + blocks_per_fetch)) s h
        (answer i (min target (i + blocks_per_fetch - 1))))

  after_count-AtMost :
      (n : ℕ) (answer : ℕ → ℕ → Result (List Block)) (target to_pop : ℕ) (s : State W)
      → AtMost n s
      → EndsIn (AtMost n) (
          after_count stale memory prims work doubles removal unset time genesis answer target
            to_pop s)
  unfolding after_count
  after_count-AtMost n answer target to_pop s h =
      EndsIn-after (AtMost n) (AtMost n) _ (λ s h. h)
        (λ u s' h'.
          EndsIn-after (AtMost n) (AtMost n) finish (λ s h. h) (λ status s h. h) _
            (fetch_blocks-EndsIn (AtMost n) answer target (target + 1) (s'.0.num_blocks + 1) s' h'))
        _ (pop_blocks-AtMost n to_pop s h)

  blocks_to_pop-state :
      (trusted : ℕ → Option ℕ) (n i : ℕ) (c : BlockChain W)
      → (blocks_to_pop stale memory prims trusted n i c).1 ≡ c
  unfolding blocks_to_pop
  blocks_to_pop-state trusted zero i c = refl
  blocks_to_pop-state trusted (suc n) i c = ground (arith, blocks_to_pop-state trusted n (i + 1) c)

  EndsIn-count :
      (n : ℕ) (answer : ℕ → ℕ → Result (List Block)) (target : ℕ) (s : State W)
      → AtMost n s
      → (count : Result ℕ)
      → EndsIn (AtMost n) (elim count [
        | throws e ↦ returns (throws e) s
        | ok to_pop ↦
            after_count stale memory prims work doubles removal unset time genesis answer target
              to_pop s
      ])
  EndsIn-count n answer target s h (throws e) = h
  EndsIn-count n answer target s h (ok to_pop) = after_count-AtMost n answer target to_pop s h

  -- A chain that is synchronized never grows: whatever the peers answer, when startChainSync returns,
  -- or throws, the chain has at most the blocks that it had before.
  pub start_chain_sync-AtMost :
      (height : ℕ → Option ℤ) (answer : ℕ → ℕ → ℕ → Result (List Block)) (m : HostManager W)
      (s : State W)
      → EndsIn (AtMost s.0.num_blocks) (
          start_chain_sync stale memory prims work doubles removal unset time genesis height answer
            m s)
  unfolding start_chain_sync
  start_chain_sync-AtMost height answer m (c, p) =
      let host = best_host (get_good_host height m) in
      let target = get_block_count work removal.gt m in
      let trusted : ℕ → Option ℕ = λ i. get_block_hash host i m in
      let syncing = record c { syncing = true } in
      let counted = blocks_to_pop stale memory prims trusted c.num_blocks 1 syncing in
      let kept : counted.1.num_blocks ≤ c.num_blocks =
        subst (λ c'. c'.num_blocks ≤ c.num_blocks)
          (sym (blocks_to_pop-state trusted c.num_blocks 1 syncing)) (omega arith) in
      EndsIn-if (AtMost c.num_blocks) (heavier work removal m c) _ _
        (EndsIn-count c.num_blocks (answer host) target (counted.1, p) kept counted.0)
        (after_count-AtMost c.num_blocks (answer host) target 0 (syncing, p) (omega arith))
