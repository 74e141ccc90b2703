-- ===== src/Blockchain/Syncing/Retrying/GivingUp.antt =====
-- A node that cannot be synchronized ends itself.
use pandanite_node.Common.{
  ℕ, zero, suc, ◌+◌, ◌-◌, ◌*◌, ◌<◌, ◌≤◌, ◌≡◌, not, ◌&&◌, ltb, min, Option, some, List, [], ◌∷◌,
  arith, true, false, Bool-cases, inl, inr, All, length, refl, sym, subst, ap, ◌∙◌, if◌then◌else◌,
}
use pandanite_node.Common.State.{Exception, Result, ok, throws, returns, exits}
use pandanite_node.Crypto.{Primitives}
use pandanite_node.Transaction.{Transaction}
use pandanite_node.Transaction.Buffer.{TransactionInfo}
use pandanite_node.Block.{Block}
use pandanite_node.Executor.{unknown_error}
use pandanite_node.MiningFee.{Doubles}
use pandanite_node.HeaderChain.{Work}
use pandanite_node.HostManager.{get_block_count, get_block_hash, get_good_host}
use pandanite_node.Blockchain.{BlockChain, get_block, is_missing}
use pandanite_node.BlockStore
use pandanite_node.Blockchain.Syncing.{
  Removal, State, set_syncing, fork_chain_pop_count, blocks_per_fetch,
}
use pandanite_node.Blockchain.Syncing.Starting.{
  start_chain_sync, pop_blocks, fetch_blocks, after_count, blocks_to_pop, differs, heavier,
  best_host,
}
use pandanite_node.Blockchain.Syncing.Retrying.{
  Peers, retry, chain_sync_round, chain_sync, fork_reset_retries,
}

module _ {W D : Type 0} (stale : Transaction → ℕ) (memory : TransactionInfo → Transaction)
    (prims : Primitives) (work : Work W) (doubles : Doubles D) (removal : Removal W) (unset : ℕ)
    (time : ℕ) (genesis : Option Block) where
  -- Peers that claim more than one block, and answer no request for blocks.
  pub record IsSilent (peers : Peers W) : Type 0 where
    pub error : Exception
    pub ahead : 1 < get_block_count work removal.gt peers.hosts
    pub refuses : (host first last : ℕ) → peers.answer host first last ≡ throws error

  -- Nothing is taken off a chain of one block.
  pop_blocks-one :
      (n : ℕ) (s : State W)
      → s.0.num_blocks ≡ 1
      → pop_blocks stale memory prims work doubles removal unset time genesis n s
        ≡ returns (ok tt) s
  unfolding pop_blocks
  pop_blocks-one zero s one = refl
  pop_blocks-one (suc n) s one = rw one refl

  fetch_blocks-refused :
      (answer : ℕ → ℕ → Result (List Block)) (error : Exception) (target fuel i : ℕ) (s : State W)
      → 0 < fuel
      → i ≤ target
      → ((first last : ℕ) → answer first last ≡ throws error)
      → fetch_blocks stale memory prims work doubles removal unset time genesis answer target fuel i
          s
        ≡ returns (ok unknown_error) s
  unfolding fetch_blocks
  fetch_blocks-refused answer error target zero i s fuel le refuses = ground arith
  fetch_blocks-refused answer error target (suc fuel) i s enough le refuses =
      let test : ltb target i ≡ false = ground arith in
      rw (test, refuses i (min target (i + blocks_per_fetch - 1))) refl

  after_count-refused :
      (answer : ℕ → ℕ → Result (List Block)) (error : Exception) (target to_pop : ℕ) (s : State W)
      → s.0.num_blocks ≡ 1
      → 1 < target
      → ((first last : ℕ) → answer first last ≡ throws error)
      → after_count stale memory prims work doubles removal unset time genesis answer target to_pop
          s
        ≡ returns (ok unknown_error) (set_syncing false s)
  unfolding after_count
  after_count-refused answer error target to_pop s one many refuses =
      rw
        (
          pop_blocks-one to_pop s one,
          fetch_blocks-refused answer error target (target + 1) (s.0.num_blocks + 1) s (omega arith)
              (omega (arith, one)) refuses,
        )
        refl

  first_block :
      (c : BlockChain W) (g : Block)
      → c.num_blocks ≡ 1
      → BlockStore.get_block stale memory 1 c.block_store ≡ some g
      → (get_block stale memory 1 c).0 ≡ ok g
  unfolding get_block
  first_block c g one stored =
      let there : is_missing 1 c ≡ false = ground (arith, one) in rw (there, stored) refl

  counted_one :
      (trusted : ℕ → Option ℕ) (c : BlockChain W) (g : Block)
      → (get_block stale memory 1 c).0 ≡ ok g
      → (k : ℕ) × (blocks_to_pop stale memory prims trusted (suc zero) 1 c ≡ (ok k, c))
  unfolding blocks_to_pop
  counted_one trusted c g found = elim (Bool-cases (differs prims (trusted 1) g)) [
    | inl e ↦ (c.num_blocks - 1 + fork_chain_pop_count, ground (arith, found, e))
    | inr e ↦ (0, ground (arith, found, e))
  ]

  counted :
      (trusted : ℕ → Option ℕ) (c : BlockChain W) (g : Block)
      → c.num_blocks ≡ 1
      → BlockStore.get_block stale memory 1 c.block_store ≡ some g
      → (k : ℕ) × (blocks_to_pop stale memory prims trusted c.num_blocks 1 c ≡ (ok k, c))
  counted trusted c g one stored =
      let (k, count) = counted_one trusted c g (first_block c g one stored) in
      (k, ap (λ n. blocks_to_pop stale memory prims trusted n 1 c) one ∙ count)

  -- A node with the genesis block only, whose peers answer nothing, stays as it is.
  start_chain_sync-refused :
      (peers : Peers W) (silent : IsSilent peers) (s : State W) (g : Block)
      → s.0.num_blocks ≡ 1
      → BlockStore.get_block stale memory 1 s.0.block_store ≡ some g
      → start_chain_sync stale memory prims work doubles removal unset time genesis peers.height
          peers.answer peers.hosts s
        ≡ returns (ok unknown_error) (set_syncing false s)
  unfolding start_chain_sync
  start_chain_sync-refused peers silent (c, p) g one stored =
      let host = best_host (get_good_host peers.height peers.hosts) in
      let target = get_block_count work removal.gt peers.hosts in
      let trusted : ℕ → Option ℕ = λ i. get_block_hash host i peers.hosts in
      let syncing = record c { syncing = true } in
      let (k, count) = counted trusted syncing g one stored in
      elim (Bool-cases (heavier work removal peers.hosts c)) [
        | inl e ↦ rw e (
            subst
              (λ (o : Result ℕ × BlockChain W).
                (elim o.0 [
                  | throws x ↦ returns (throws x) (o.1, p)
                  | ok to_pop ↦
                      after_count stale memory prims work doubles removal unset time genesis
                        (peers.answer host) target to_pop (o.1, p)
                ])
                ≡ returns (ok unknown_error) (set_syncing false (c, p)))
              (sym count)
              (after_count-refused (peers.answer host) silent.error target k (syncing, p) one
                silent.ahead (silent.refuses host)))
        | inr e ↦ rw e (
            after_count-refused (peers.answer host) silent.error target 0 (syncing, p) one
              silent.ahead (silent.refuses host))
      ]

  -- A round counts one more failure, and the last one that is allowed ends the process.
  retry-one :
      (retries : ℕ) (s : State W)
      → s.0.num_blocks ≡ 1
      → retry stale memory prims work doubles removal unset time genesis retries s ≡ (
          if ltb fork_reset_retries (retries + 1)
          then exits
          else returns (ok tt) (set_syncing false s, retries + 1))
  unfolding retry
  retry-one retries s one =
      rw (pop_blocks-one (fork_chain_pop_count * (retries + 1)) (set_syncing true s) one) refl

  round-refused :
      (peers : Peers W) (silent : IsSilent peers) (s : State W) (retries : ℕ) (g : Block)
      → s.0.num_blocks ≡ 1
      → s.0.syncing ≡ false
      → BlockStore.get_block stale memory 1 s.0.block_store ≡ some g
      → chain_sync_round stale memory prims work doubles removal unset time genesis peers
          (s, retries)
        ≡ (if ltb fork_reset_retries (retries + 1)
            then exits
            else returns (ok tt) (set_syncing false s, retries + 1))
  unfolding chain_sync_round
  round-refused peers silent s retries g one idle stored =
      let test : (not s.0.syncing
            && ltb s.0.num_blocks (get_block_count work removal.gt peers.hosts))
          ≡ true =
        ground (arith, silent.ahead, one, idle) in
      rw (test, start_chain_sync-refused peers silent s g one stored)
        (retry-one retries (set_syncing false s) one)

  -- A node that has the first block in its store and no other, whose chain is not synchronizing, and whose
  -- peers claim to have more but answer no request for blocks, ends its process: with this round or one
  -- of the next, as many as bring the failures above 25.
  pub chain_sync-exits :
      (rounds : List (Peers W)) (s : State W) (retries : ℕ) (g : Block)
      → All IsSilent rounds
      → s.0.num_blocks ≡ 1
      → s.0.syncing ≡ false
      → BlockStore.get_block stale memory 1 s.0.block_store ≡ some g
      → retries ≤ fork_reset_retries
      → fork_reset_retries < retries + length rounds
      → chain_sync stale memory prims work doubles removal unset time genesis rounds (s, retries)
        ≡ exits
  unfolding chain_sync
  chain_sync-exits [] s retries g silent one idle stored below enough =
      ground (arith, below, enough)
  chain_sync-exits (peers ∷ rounds) s retries g silent one idle stored below enough =
      let ended = round-refused peers silent.0 s retries g one idle stored in
      elim (Bool-cases (ltb fork_reset_retries (retries + 1))) [
        | inl e ↦ rw (ended, e) refl
        | inr e ↦
            rw (ended, e)
              (chain_sync-exits rounds (set_syncing false s) (retries + 1) g silent.1 one refl
                stored (ground (arith, e)) (omega (arith, enough)))
      ]
