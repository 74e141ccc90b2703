-- ===== src/Blockchain/Syncing/Retrying/Shorter.antt =====
-- What chain_sync leaves of a chain.
use pandanite_node.Common.{
  ℕ, ◌+◌, ◌*◌, ◌≤◌, not, ◌&&◌, ltb, Option, List, [], ◌∷◌, arith, true, Bool-cases, inl, inr,
}
use pandanite_node.Common.State.{
  ok, throws, Outcome, returns, exits, waits, EndsIn, EndsIn-after, EndsIn-if,
}
use pandanite_node.Crypto.{Primitives}
use pandanite_node.Transaction.{Transaction}
use pandanite_node.Transaction.Buffer.{TransactionInfo}
use pandanite_node.Block.{Block}
use pandanite_node.Executor.{ExecutionStatus, success}
use pandanite_node.MiningFee.{Doubles}
use pandanite_node.HeaderChain.{Work}
use pandanite_node.HostManager.{get_block_count}
use pandanite_node.Blockchain.Syncing.{Removal, State, set_syncing, fork_chain_pop_count}
use pandanite_node.Blockchain.Syncing.Blocking.{AtMost, pop_blocks-AtMost, start_chain_sync-AtMost}
use pandanite_node.Blockchain.Syncing.Retrying.{
  Peers, Sync, popped, retry, after_sync, chain_sync_round, chain_sync, fork_reset_retries,
}

-- A chain with at most so many blocks, after no more failures than are allowed.
abbrev pub Shorter : {W : Type 0} → ℕ → Sync W → Type 0
Shorter n (s, retries) = AtMost n s × (retries ≤ fork_reset_retries)

popped-Shorter :
    {W : Type 0} (n retries : ℕ) (o : Outcome (State W) (Unit {0}))
    → retries ≤ fork_reset_retries
    → EndsIn (AtMost n) o
    → EndsIn (Shorter n) (popped retries o)
popped-Shorter n retries (returns (ok u) s) h e = (e, h)
popped-Shorter n retries (returns (throws x) s) h e = tt
popped-Shorter n retries exits h e = tt
popped-Shorter n retries waits h e = tt

module _ {W D : Type 0} (stale : Transaction → ℕ) (memory : TransactionInfo → Transaction)
    (prims : Primitives) (work : Work W) (doubles : Doubles D) (removal : Removal W) (unset : ℕ)
    (time : ℕ) (genesis : Option Block) where
  retry-Shorter :
      (n retries : ℕ) (s : State W)
      → AtMost n s
      → EndsIn
          (Shorter n)
          (retry stale memory prims work doubles removal unset time genesis retries s)
  unfolding retry
  retry-Shorter n retries s h = elim (Bool-cases (ltb fork_reset_retries (retries + 1))) [
    | inl e ↦ rw e tt
    | inr e ↦ rw e (
        popped-Shorter n (retries + 1) _ (ground (arith, e)) (
          pop_blocks-AtMost stale memory prims work doubles removal unset time genesis n
            (fork_chain_pop_count * (retries + 1)) (set_syncing true s) h))
  ]

  after_sync-Shorter :
      (n retries : ℕ) (o : Outcome (State W) ExecutionStatus)
      → EndsIn (AtMost n) o
      → EndsIn
          (Shorter n)
          (after_sync stale memory prims work doubles removal unset time genesis retries o)
  after_sync-Shorter n retries (returns (ok success) s) h = (h, omega arith)
  after_sync-Shorter n retries (returns (ok status) s) h = retry-Shorter n retries s h
  after_sync-Shorter n retries (returns (throws e) s) h = tt
  after_sync-Shorter n retries exits h = tt
  after_sync-Shorter n retries waits h = tt

  EndsIn-AtMost :
      (n k : ℕ) (o : Outcome (State W) ExecutionStatus)
      → k ≤ n
      → EndsIn (AtMost k) o
      → EndsIn (AtMost n) o
  EndsIn-AtMost n k (returns r s) le h = omega (arith, le, h)
  EndsIn-AtMost n k exits le h = tt
  EndsIn-AtMost n k waits le h = tt

  round-Shorter :
      (n : ℕ) (peers : Peers W) (s : Sync W)
      → Shorter n s
      → EndsIn
          (Shorter n)
          (chain_sync_round stale memory prims work doubles removal unset time genesis peers s)
  unfolding chain_sync_round
  round-Shorter n peers (s, retries) h =
      EndsIn-if (Shorter n)
        (not s.0.syncing && ltb s.0.num_blocks (get_block_count work removal.gt peers.hosts)) _ _
        (after_sync-Shorter n retries _ (
          EndsIn-AtMost n s.0.num_blocks _ h.0 (
            start_chain_sync-AtMost stale memory prims work doubles removal unset time genesis
              peers.height peers.answer peers.hosts s)))
        h

  -- The thread that synchronizes the chain makes it no longer, whatever the peers say and however many
  -- rounds it has: after each round that ends, the chain has at most the blocks of the begin, and there
  -- were at most 25 failures since the last success, if that was so before.
  pub chain_sync-Shorter :
      (n : ℕ) (rounds : List (Peers W)) (s : Sync W)
      → Shorter n s
      → EndsIn
          (Shorter n)
          (chain_sync stale memory prims work doubles removal unset time genesis rounds s)
  unfolding chain_sync
  chain_sync-Shorter n [] s h = h
  chain_sync-Shorter n (peers ∷ rounds) s h =
      EndsIn-after (Shorter n) (Shorter n) _ (λ s h. h)
        (λ u s' h'. chain_sync-Shorter n rounds s' h')
        (chain_sync_round stale memory prims work doubles removal unset time genesis peers s)
        (round-Shorter n peers s h)
