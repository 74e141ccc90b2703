-- ===== src/Blockchain/Syncing/Retrying.antt =====
-- server/blockchain.cpp: chain_sync, the thread that calls startChainSync again and again. What the peers
-- say in each round enters as a list, one entry for each round; the sleep between them is left out.
pub mod Shorter
pub mod GivingUp
mod Tests
use pandanite_node.Common.{
  ℕ, ◌+◌, ◌*◌, Bool, true, false, not, ◌&&◌, ltb, Option, List, [], ◌∷◌, if◌then◌else◌,
}
use pandanite_node.Common.Int.{ℤ}
use pandanite_node.Common.State.{Result, ok, throws, Outcome, returns, exits, waits, after}
use pandanite_node.Crypto.{Primitives}
use pandanite_node.Transaction.{Transaction}
use pandanite_node.Transaction.Buffer.{TransactionInfo}
use pandanite_node.Block.{Block}
use pandanite_node.Executor.{ExecutionStatus, success}
use pandanite_node.MiningFee.{Doubles}
use pandanite_node.HeaderChain.{Work}
use pandanite_node.HostManager.{HostManager, get_block_count}
use pandanite_node.Blockchain.Syncing.{Removal, State, set_syncing, fork_chain_pop_count}
use pandanite_node.Blockchain.Syncing.Starting.{start_chain_sync, pop_blocks}

-- FORK_RESET_RETRIES
abbrev pub fork_reset_retries : ℕ
fork_reset_retries = 25

-- What the peers say in a round.
pub record Peers (W : Type 0) : Type 0 where
  pub height : ℕ → Option ℤ
  pub answer : ℕ → ℕ → ℕ → Result (List Block)
  pub hosts : HostManager W

-- The state of the chain, and `retries`.
abbrev pub Sync : Type 0 → Type 0
Sync W = State W × ℕ

module _ {W : Type 0} where
  -- An exception that leaves the thread ends the process.
  abbrev pub popped : ℕ → Outcome (State W) (Unit {0}) → Outcome (Sync W) (Unit {0})
  popped retries (returns (ok u) s) = returns (ok tt) (set_syncing false s, retries)
  popped retries (returns (throws e) s) = exits
  popped retries exits = exits
  popped retries waits = waits

module _ {W D : Type 0} (stale : Transaction → ℕ) (memory : TransactionInfo → Transaction)
    (prims : Primitives) (work : Work W) (doubles : Doubles D) (removal : Removal W) (unset : ℕ)
    (time : ℕ) (genesis : Option Block) where
  -- A synchronization that failed, with the retries before it.
  unfoldable pub retry : ℕ → State W → Outcome (Sync W) (Unit {0})
  unfolding pop_blocks
  retry retries s =
      if ltb fork_reset_retries (retries + 1)
      then exits
      else popped (retries + 1) (
          pop_blocks stale memory prims work doubles removal unset time genesis
            (fork_chain_pop_count * (retries + 1)) (set_syncing true s))

  abbrev pub after_sync : ℕ → Outcome (State W) ExecutionStatus → Outcome (Sync W) (Unit {0})
  after_sync retries (returns (ok success) s) = returns (ok tt) (s, 0)
  after_sync retries (returns (ok status) s) = retry retries s
  after_sync retries (returns (throws e) s) = exits
  after_sync retries exits = exits
  after_sync retries waits = waits

  -- A round of the loop, behind the test of `shutdown`.
  unfoldable pub chain_sync_round : Peers W → Sync W → Outcome (Sync W) (Unit {0})
  unfolding start_chain_sync get_block_count retry
  chain_sync_round peers (s, retries) =
      if not s.0.syncing && ltb s.0.num_blocks (get_block_count work removal.gt peers.hosts)
      then after_sync retries (
          start_chain_sync stale memory prims work doubles removal unset time genesis peers.height
            peers.answer peers.hosts s)
      else returns (ok tt) (s, retries)

  unfoldable pub chain_sync : List (Peers W) → Sync W → Outcome (Sync W) (Unit {0})
  unfolding chain_sync_round
  chain_sync [] s = returns (ok tt) s
  chain_sync (peers ∷ rounds) s = after (λ u s'. chain_sync rounds s') (chain_sync_round peers s)
