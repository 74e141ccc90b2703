-- ===== src/Blockchain/Syncing.antt =====
-- server/blockchain.cpp: starting a chain, taking blocks off it, and the calls under the chain's mutex.
-- addBlock locks the mutex itself, so each call of it says whether its thread holds the mutex already.
-- The genesis block is what is read of genesis.json, if it is there; what peers answer are arguments.
pub mod Starting
pub mod Recomputing
pub mod Popping
pub mod Blocking
pub mod Restart
pub mod Retrying
mod Tests
use pandanite_node.Common.{
  ℕ, zero, suc, ◌+◌, ◌-◌, ◌*◌, ◌/◌, ◌≤◌, Bool, true, false, not, ◌==◌, ltb, leb, Option, none, some,
  List, [], ◌∷◌, if◌then◌else◌, min,
}
use pandanite_node.Common.State.{
  Action, Result, ok, throws, unreadable, no_genesis, Outcome, returns, exits, waits, run, after,
  under_lock,
}
use pandanite_node.Crypto.{Primitives}
use pandanite_node.Transaction.{Transaction}
use pandanite_node.Transaction.Buffer.{TransactionInfo}
use pandanite_node.Block.{Block}
use pandanite_node.Block
use pandanite_node.BlockStore.{
  BlockStore, set_total_work, set_block_count, remove_block_wallet_transactions, has_block_count,
}
use pandanite_node.BlockStore
use pandanite_node.Ledger
use pandanite_node.Executor.{ExecutionStatus, success, is_syncing, unknown_error, rollback_block}
use pandanite_node.Mempool.{MemPool}
use pandanite_node.Difficulty.{min_difficulty}
use pandanite_node.MiningFee.{Doubles}
use pandanite_node.HeaderChain.{Work}
use pandanite_node.Blockchain.{BlockChain, get_block, update_difficulty}
use pandanite_node.Blockchain.Adding.{add_block}
use pandanite_node.HostManager.{HostManager, get_block_count, get_block_hash}
use pandanite_node.HostManager

-- BLOCKS_PER_FETCH and FORK_CHAIN_POP_COUNT
abbrev pub blocks_per_fetch : ℕ
blocks_per_fetch = 200

abbrev pub fork_chain_pop_count : ℕ
fork_chain_pop_count = 100

-- removeWork of core/crypto.cpp, and the comparison of the Bigint library.
pub record Removal (W : Type 0) : Type 0 where
  pub remove_work : W → ℕ → W
  pub gt : W → W → Bool

abbrev pub State : Type 0 → Type 0
State W = BlockChain W × Option MemPool

module _ {W : Type 0} where
  -- A call on the chain alone.
  abbrev pub on_chain : {A : Type 0} → Action (BlockChain W) A → (State W) → Outcome (State W) A
  on_chain m (c, p) = let (r, c') = m c in returns r (c', p)

  -- The constructor of a new object: it opens the stores that the object `c` has left, and nothing else of
  -- it is there; the nonces of the ledger are kept in memory only. There is no pool yet.
  abbrev pub opened : BlockChain W → BlockChain W → BlockChain W
  opened new c = record new {
    ledger = record new.ledger { db = c.ledger.db };
    txdb = c.txdb;
    block_store = c.block_store;
  }

  abbrev pub set_syncing : Bool → (State W) → (State W)
  set_syncing b (c, p) = (record c { syncing = b }, p)

module _ {W D : Type 0} (stale : Transaction → ℕ) (memory : TransactionInfo → Transaction)
    (prims : Primitives) (work : Work W) (doubles : Doubles D) where
  -- addBlock, for a thread that holds the mutex or not.
  unfoldable pub add_block_locking :
      Bool → ℕ → Block → (State W) → Outcome (State W) ExecutionStatus
  add_block_locking held time b s =
      under_lock held (run (add_block stale memory prims work doubles time b)) s

  unfoldable pub add_block_sync : ℕ → Block → (State W) → Outcome (State W) ExecutionStatus
  unfolding add_block_locking
  add_block_sync time b s =
      if s.0.syncing
      then returns (ok is_syncing) s
      else under_lock false (add_block_locking true time b) s

  abbrev pub cleared : BlockChain W → BlockChain W
  cleared c = record c {
    difficulty = 16;
    num_blocks = 0;
    total_work = work.zero_work;
    last_hash = 0;
    ledger = Ledger.clear c.ledger;
    txdb = [];
    block_store = record {
      block_count = none;
      total_work = none;
      headers = [];
      transactions = [];
      wallet_transactions = [];
    };
  }

  abbrev after_genesis : ExecutionStatus → (State W) → Outcome (State W) (Unit {0})
  after_genesis success s = returns (ok tt) s
  after_genesis status s = returns (throws no_genesis) s

  unfoldable pub reset_chain : Bool → ℕ → Option Block → (State W) → Outcome (State W) (Unit {0})
  unfolding add_block_locking
  reset_chain held time none s = exits
  reset_chain held time (some genesis) (c, p) =
      after after_genesis (add_block_locking held time genesis (cleared c, p))

  -- The chain with the block on top that the store holds.
  abbrev restored : ℕ → Option Block → Option W → (State W) → Outcome (State W) (Unit {0})
  restored count (some last) (some total_work) (c, p) = returns (ok tt) (
    record c {
      total_work = total_work;
      difficulty = last.difficulty;
      last_hash = Block.get_hash prims last;
    },
    p,
  )
  restored count last total_work s = returns (throws unreadable) s

  abbrev lowest : Unit {0} → (State W) → Outcome (State W) (Unit {0})
  lowest u (c, p) = returns (ok tt) (record c { difficulty = min_difficulty }, p)

  unfoldable pub init_chain : ℕ → Option Block → (State W) → Outcome (State W) (Unit {0})
  unfolding reset_chain has_block_count BlockStore.get_block_count BlockStore.get_block
      BlockStore.get_total_work
  init_chain time genesis (c, p) = elim (BlockStore.get_block_count c.block_store) [
    | none ↦ after lowest (reset_chain false time genesis (record c { syncing = false }, p))
    | some count ↦
        restored count (BlockStore.get_block stale memory count c.block_store)
          (BlockStore.get_total_work c.block_store)
          (record c { syncing = false; num_blocks = count }, p)
  ]

  module _ (removal : Removal W) (unset : ℕ) where
    -- The chain without its top, which has been rolled back.
    abbrev without : Block → BlockChain W → BlockChain W
    without last c =
        let total_work = removal.remove_work c.total_work last.difficulty in
        record c {
          num_blocks = c.num_blocks - 1;
          total_work = total_work;
          block_store =
              remove_block_wallet_transactions stale prims last
                (set_block_count (c.num_blocks - 1) (set_total_work total_work c.block_store));
        }

    abbrev new_top : Block → Unit {0} → (State W) → Outcome (State W) (Unit {0})
    new_top last u (c, p) = returns (ok tt) (record c { last_hash = Block.get_hash prims last }, p)

    -- What follows the rollback: the new top is read, or the chain begins again.
    unfoldable pub after_pop : Bool → ℕ → Option Block → (State W) → Outcome (State W) (Unit {0})
    unfolding reset_chain
    after_pop held time genesis s =
        if ltb 1 s.0.num_blocks
        then after (λ last s'. after (new_top last) (on_chain (update_difficulty stale memory) s'))
            (on_chain (get_block stale memory s.0.num_blocks) s)
        else reset_chain held time genesis s

    unfoldable pub pop_rolled_back :
        Bool → ℕ → Option Block → Block → (State W) → Outcome (State W) (Unit {0})
    unfolding after_pop
    pop_rolled_back held time genesis last (c, p) =
        let (r, (ledger, txdb)) =
          rollback_block prims stale unset last.transactions (c.ledger, c.txdb) in
        let rolled = record c { ledger = ledger; txdb = txdb } in
        elim r [
          | throws e ↦ returns (throws e) (rolled, p)
          | ok _ ↦ after_pop held time genesis (without last rolled, p)
        ]

    unfoldable pub pop_block : Bool → ℕ → Option Block → (State W) → Outcome (State W) (Unit {0})
    unfolding pop_rolled_back
    pop_block held time genesis s =
        after (pop_rolled_back held time genesis)
          (on_chain (get_block stale memory s.0.num_blocks) s)
