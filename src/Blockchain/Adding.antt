-- ===== src/Blockchain/Adding.antt =====
-- BlockChain::addBlock, with its mutex free at the call. The network's time and the arithmetic of work
-- and of doubles enter as arguments; a pool is there or not. For a block without transactions the
-- Merkle tree reads an empty queue, which the model turns into an exception.
pub mod Extending
pub mod Committed
use pandanite_node.Common.{
  ℕ, zero, suc, ◌+◌, ◌-◌, ◌*◌, ◌/◌, ◌%◌, Bool, true, false, not, ◌&&◌, ◌==◌, ltb, leb, Option, none,
  some, List, [], ◌∷◌, if◌then◌else◌, u64, length, get_elem?,
}
use mathlib.Core.Option
use pandanite_node.Common.Dict.{Dict}
use pandanite_node.Common.State.{
  Action, Result, ok, throws, undefined_read, pure, gets, resume, ◌>>=◌, ◌>>◌,
}
use pandanite_node.Crypto.{Primitives}
use pandanite_node.Transaction.{Transaction, copy}
use pandanite_node.Transaction.Buffer.{TransactionInfo}
use pandanite_node.TxStore.{insert_transaction}
use pandanite_node.Block.{Block, verify_nonce}
use pandanite_node.Block
use pandanite_node.BlockStore.{set_block, set_total_work, set_block_count}
use pandanite_node.Executor.{
  Exec, ExecutionStatus, success, invalid_transaction_count, invalid_block_id, invalid_difficulty,
  invalid_nonce, invalid_lastblock_hash, block_timestamp_in_future, block_timestamp_too_old,
  invalid_merkle_root, rollback,
}
use pandanite_node.Executor.Block.{execute_block}
use pandanite_node.Mempool.{MemPool, finish_block}
use pandanite_node.MerkleTree.{set_items}
use pandanite_node.MiningFee.{Doubles, get_current_mining_fee}
use pandanite_node.HeaderChain.{Work}
use pandanite_node.Blockchain.{BlockChain, get_block, update_difficulty}

-- MAX_TRANSACTIONS_PER_BLOCK
abbrev pub max_transactions_per_block : ℕ
max_transactions_per_block = 25000

insert_time : ℕ → List ℕ → List ℕ
insert_time t [] = t ∷ []
insert_time t (x ∷ times) = if ltb x t then x ∷ insert_time t times else t ∷ x ∷ times

sort_times : List ℕ → List ℕ
unfolding insert_time
sort_times [] = []
sort_times (t ∷ times) = insert_time t (sort_times times)

time_at : ℕ → List ℕ → ℕ
time_at i times = elim (get_elem? times i) [ none ↦ 0 | some t ↦ t ]

-- medianTime, of the sorted times; the sum is a uint64_t.
median_time : List ℕ → ℕ
unfolding time_at
median_time times =
    let n = length times in
    if (n % 2) == 0
    then ((time_at (n / 2) times + time_at (n / 2 - 1) times) % u64) / 2
    else time_at (n / 2) times

-- The status that is returned if nothing is thrown before.
abbrev pub answer : ExecutionStatus → Result (Unit {0}) → Result ExecutionStatus
answer status (throws e) = throws e
answer status (ok _) = ok status

-- The difficulty that addBlock does not test.
abbrev pub is_known_exception : Block → Bool
is_known_exception b = leb 536100 b.id && (leb b.id 536200 && b.difficulty == 27)

module _ (stale : Transaction → ℕ) (prims : Primitives) where
  -- The loop puts copies of all transactions into the store, the mining fee's too.
  unfoldable pub insert_transactions : ℕ → List Transaction → Dict ℕ → Dict ℕ
  insert_transactions id [] txdb = txdb
  insert_transactions id (t ∷ ts) txdb =
      insert_transactions id ts (insert_transaction prims (copy stale t) id txdb)

module _ {W : Type 0} (stale : Transaction → ℕ) (memory : TransactionInfo → Transaction)
    (prims : Primitives) where
  -- The tests that read no block, with the status of an early return.
  unfoldable pub header_status : ℕ → Block → BlockChain W → Option ExecutionStatus
  header_status network_time b c =
      if ltb max_transactions_per_block (length b.transactions)
      then some invalid_transaction_count
      else if not (b.id == c.num_blocks + 1)
      then some invalid_block_id
      else if not (b.difficulty == c.difficulty) && not (is_known_exception b)
      then some invalid_difficulty
      else if not (verify_nonce prims b)
      then some invalid_nonce
      else if not (b.last_block_hash == c.last_hash)
      then some invalid_lastblock_hash
      else if not (b.id == 1) && ltb ((network_time + 120 * 60) % u64) b.timestamp
      then some block_timestamp_in_future
      else none

  -- The timestamps of so many blocks from the top down.
  unfoldable pub read_times : ℕ → ℕ → Action (BlockChain W) (List ℕ)
  read_times zero i = pure []
  read_times (suc n) i = do
    num_blocks ← gets (λ c. c.num_blocks)
    b ← get_block stale memory (num_blocks - i)
    times ← read_times n (i + 1)
    pure (b.timestamp ∷ times)

  -- The block is older than the median of the last ten.
  unfoldable pub is_too_old : Block → Action (BlockChain W) Bool
  unfolding read_times sort_times median_time
  is_too_old b c =
      (if not (b.id == 1) && ltb 10 c.num_blocks
          then (do times ← read_times 10 0; pure (ltb b.timestamp (median_time (sort_times times))))
          else pure false)
        c

  module _ {D : Type 0} (work : Work W) (doubles : Doubles D) where
    -- The chain's new top, before the difficulty is adjusted.
    unfoldable pub put_block : Block → BlockChain W → BlockChain W
    unfolding insert_transactions
    put_block b c =
        let total_work = work.add_work c.total_work b.difficulty in
        record c {
          txdb = insert_transactions stale prims b.id b.transactions c.txdb;
          num_blocks = c.num_blocks + 1;
          total_work = total_work;
          block_store =
              set_block_count (c.num_blocks + 1)
                (set_total_work total_work (set_block prims b c.block_store));
          last_hash = Block.get_hash prims b;
        }

    unfoldable pub commit : Block → Action (BlockChain W × Option MemPool) ExecutionStatus
    unfolding put_block
    commit b (c, p) =
        let (r, c') = update_difficulty stale memory (put_block b c) in
        let p' = Option.map (finish_block prims stale b.transactions) p in
        (answer success r, (c', p'))

    -- A block that was not executed with success is rolled back.
    unfoldable pub after_block :
        Block
        → Result ExecutionStatus
        → Exec
        → Action (BlockChain W × Option MemPool) ExecutionStatus
    unfolding commit
    after_block b (throws e) s (c, p) = (
      throws e,
      (record c { ledger = s.ledger; invalid_transactions = s.invalid_transactions }, p),
    )
    after_block b (ok success) s (c, p) =
        commit b (record c { ledger = s.ledger; invalid_transactions = s.invalid_transactions }, p)
    after_block b (ok status) s (c, p) =
        let (r, l) = rollback s.deltas s.ledger in
        (
          answer status r,
          (record c { ledger = l; invalid_transactions = s.invalid_transactions }, p),
        )

    -- The Merkle tree sorts the block's own transactions, which are executed in that order.
    unfoldable pub execute_sorted :
        Block → List Transaction → Option ℕ → Action (BlockChain W × Option MemPool) ExecutionStatus
    unfolding after_block
    execute_sorted b sorted none (c, p) = (throws undefined_read, (c, p))
    execute_sorted b sorted (some root) (c, p) =
        let (r, s) =
          execute_block prims stale b.id sorted c.txdb (get_current_mining_fee doubles b.id)
            (record {
              ledger = c.ledger;
              deltas = [];
              invalid_transactions = c.invalid_transactions;
            }) in
        if b.merkle_root == root
        then after_block (record b { transactions = sorted }) r s (c, p)
        else (ok invalid_merkle_root, (c, p))

    unfoldable pub after_age :
        Block → Result Bool → Action (BlockChain W × Option MemPool) ExecutionStatus
    unfolding execute_sorted
    after_age b (throws e) s = (throws e, s)
    after_age b (ok true) s = (ok block_timestamp_too_old, s)
    after_age b (ok false) s =
        let (sorted, root) = set_items prims stale b.transactions in execute_sorted b sorted root s

    unfoldable pub add_block : ℕ → Block → Action (BlockChain W × Option MemPool) ExecutionStatus
    unfolding header_status is_too_old after_age
    add_block network_time b (c, p) = elim (header_status network_time b c) [
      | some status ↦ (ok status, (c, p))
      | none ↦ after_age b (is_too_old b c).0 (c, p)
    ]
