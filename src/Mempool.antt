-- ===== src/Mempool.antt =====
-- server/mempool.hpp and server/mempool.cpp: the queue of transactions, ordered by fee and hash, what
-- each wallet has pending in it, and the nonce that each wallet's next transaction needs. A method
-- holds the pool's mutex to its end, so each is one step; Threads has the threads that make them.
pub mod Pending
pub mod Finishing
pub mod Raw
pub mod Threads
mod Tests
use pandanite_node.Common.{
  ℕ, ◌+◌, ◌-◌, ◌%◌, List, [], ◌∷◌, Bool, true, false, not, ◌&&◌, ◌||◌, ◌==◌, ltb, if◌then◌else◌,
  u64, length, map, ◌*◌,
}
use pandanite_node.Common.Dict.{Dict, insert, erase, value_at}
use pandanite_node.Common.State.{Action, Result, ok, throws, pure, gets, modify, ◌>>=◌, ◌>>◌}
use pandanite_node.Crypto.{Primitives}
use pandanite_node.Transaction.{Transaction, copy, get_hash, is_expired}
use pandanite_node.Transaction.Buffer.{
  serialize, transaction_info_to_buffer, transaction_info_buffer_size,
}
use pandanite_node.Executor.{
  ExecutionStatus, success, expired_transaction, already_in_queue, transaction_fee_too_low,
  balance_too_low, invalid_nonce,
}

pub record MemPool : Type 0 where
  pub outgoing : Dict ℕ
  pub queue : List Transaction
  pub wallet_nonces : Dict ℕ

-- What the pool calls of the block chain, on the chain's state `S`: BlockChain::getWalletValue and
-- BlockChain::verifyTransaction.
pub record ChainView (S : Type 0) : Type 0 where
  pub get_wallet_value : ℕ → Action S ℕ
  pub verify_transaction : Transaction → Action S ExecutionStatus

-- MIN_FEE_TO_ENTER_MEMPOOL
abbrev pub min_fee_to_enter_mempool : ℕ
min_fee_to_enter_mempool = 1

-- A call of the chain from within the pool, and a change of the pool.
module _ {S : Type 0} where
  abbrev pub on_chain : {A : Type 0} → Action S A → Action (S × MemPool) A
  on_chain m (s, p) = let (r, s') = m s in (r, (s', p))

  abbrev pub on_pool : (MemPool → MemPool) → Action (S × MemPool) (Unit {0})
  on_pool f (s, p) = (ok tt, (s, f p))

-- `m[k]` reads 0 where there is no entry, and puts it there.
abbrev pub touch : ℕ → Dict ℕ → Dict ℕ
touch k d = insert k (value_at k d) d

-- What a transaction takes from its sender, a uint64_t.
abbrev pub total_required : Transaction → ℕ
total_required t = (t.amount + t.fee) % u64

module _ (prims : Primitives) (stale : Transaction → ℕ) where
  -- TransactionComparator: the higher fee first, then the lower hash.
  unfoldable pub before : Transaction → Transaction → Bool
  before a b =
      if not (a.fee == b.fee) then ltb b.fee a.fee else ltb (get_hash prims a) (get_hash prims b)

  -- Neither stands before the other: for the set they are one.
  unfoldable pub equivalent : Transaction → Transaction → Bool
  unfolding before
  equivalent a b = not (before a b) && not (before b a)

  unfoldable pub has_transaction : Transaction → List Transaction → Bool
  has_transaction t [] = false
  has_transaction t (x ∷ queue) = equivalent t x || has_transaction t queue

  -- `stored` goes where `t` belongs.
  unfoldable pub insert_sorted : Transaction → Transaction → List Transaction → List Transaction
  insert_sorted t stored [] = stored ∷ []
  insert_sorted t stored (x ∷ queue) =
      if before t x then stored ∷ x ∷ queue else x ∷ insert_sorted t stored queue

  unfoldable pub erase_transaction : Transaction → List Transaction → List Transaction
  erase_transaction t [] = []
  erase_transaction t (x ∷ queue) = if equivalent t x then queue else x ∷ erase_transaction t queue

  -- The set keeps a copy.
  unfoldable pub insert_transaction : Transaction → MemPool → MemPool
  unfolding insert_sorted
  insert_transaction t p =
      if has_transaction t p.queue
      then p
      else record p { queue = insert_sorted t (copy stale t) p.queue }

  -- `mempoolOutgoing[from] += totalRequired; transactionQueue.insert(t); walletNonces[from]++;`
  unfoldable pub accept : Transaction → MemPool → MemPool
  unfolding insert_transaction
  accept t p =
      let q = record p {
        outgoing = insert t.from ((value_at t.from p.outgoing + total_required t) % u64) p.outgoing;
      } in
      let r = insert_transaction t q in
      record r {
        wallet_nonces = insert t.from ((value_at t.from r.wallet_nonces + 1) % u64) r.wallet_nonces;
      }

  module _ {S : Type 0} (chain : ChainView S) where
    check_nonce : Transaction → Bool → Action (S × MemPool) ExecutionStatus
    unfolding accept
    check_nonce t false = pure balance_too_low
    check_nonce t true = do
      on_pool (λ p. record p { wallet_nonces = touch t.from p.wallet_nonces })
      matches ← gets (λ s. t.nonce == value_at t.from s.1.wallet_nonces)
      (if matches then (on_pool (accept t) >> pure success) else pure invalid_nonce)

    -- What follows the verification, for the balance and the pending amount that were read before.
    after_verify : Transaction → ℕ → ℕ → ExecutionStatus → Action (S × MemPool) ExecutionStatus
    unfolding check_nonce
    after_verify t current_balance pending_outgoing success =
        check_nonce t (not (ltb current_balance ((total_required t + pending_outgoing) % u64)))
    after_verify t current_balance pending_outgoing status = pure status

    add_payment : Transaction → Action (S × MemPool) ExecutionStatus
    unfolding after_verify
    add_payment t = do
      current_balance ← on_chain (chain.get_wallet_value t.from)
      pending_outgoing ← gets (λ s. value_at t.from s.1.outgoing)
      on_pool (λ p. record p { outgoing = touch t.from p.outgoing })
      status ← on_chain (chain.verify_transaction t)
      after_verify t current_balance pending_outgoing status

    after_fee : Transaction → ExecutionStatus → Action (S × MemPool) ExecutionStatus
    after_fee t success = on_pool (insert_transaction t) >> pure success
    after_fee t status = pure status

    add_fee : Transaction → Action (S × MemPool) ExecutionStatus
    unfolding after_fee
    add_fee t = do status ← on_chain (chain.verify_transaction t); after_fee t status

    -- The body of addTransaction, on its own copy of the transaction.
    unfoldable pub add_copy : ℕ → Transaction → Action (S × MemPool) ExecutionStatus
    unfolding add_payment add_fee
    add_copy now t (s, p) =
        (if is_expired now t
            then pure expired_transaction
            else if has_transaction t p.queue
            then pure already_in_queue
            else if ltb t.fee min_fee_to_enter_mempool
            then pure transaction_fee_too_low
            else if t.is_transaction_fee
            then add_fee t
            else add_payment t)
          (s, p)

    -- MemPool::addTransaction, which takes its argument by value.
    unfoldable pub add_transaction : ℕ → Transaction → Action (S × MemPool) ExecutionStatus
    unfolding add_copy
    add_transaction now t = add_copy now (copy stale t)

  -- `mempoolOutgoing[from] -= amount + fee`, and the entry is erased if it is 0.
  unfoldable pub release : Transaction → Dict ℕ → Dict ℕ
  release t outgoing =
      let left = (value_at t.from outgoing + u64 - total_required t) % u64 in
      if left == 0 then erase t.from outgoing else insert t.from left outgoing

  -- The body of finishBlock's loop.
  unfoldable pub finish_transaction : Transaction → MemPool → MemPool
  unfolding release
  finish_transaction t p =
      if has_transaction t p.queue
      then record p {
        queue = erase_transaction t p.queue;
        outgoing = if t.is_transaction_fee then p.outgoing else release t p.outgoing;
      }
      else p

  unfoldable pub finish_block : List Transaction → MemPool → MemPool
  unfolding finish_transaction
  finish_block [] p = p
  finish_block (t ∷ ts) p = finish_block ts (finish_transaction t p)

-- cleanupExpiredTransactions: the queue that stays, and the amounts that are pending.
unfoldable pub cleanup : ℕ → List Transaction → Dict ℕ → List Transaction × Dict ℕ
cleanup now [] outgoing = ([], outgoing)
cleanup now (t ∷ queue) outgoing =
    let reverted =
      insert t.from ((value_at t.from outgoing + u64 - total_required t) % u64) outgoing in
    let (queue', outgoing') =
      cleanup now queue
        (if is_expired now t && not t.is_transaction_fee then reverted else outgoing) in
    (if is_expired now t then queue' else t ∷ queue', outgoing')

unfoldable pub cleanup_expired_transactions : ℕ → MemPool → MemPool
unfolding cleanup
cleanup_expired_transactions now p =
    let (queue, outgoing) = cleanup now p.queue p.outgoing in
    record p { queue = queue; outgoing = outgoing }

unfoldable pub size : MemPool → ℕ
size p = length p.queue

-- The vector keeps a copy of each transaction.
unfoldable pub get_transactions : (Transaction → ℕ) → MemPool → List Transaction
get_transactions stale p = map (copy stale) p.queue

-- The buffers of the queued transactions, one behind the other.
unfoldable pub raw_queue : List Transaction → List ℕ
raw_queue [] = []
raw_queue (t ∷ queue) = transaction_info_to_buffer (serialize t) (raw_queue queue)

-- getRaw: the buffer; its length is passed beside it, and this is what is allocated.
unfoldable pub get_raw : MemPool → List ℕ
unfolding raw_queue
get_raw p = raw_queue p.queue

-- The length that getRaw returns with the buffer.
abbrev pub raw_size : MemPool → ℕ
raw_size p = length p.queue * transaction_info_buffer_size
