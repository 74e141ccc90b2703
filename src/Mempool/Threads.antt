-- ===== src/Mempool/Threads.antt =====
-- server/mempool.cpp: the threads that share the pool. Each step is what one of them does while it holds
-- the pool's mutex, or the mutex of the list of transactions to send: a request or a block that is
-- handled, a round of the thread that drops expired transactions, and the three parts of a round of
-- MemPool::mempool_sync. What that thread sends, to whom, and how often it tries is I/O: whether all was
-- sent is chosen by the step.
pub mod Queued
pub mod Interleaved
mod Tests
use pandanite_node.Common.{
  ℕ, List, [], ◌∷◌, ◌++◌, Bool, true, false, ◌||◌, ◌==◌, length, if◌then◌else◌, All,
}
use pandanite_node.Common.State.{Result, ok, throws}
use pandanite_node.Crypto.{Primitives}
use pandanite_node.Transaction.{Transaction}
use pandanite_node.Executor.{ExecutionStatus, success}
use pandanite_node.Mempool.{
  MemPool, ChainView, add_transaction, finish_block, cleanup_expired_transactions,
}

-- Where the thread of mempool_sync stands: before it takes the list, or with the transactions that it took,
-- before the queue is verified or before they are sent.
pub data Phase : Type 0 where
  sleeping : Phase
  verifying : List Transaction → Phase
  sending : List Transaction → Phase

-- The state that the threads share, and that of mempool_sync.
pub record Threads (S : Type 0) : Type 0 where
  pub chain : S
  pub pool : MemPool
  pub to_send : List Transaction
  pub phase : Phase

module _ {S : Type 0} (view : ChainView S) where
  -- `status != SUCCESS`, or an exception.
  abbrev is_invalid : Result ExecutionStatus → Bool
  is_invalid (ok success) = false
  is_invalid (ok status) = true
  is_invalid (throws e) = true

  -- The loop that verifies the queue: what stays of it.
  unfoldable pub drop_invalid : List Transaction → S → List Transaction × S
  drop_invalid [] c = ([], c)
  drop_invalid (t ∷ queue) c =
      let (status, c') = view.verify_transaction t c in
      let (rest, c'') = drop_invalid queue c' in (if is_invalid status then rest else t ∷ rest, c'')

  -- The list is taken, if there is anything in it.
  abbrev pub take_to_send : List Transaction → Threads S → Threads S
  take_to_send [] s = s
  take_to_send (t ∷ txs) s = record s { to_send = []; phase = verifying (t ∷ txs) }

  abbrev verify_queue : List Transaction → Threads S → Threads S
  verify_queue txs s =
      let (queue, c) = drop_invalid s.pool.queue s.chain in
      record s { chain = c; pool = record s.pool { queue = queue }; phase = sending txs }

  -- With an empty queue, or when all was sent, the transactions are gone; else they are put back.
  abbrev send_back : Bool → List Transaction → Threads S → Threads S
  send_back all_sent txs s =
      if length s.pool.queue == 0 || all_sent
      then record s { phase = sleeping }
      else record s { to_send = s.to_send ++ txs; phase = sleeping }

  -- What mempool_sync does from here to where it leaves a mutex.
  unfoldable pub sync_step : Bool → Phase → Threads S → Threads S
  unfolding drop_invalid
  sync_step all_sent sleeping s = take_to_send s.to_send s
  sync_step all_sent (verifying txs) s = verify_queue txs s
  sync_step all_sent (sending txs) s = send_back all_sent txs s

  -- A call of addTransaction, whatever it answers.
  unfoldable pub add_request :
      Primitives → (Transaction → ℕ) → ℕ → Transaction → Threads S → Threads S
  add_request prims stale now t s =
      let o = add_transaction prims stale view now t (s.chain, s.pool) in
      record s { chain = o.1.0; pool = o.1.1 }

-- `P` are the transactions that requests and blocks bring.
pub data Step {S : Type 0} (prims : Primitives) (stale : Transaction → ℕ) (view : ChainView S)
    (P : Transaction → Type 0) : Threads S → Threads S → Type 0 where
  add :
      (s : Threads S) (now : ℕ) (t : Transaction)
      → P t
      → Step prims stale view P s (add_request view prims stale now t s)
  finish :
      (s : Threads S) (ts : List Transaction)
      → All P ts
      → Step prims stale view P s (record s { pool = finish_block prims stale ts s.pool })
  clean :
      (s : Threads S) (now : ℕ)
      → Step prims stale view P s (record s { pool = cleanup_expired_transactions now s.pool })
  sync :
      (s : Threads S) (all_sent : Bool)
      → Step prims stale view P s (sync_step view all_sent s.phase s)
  -- Another thread changes the chain.
  other : (s : Threads S) (c : S) → Step prims stale view P s (record s { chain = c })

-- A pool as its constructor leaves it.
abbrev pub idle_pool : MemPool
idle_pool = record { outgoing = []; queue = []; wallet_nonces = [] }

abbrev pub started : {S : Type 0} → S → Threads S
started c = record { chain = c; pool = idle_pool; to_send = []; phase = sleeping }

pub data Reach {S : Type 0} (prims : Primitives) (stale : Transaction → ℕ) (view : ChainView S)
    (P : Transaction → Type 0) (c : S) : Threads S → Type 0 where
  start : Reach prims stale view P c (started c)
  later :
      {s s' : Threads S}
      → Reach prims stale view P c s
      → Step prims stale view P s s'
      → Reach prims stale view P c s'
