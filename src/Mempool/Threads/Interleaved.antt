-- ===== src/Mempool/Threads/Interleaved.antt =====
-- The pending amounts under every order in which the threads get the mutexes.
use pandanite_node.Common.{ℕ, ◌≡◌, List, [], ◌∷◌, refl, All, subst, sym, Bool, ap, ◌∙◌}
use pandanite_node.Common.Dict.{value_at, lookup}
use pandanite_node.Crypto.{Primitives}
use pandanite_node.Transaction.{Transaction, copy}
use pandanite_node.Mempool.{ChainView, add_transaction}
use pandanite_node.Mempool.Pending.{Reserved, pending, add_copy-Reserved, cleanup-Reserved}
use pandanite_node.Mempool.Finishing.{Agrees, finish_block-Reserved}
use pandanite_node.Mempool.Threads.{
  Threads, sleeping, take_to_send, sync_step, add_request, Step, add, finish, clean, sync, other,
  Reach, start, later, idle_pool,
}
use pandanite_node.Mempool.Threads.Queued.{add_copy-Queued, finish_block-Queued, cleanup-Queued}

-- The pool holds the sums of what is queued, nothing waits to be sent, and mempool_sync sleeps.
pub record IsCalm {S : Type 0} (P : Transaction → Type 0) (s : Threads S) : Type 0 where
  pub queued : All P s.pool.queue
  pub reserved : Reserved s.pool
  pub unsent : s.to_send ≡ []
  pub asleep : s.phase ≡ sleeping

idle_pool-Reserved : Reserved idle_pool
unfolding value_at lookup pending
idle_pool-Reserved w = refl

module _ {S : Type 0} (prims : Primitives) (stale : Transaction → ℕ) (view : ChainView S)
    (P : Transaction → Type 0) (copied : (t : Transaction) → P t → P (copy stale t))
    (agree : (t u : Transaction) → P t → P u → Agrees prims stale t u) where
  queue-Agrees :
      (t : Transaction) (queue : List Transaction)
      → P t
      → All P queue
      → All (Agrees prims stale t) queue
  queue-Agrees t [] h hs = tt
  queue-Agrees t (u ∷ queue) h hs = (agree t u h hs.0, queue-Agrees t queue h hs.1)

  block-Agrees :
      (ts queue : List Transaction)
      → All P ts
      → All P queue
      → All (λ t. All (Agrees prims stale t) queue) ts
  block-Agrees [] queue h hs = tt
  block-Agrees (t ∷ ts) queue h hs = (queue-Agrees t queue h.0 hs, block-Agrees ts queue h.1 hs)

  -- While mempool_sync sleeps and has nothing to send, a round of it changes nothing.
  sync_step-idle :
      (all_sent : Bool) (s : Threads S)
      → s.to_send ≡ []
      → s.phase ≡ sleeping
      → sync_step view all_sent s.phase s ≡ s
  unfolding sync_step
  sync_step-idle all_sent s unsent asleep =
      ap (λ phase. sync_step view all_sent phase s) asleep
      ∙ ap (λ txs. take_to_send view txs s) unsent

  Step-IsCalm : {s s' : Threads S} → Step prims stale view P s s' → IsCalm P s → IsCalm P s'
  unfolding add_request add_transaction
  Step-IsCalm (add s now t h) c = record {
    queued =
        add_copy-Queued prims stale P view (copy stale t) (copied (copy stale t) (copied t h)) now
          (s.chain, s.pool) c.queued;
    reserved = add_copy-Reserved prims stale view now (copy stale t) s.chain s.pool c.reserved;
    unsent = c.unsent;
    asleep = c.asleep;
  }
  Step-IsCalm (finish s ts h) c = record {
    queued = finish_block-Queued prims stale P ts s.pool c.queued;
    reserved =
        finish_block-Reserved prims stale ts s.pool (block-Agrees ts s.pool.queue h c.queued)
          c.reserved;
    unsent = c.unsent;
    asleep = c.asleep;
  }
  Step-IsCalm (clean s now) c = record {
    queued = cleanup-Queued P now s.pool c.queued;
    reserved = cleanup-Reserved now s.pool c.reserved;
    unsent = c.unsent;
    asleep = c.asleep;
  }
  Step-IsCalm (sync s all_sent) c =
      subst (IsCalm P) (sym (sync_step-idle all_sent s c.unsent c.asleep)) c
  Step-IsCalm (other s chain) c = record {
    queued = c.queued;
    reserved = c.reserved;
    unsent = c.unsent;
    asleep = c.asleep;
  }

  -- From the start with an empty pool on, in whatever order requests, blocks, the removal of expired
  -- transactions, mempool_sync and changes of the chain follow each other, the pool holds for every wallet
  -- the sum of what its queued transactions take, modulo 2 ^ 64, and mempool_sync has nothing to send. The
  -- transactions that come in are such that two of the same fee and hash pay the same from the same
  -- wallet, and such are their copies.
  pub Reach-IsCalm : (chain : S) (s : Threads S) → Reach prims stale view P chain s → IsCalm P s
  Reach-IsCalm chain s start = record {
    queued = tt;
    reserved = idle_pool-Reserved;
    unsent = refl;
    asleep = refl;
  }
  Reach-IsCalm chain s (later {s = before} r step) = Step-IsCalm step (Reach-IsCalm chain before r)
