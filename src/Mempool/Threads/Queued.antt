-- ===== src/Mempool/Threads/Queued.antt =====
-- What holds of the queued transactions stays so, if it holds of those that come in.
use pandanite_node.Common.{
  ℕ, List, [], ◌∷◌, Bool, true, false, ◌==◌, arith, Bool-cases, inl, inr, All,
}
use pandanite_node.Common.Dict.{Dict, value_at}
use pandanite_node.Common.State.{Leads, Leads-bind}
use pandanite_node.Crypto.{Primitives}
use pandanite_node.Transaction.{Transaction, copy, is_expired}
use pandanite_node.Executor.{ExecutionStatus, success}
use pandanite_node.Mempool.{
  MemPool, ChainView, touch, insert_sorted, insert_transaction, accept, check_nonce, after_verify,
  add_payment, add_fee, after_fee, add_copy, cleanup, cleanup_expired_transactions, finish_block,
  on_chain,
}
use pandanite_node.Mempool.Finishing.{finish_transaction-All}

module _ (prims : Primitives) (stale : Transaction → ℕ) (P : Transaction → Type 0) where
  abbrev pub Queued : MemPool → Type 0
  Queued p = All P p.queue

  insert_sorted-All :
      (t stored : Transaction) (queue : List Transaction)
      → P stored
      → All P queue
      → All P (insert_sorted prims stale t stored queue)
  unfolding insert_sorted
  insert_sorted-All t stored [] h hs = (h, tt)
  insert_sorted-All t stored (x ∷ queue) h hs =
      ground (arith, hs.0, hs.1, insert_sorted-All t stored queue h hs.1)

  insert_transaction-Queued :
      (t : Transaction) (p : MemPool)
      → P (copy stale t)
      → Queued p
      → Queued (insert_transaction prims stale t p)
  unfolding insert_transaction
  insert_transaction-Queued t p h hs =
      ground (arith, hs, insert_sorted-All t (copy stale t) p.queue h hs)

  module _ {S : Type 0} (chain : ChainView S) (t : Transaction) (copied : P (copy stale t)) where
    -- The queue, behind the state of the chain.
    abbrev InOrder : S × MemPool → Type 0
    InOrder s = Queued s.1

    check_nonce-Queued : (b : Bool) → Leads InOrder (check_nonce prims stale chain t b) InOrder
    unfolding check_nonce accept
    check_nonce-Queued false s h = h
    check_nonce-Queued true (s, p) h =
        elim (Bool-cases (t.nonce == value_at t.from (touch t.from p.wallet_nonces))) [
          | inl right ↦ rw right (insert_transaction-Queued t _ copied h)
          | inr wrong ↦ rw wrong h
        ]

    after_verify-Queued :
        (balance waiting : ℕ) (status : ExecutionStatus)
        → Leads InOrder (after_verify prims stale chain t balance waiting status) InOrder
    unfolding after_verify
    after_verify-Queued balance waiting success s h = check_nonce-Queued _ s h
    after_verify-Queued balance waiting status s h = h

    add_payment-Queued : Leads InOrder (add_payment prims stale chain t) InOrder
    unfolding add_payment
    add_payment-Queued s h =
        Leads-bind InOrder InOrder InOrder (on_chain (chain.get_wallet_value t.from)) _ (λ s h. h)
          (λ balance (s, p) h.
            Leads-bind InOrder InOrder InOrder (on_chain (chain.verify_transaction t)) _ (λ s h. h)
              (λ status. after_verify-Queued balance _ status) (λ s h. h)
              (s, record p { outgoing = touch t.from p.outgoing }) h)
          (λ s h. h) s h

    after_fee-Queued :
        (status : ExecutionStatus) → Leads InOrder (after_fee prims stale chain t status) InOrder
    unfolding after_fee
    after_fee-Queued success (s, p) h = insert_transaction-Queued t p copied h
    after_fee-Queued status s h = h

    add_fee-Queued : Leads InOrder (add_fee prims stale chain t) InOrder
    unfolding add_fee
    add_fee-Queued s h =
        Leads-bind InOrder InOrder InOrder (on_chain (chain.verify_transaction t)) _ (λ s h. h)
          after_fee-Queued (λ s h. h) s h

    pub add_copy-Queued : (now : ℕ) → Leads InOrder (add_copy prims stale chain now t) InOrder
    unfolding add_copy
    add_copy-Queued now (s, p) h =
        ground (arith, h, add_fee-Queued (s, p) h, add_payment-Queued (s, p) h)

  pub finish_block-Queued :
      (ts : List Transaction) (p : MemPool) → Queued p → Queued (finish_block prims stale ts p)
  unfolding finish_block
  finish_block-Queued [] p h = h
  finish_block-Queued (t ∷ ts) p h =
      finish_block-Queued ts _ (finish_transaction-All prims stale P t p h)

cleanup-All :
    (P : Transaction → Type 0) (now : ℕ) (queue : List Transaction) (outgoing : Dict ℕ)
    → All P queue
    → All P (cleanup now queue outgoing).0
unfolding cleanup
cleanup-All P now [] outgoing h = tt
cleanup-All P now (t ∷ queue) outgoing h = elim (Bool-cases (is_expired now t)) [
  | inl e ↦ rw e (cleanup-All P now queue _ h.1)
  | inr e ↦ rw e (h.0, cleanup-All P now queue _ h.1)
]

pub cleanup-Queued :
    (P : Transaction → Type 0) (now : ℕ) (p : MemPool)
    → All P p.queue
    → All P (cleanup_expired_transactions now p).queue
unfolding cleanup_expired_transactions
cleanup-Queued P now p h = cleanup-All P now p.queue p.outgoing h
