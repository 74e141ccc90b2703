-- ===== src/Mempool/Pending.antt =====
-- mempoolOutgoing against the queue.
use pandanite_node.Common.{
  ℕ, ◌+◌, ◌-◌, ◌%◌, ◌≡◌, List, [], ◌∷◌, Bool, true, false, not, ◌&&◌, ◌==◌, if◌then◌else◌, u64,
  arith, refl, Bool-cases, inl, inr,
}
use pandanite_node.Common.Dict.{Dict, insert, value_at, value_at-insert}
use pandanite_node.Common.State.{Result, ok, throws, Leads, Leads-bind, resume}
use pandanite_node.Crypto.{Primitives}
use pandanite_node.Transaction.{Transaction, copy, is_expired}
use pandanite_node.Executor.{ExecutionStatus, success}
use pandanite_node.Mempool.{
  MemPool, ChainView, touch, total_required, has_transaction, insert_sorted, insert_transaction,
  accept, check_nonce, after_verify, add_payment, add_fee, after_fee, add_copy, cleanup,
  cleanup_expired_transactions, on_chain,
}

-- What one queued transaction takes from a wallet, and what the queue takes.
abbrev pub takes : ℕ → Transaction → ℕ
takes w t = if not t.is_transaction_fee && t.from == w then total_required t else 0

unfoldable pub pending : ℕ → List Transaction → ℕ
pending w [] = 0
pending w (t ∷ queue) = takes w t + pending w queue

-- For every wallet the pool holds the sum of what its queued transactions take, modulo 2 ^ 64.
abbrev pub Reserved : MemPool → Type 0
Reserved p = (w : ℕ) → value_at w p.outgoing ≡ pending w p.queue % u64

cleanup-pending :
    (now : ℕ) (queue : List Transaction) (outgoing : Dict ℕ) (w extra : ℕ)
    → value_at w outgoing ≡ (pending w queue + extra) % u64
    → value_at w (cleanup now queue outgoing).1
      ≡ (pending w (cleanup now queue outgoing).0 + extra) % u64
unfolding cleanup pending
cleanup-pending now [] outgoing w extra h = h
cleanup-pending now (t ∷ queue) outgoing w extra h = elim (Bool-cases (is_expired now t)) [
  | inr keep ↦
      rw keep
        (omega (arith, cleanup-pending now queue outgoing w (takes w t + extra) (omega (arith, h))))
  | inl drop ↦ rw drop (elim (Bool-cases t.is_transaction_fee) [
    | inl fee ↦ rw fee (cleanup-pending now queue outgoing w extra (ground (arith, h, fee)))
    | inr payment ↦
        let left = (value_at t.from outgoing + u64 - total_required t) % u64 in
        rw payment (
          cleanup-pending now queue (insert t.from left outgoing) w extra
            (ground (arith, h, payment, value_at-insert w t.from left outgoing)))
  ])
]

-- Dropping the expired transactions keeps the pool in order: if it held for every wallet the sum of
-- what the queued transactions take, modulo 2 ^ 64, it does so for the queue that is left.
pub cleanup-Reserved :
    (now : ℕ) (p : MemPool) → Reserved p → Reserved (cleanup_expired_transactions now p)
unfolding cleanup_expired_transactions
cleanup-Reserved now p h w =
    omega (arith, cleanup-pending now p.queue p.outgoing w 0 (omega (arith, h w)))

module _ (prims : Primitives) (stale : Transaction → ℕ) where
  insert_sorted-pending :
      (w : ℕ) (t stored : Transaction) (queue : List Transaction)
      → pending w (insert_sorted prims stale t stored queue) ≡ takes w stored + pending w queue
  unfolding insert_sorted pending
  insert_sorted-pending w t stored [] = refl
  insert_sorted-pending w t stored (x ∷ queue) =
      ground (arith, insert_sorted-pending w t stored queue)

  -- The pool is in order and its queue is this one.
  abbrev Has : {S : Type 0} → List Transaction → S × MemPool → Type 0
  Has queue s = Reserved s.1 × (s.1.queue ≡ queue)

  touch-value_at : (w k : ℕ) (d : Dict ℕ) → value_at w (touch k d) ≡ value_at w d
  touch-value_at w k d = ground (arith, value_at-insert w k (value_at k d) d)

  accept-Reserved :
      (t : Transaction) (p : MemPool)
      → Reserved p
      → has_transaction prims stale t p.queue ≡ false
      → t.is_transaction_fee ≡ false
      → Reserved (accept prims stale t p)
  unfolding accept insert_transaction copy
  accept-Reserved t p h fresh payment w = rw fresh (
      ground (
        arith,
        h w,
        payment,
        insert_sorted-pending w t (copy stale t) p.queue,
        value_at-insert w t.from ((value_at t.from p.outgoing + total_required t) % u64) p.outgoing,
      ))

  module _ {S : Type 0} (chain : ChainView S) (queue : List Transaction) where
    check_nonce-Reserved :
        (t : Transaction) (b : Bool)
        → has_transaction prims stale t queue ≡ false
        → t.is_transaction_fee ≡ false
        → Leads (Has queue) (check_nonce prims stale chain t b) (λ s. Reserved s.1)
    unfolding check_nonce
    check_nonce-Reserved t false fresh payment s h = h.0
    check_nonce-Reserved t true fresh payment (s, p) h =
        let q : MemPool = record p { wallet_nonces = touch t.from p.wallet_nonces } in
        let same : has_transaction prims stale t p.queue ≡ false = rw h.1 fresh in
        elim (Bool-cases (t.nonce == value_at t.from (touch t.from p.wallet_nonces))) [
          | inl right ↦ rw right (accept-Reserved t q h.0 same payment)
          | inr wrong ↦ rw wrong h.0
        ]

    after_verify-Reserved :
        (t : Transaction) (balance waiting : ℕ) (status : ExecutionStatus)
        → has_transaction prims stale t queue ≡ false
        → t.is_transaction_fee ≡ false
        → Leads
            (Has queue)
            (after_verify prims stale chain t balance waiting status)
            (λ s. Reserved s.1)
    unfolding after_verify
    after_verify-Reserved t balance waiting success fresh payment s h =
        check_nonce-Reserved t _ fresh payment s h
    after_verify-Reserved t balance waiting status fresh payment s h = h.0

    add_payment-Reserved :
        (t : Transaction)
        → has_transaction prims stale t queue ≡ false
        → t.is_transaction_fee ≡ false
        → Leads (Has queue) (add_payment prims stale chain t) (λ s. Reserved s.1)
    unfolding add_payment
    add_payment-Reserved t fresh payment s h =
        Leads-bind (Has queue) (Has queue) (λ s. Reserved s.1)
          (on_chain (chain.get_wallet_value t.from)) _ (λ s h. h)
          (λ balance (s, p) h.
            Leads-bind (Has queue) (Has queue) (λ s. Reserved s.1)
              (on_chain (chain.verify_transaction t)) _ (λ s h. h)
              (λ status. after_verify-Reserved t balance _ status fresh payment) (λ s h. h.0)
              (s, record p { outgoing = touch t.from p.outgoing })
              ((λ w. rw touch-value_at (h.0 w)), h.1))
          (λ s h. h.0) s h

  module _ {S : Type 0} (chain : ChainView S) (t : Transaction) where
    after_fee-Reserved :
        (r : Result ExecutionStatus) (s : S) (p : MemPool)
        → t.is_transaction_fee ≡ true
        → Reserved p
        → Reserved (resume (after_fee prims stale chain t) r (s, p)).1.1
    unfolding after_fee insert_transaction copy
    after_fee-Reserved (ok success) s p fee h w =
        ground (arith, h w, fee, insert_sorted-pending w t (copy stale t) p.queue)
    after_fee-Reserved (ok status) s p fee h w = h w
    after_fee-Reserved (throws e) s p fee h w = h w

  -- Whatever addTransaction answers, and also when a call of the chain throws, the pool holds for
  -- every wallet the sum of what its queued transactions take, modulo 2 ^ 64, if it did before.
  pub add_copy-Reserved :
      {S : Type 0} (chain : ChainView S) (now : ℕ) (t : Transaction) (s : S) (p : MemPool)
      → Reserved p
      → Reserved (add_copy prims stale chain now t (s, p)).1.1
  unfolding add_copy add_fee
  add_copy-Reserved chain now t s p h = elim (Bool-cases t.is_transaction_fee) [
    | inl fee ↦ ground (
      arith,
      fee,
      h,
      after_fee-Reserved chain t (chain.verify_transaction t s).0 (chain.verify_transaction t s).1 p
          fee h,
    )
    | inr payment ↦ elim (Bool-cases (has_transaction prims stale t p.queue)) [
      | inl known ↦ ground (arith, known, h)
      | inr fresh ↦ ground (
        arith,
        payment,
        fresh,
        h,
        add_payment-Reserved chain p.queue t fresh payment (s, p) (h, refl),
      )
    ]
  ]
