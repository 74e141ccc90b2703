-- ===== src/Mempool/Finishing.antt =====
-- MemPool::finishBlock: what a block took leaves the queue and the pending amounts.
use pandanite_node.Common.{
  ℕ, ◌+◌, ◌-◌, ◌%◌, ◌≡◌, List, [], ◌∷◌, true, ◌==◌, if◌then◌else◌, u64, arith, Bool-cases, inl, inr,
  All,
}
use pandanite_node.Common.Dict.{Dict, value_at, value_at-insert, value_at-erase}
use pandanite_node.Crypto.{Primitives}
use pandanite_node.Transaction.{Transaction}
use pandanite_node.Mempool.{
  MemPool, total_required, has_transaction, erase_transaction, release, finish_transaction,
  finish_block, equivalent,
}
use pandanite_node.Mempool.Pending.{Reserved, pending, takes}

module _ (prims : Primitives) (stale : Transaction → ℕ) where
  -- A queued transaction that the set takes for `t` pays the same from the same wallet.
  abbrev pub Agrees : Transaction → Transaction → Type 0
  Agrees t x = equivalent prims stale t x ≡ true → (w : ℕ) → takes w x ≡ takes w t

  erase-pending :
      (w : ℕ) (t : Transaction) (queue : List Transaction)
      → All (Agrees t) queue
      → has_transaction prims stale t queue ≡ true
      → pending w (erase_transaction prims stale t queue) + takes w t ≡ pending w queue
  unfolding erase_transaction has_transaction pending
  erase-pending w t [] h found = cc
  erase-pending w t (x ∷ queue) h found = elim (Bool-cases (equivalent prims stale t x)) [
    | inl hit ↦ rw hit (omega (arith, h.0 hit w))
    | inr miss ↦ ground (arith, miss, found, erase-pending w t queue h.1)
  ]

  erase-All :
      (P : Transaction → Type 0) (t : Transaction) (queue : List Transaction)
      → All P queue
      → All P (erase_transaction prims stale t queue)
  unfolding erase_transaction
  erase-All P t [] h = tt
  erase-All P t (x ∷ queue) h = elim (Bool-cases (equivalent prims stale t x)) [
    | inl hit ↦ rw hit h.1
    | inr miss ↦ rw miss (h.0, erase-All P t queue h.1)
  ]

  release-value_at :
      (w : ℕ) (t : Transaction) (outgoing : Dict ℕ)
      → value_at w (release prims stale t outgoing) ≡ (
          if t.from == w
          then (value_at t.from outgoing + u64 - total_required t) % u64
          else value_at w outgoing)
  unfolding release
  release-value_at w t outgoing =
      let left = (value_at t.from outgoing + u64 - total_required t) % u64 in
      ground (arith, value_at-insert w t.from left outgoing, value_at-erase w t.from outgoing)

  finish_transaction-Reserved :
      (t : Transaction) (p : MemPool)
      → All (Agrees t) p.queue
      → Reserved p
      → Reserved (finish_transaction prims stale t p)
  unfolding finish_transaction
  finish_transaction-Reserved t p agrees h w =
      elim (Bool-cases (has_transaction prims stale t p.queue)) [
        | inr unknown ↦ rw unknown (h w)
        | inl found ↦ rw found (
            ground
              (arith, h w, erase-pending w t p.queue agrees found, release-value_at w t p.outgoing))
      ]

  pub finish_transaction-All :
      (P : Transaction → Type 0) (t : Transaction) (p : MemPool)
      → All P p.queue
      → All P (finish_transaction prims stale t p).queue
  unfolding finish_transaction
  finish_transaction-All P t p h = elim (Bool-cases (has_transaction prims stale t p.queue)) [
    | inr unknown ↦ rw unknown h
    | inl found ↦ rw found (erase-All P t p.queue h)
  ]

  -- Finishing a block keeps the pool in order: the pending amounts stay the sums of what is queued,
  -- provided that a queued transaction with the fee and hash of one of the block's pays the same
  -- from the same wallet.
  pub finish_block-Reserved :
      (ts : List Transaction) (p : MemPool)
      → All (λ t. All (Agrees t) p.queue) ts
      → Reserved p
      → Reserved (finish_block prims stale ts p)
  unfolding finish_block
  finish_block-Reserved [] p agrees h = h
  finish_block-Reserved (t ∷ ts) p agrees h =
      finish_block-Reserved ts (finish_transaction prims stale t p) (still ts agrees.1)
        (finish_transaction-Reserved t p agrees.0 h)
    where
      still :
          (us : List Transaction)
          → All (λ u. All (Agrees u) p.queue) us
          → All (λ u. All (Agrees u) (finish_transaction prims stale t p).queue) us
      still [] a = tt
      still (u ∷ us) a = (finish_transaction-All (Agrees u) t p a.0, still us a.1)
