-- ===== src/Blockchain/Syncing/Starting.antt =====
-- server/blockchain.cpp: startChainSync, which holds the chain's mutex to its end. What a peer answers to
-- a request for the blocks of a range enters as an argument.
use pandanite_node.Common.{
  ℕ, zero, suc, ◌+◌, ◌-◌, Bool, true, false, not, ◌==◌, ltb, Option, none, some, List, [], ◌∷◌,
  if◌then◌else◌, min,
}
use pandanite_node.Common.Int.{ℤ}
use pandanite_node.Common.State.{Action, Result, ok, throws, Outcome, returns, exits, waits, after}
use pandanite_node.Crypto.{Primitives}
use pandanite_node.Transaction.{Transaction}
use pandanite_node.Transaction.Buffer.{TransactionInfo}
use pandanite_node.Block.{Block}
use pandanite_node.Block
use pandanite_node.Executor.{ExecutionStatus, success, unknown_error}
use pandanite_node.MiningFee.{Doubles}
use pandanite_node.HeaderChain.{Work}
use pandanite_node.Blockchain.{BlockChain, get_block}
use pandanite_node.HostManager.{HostManager, get_good_host, get_block_count, get_block_hash}
use pandanite_node.HostManager
use pandanite_node.Blockchain.Syncing.{
  Removal, State, set_syncing, add_block_locking, pop_block, blocks_per_fetch, fork_chain_pop_count,
}

-- The empty text, which names no host, is 0.
abbrev pub best_host : Option ℕ → ℕ
best_host none = 0
best_host (some host) = host

-- `trustedHash != myHash`. The ids of the loop begin with 1, so a trusted hash is there.
unfoldable pub differs : Primitives → Option ℕ → Block → Bool
differs prims none b = true
differs prims (some h) b = not (h == Block.get_hash prims b)

module _ {W : Type 0} where
  -- What is caught becomes UNKNOWN_ERROR.
  abbrev pub caught : Outcome (State W) ExecutionStatus → Outcome (State W) ExecutionStatus
  caught (returns (throws e) s) = returns (ok unknown_error) s
  caught (returns (ok status) s) = returns (ok status) s
  caught exits = exits
  caught waits = waits

  abbrev pub finish : ExecutionStatus → (State W) → Outcome (State W) ExecutionStatus
  finish status s = returns (ok status) (set_syncing false s)

  abbrev pub heavier : Work W → Removal W → HostManager W → BlockChain W → Bool
  heavier work removal m c = removal.gt (HostManager.get_total_work work removal.gt m) c.total_work

module _ {W : Type 0} (stale : Transaction → ℕ) (memory : TransactionInfo → Transaction)
    (prims : Primitives) where
  -- toPop, from an id on for so many rounds.
  unfoldable pub blocks_to_pop : (ℕ → Option ℕ) → ℕ → ℕ → Action (BlockChain W) ℕ
  unfolding differs
  blocks_to_pop trusted zero i c = (ok 0, c)
  blocks_to_pop trusted (suc n) i c = elim (get_block stale memory i c).0 [
    | throws e ↦ (throws e, c)
    | ok b ↦ elim (differs prims (trusted i) b) [
      | true ↦ (ok (c.num_blocks - i + fork_chain_pop_count), c)
      | false ↦ blocks_to_pop trusted n (i + 1) c
    ]
  ]

module _ {W D : Type 0} (stale : Transaction → ℕ) (memory : TransactionInfo → Transaction)
    (prims : Primitives) (work : Work W) (doubles : Doubles D) (removal : Removal W) (unset : ℕ)
    (time : ℕ) (genesis : Option Block) where
  unfoldable pub pop_blocks : ℕ → (State W) → Outcome (State W) (Unit {0})
  pop_blocks zero s = returns (ok tt) s
  pop_blocks (suc n) s =
      if s.0.num_blocks == 1
      then returns (ok tt) s
      else after (λ u s'. pop_blocks n s')
          (pop_block stale memory prims work doubles removal unset true time genesis s)

  -- The loop over the blocks of an answer: the status of the first that is not added.
  unfoldable pub add_blocks : List Block → (State W) → Outcome (State W) ExecutionStatus
  add_blocks [] s = returns (ok success) s
  add_blocks (b ∷ blocks) s =
      after
        (λ status s'. elim status [
          | success ↦ add_blocks blocks s'
          | other ↦ returns (ok other) s'
        ])
        (add_block_locking stale memory prims work doubles true time b s)

  -- The loop that downloads the blocks, with fuel.
  unfoldable pub fetch_blocks :
      (ℕ → ℕ → Result (List Block)) → ℕ → ℕ → ℕ → (State W) → Outcome (State W) ExecutionStatus
  unfolding add_blocks
  fetch_blocks answer target zero i s = returns (ok success) s
  fetch_blocks answer target (suc fuel) i s =
      if ltb target i
      then returns (ok success) s
      else (elim (answer i (min target (i + blocks_per_fetch - 1))) [
        | throws e ↦ returns (ok unknown_error) s
        | ok blocks ↦
            after
              (λ status s'. elim status [
                | success ↦ fetch_blocks answer target fuel (i + blocks_per_fetch) s'
                | other ↦ returns (ok other) s'
              ])
              (caught (add_blocks blocks s))
      ])

  -- The rest, when the blocks that differ have been counted: each round raises the id, so the target
  -- is fuel enough.
  unfoldable pub after_count :
      (ℕ → ℕ → Result (List Block)) → ℕ → ℕ → (State W) → Outcome (State W) ExecutionStatus
  unfolding pop_blocks fetch_blocks
  after_count answer target to_pop s =
      after
        (λ u s'. after finish (fetch_blocks answer target (target + 1) (s'.0.num_blocks + 1) s'))
        (pop_blocks to_pop s)

  unfoldable pub start_chain_sync :
      (ℕ → Option ℤ)
      → (ℕ → ℕ → ℕ → Result (List Block))
      → HostManager W
      → (State W)
      → Outcome (State W) ExecutionStatus
  unfolding after_count get_good_host get_block_count get_block_hash HostManager.get_total_work
      blocks_to_pop
  start_chain_sync height answer m (c, p) =
      let host = best_host (get_good_host height m) in
      let target = get_block_count work removal.gt m in
      let trusted : ℕ → Option ℕ = λ i. get_block_hash host i m in
      let syncing = record c { syncing = true } in
      let (count, c') = blocks_to_pop stale memory prims trusted c.num_blocks 1 syncing in
      if heavier work removal m c
      then (elim count [
        | throws e ↦ returns (throws e) (c', p)
        | ok to_pop ↦ after_count (answer host) target to_pop (c', p)
      ])
      else after_count (answer host) target 0 (syncing, p)
