-- ===== src/Executor/Deltas.antt =====
-- The deltas that a run of the executor keeps record what the run did to the ledger.
use pandanite_node.Common.{ℕ, ◌+◌, ◌-◌, ◌%◌, ◌≡◌, arith, u64, Option-cases, inl, inr, List, []}
use pandanite_node.Common.Dict.{Dict, lookup, insert, lookup-insert, value_at}
use pandanite_node.Common.State.{Keeps}
use pandanite_node.Transaction.{Transaction}
use pandanite_node.Ledger.{Ledger}
use pandanite_node.Ledger
use pandanite_node.Ledger.Methods.{balance, IsBounded}
use pandanite_node.Executor.{Exec, deposit, withdraw, execute_transaction}
use pandanite_node.Crypto.{Primitives}
use pandanite_node.Executor.Block.{execute_block}
use pandanite_node.Executor.Invariants.{execute_block-Keeps, execute_transaction-Keeps}

-- Each wallet holds what it held in `base`, plus its delta, modulo 2 ^ 64.
abbrev pub Tracks : Ledger → Exec → Type 0
Tracks base s = (w : ℕ) → balance w s.ledger ≡ (balance w base + value_at w s.deltas) % u64

-- The state in which a run begins, with empty deltas.
abbrev pub start : Ledger → List (ℕ × ℕ) → Exec
start base items = record { ledger = base; deltas = []; invalid_transactions = items }

start-Tracks :
    (base : Ledger) (items : List (ℕ × ℕ)) → IsBounded base → Tracks base (start base items)
unfolding value_at
start-Tracks base items h w = ground (arith, h w)

-- What a deposit and a withdrawal leave of the balances, whether they throw or not.
pub deposit-Tracks : (base : Ledger) (to amt : ℕ) → Keeps (Tracks base) (deposit to amt)
unfolding deposit Ledger.deposit Ledger.has_wallet Ledger.create_wallet value_at
deposit-Tracks base to amt s h w = elim (Option-cases (lookup to s.ledger.db)) [
  | inl e ↦
      let db' : Dict ℕ = insert to 0 s.ledger.db in
      ground (
        arith,
        h w,
        h to,
        lookup-insert to to 0 s.ledger.db,
        lookup-insert w to 0 s.ledger.db,
        lookup-insert w to ((0 + amt) % u64) db',
        lookup-insert w to amt s.deltas,
        lookup-insert w to ((value_at to s.deltas + amt) % u64) s.deltas,
      )
  | inr (v, e) ↦ ground (
    arith,
    h w,
    h to,
    lookup-insert w to ((v + amt) % u64) s.ledger.db,
    lookup-insert w to amt s.deltas,
    lookup-insert w to ((value_at to s.deltas + amt) % u64) s.deltas,
  )
]

pub withdraw-Tracks : (base : Ledger) (from amt : ℕ) → Keeps (Tracks base) (withdraw from amt)
unfolding withdraw Ledger.withdraw Ledger.has_wallet value_at
withdraw-Tracks base from amt s h w = elim (Option-cases (lookup from s.ledger.db)) [
  | inl e ↦ ground (arith, h w)
  | inr (v, e) ↦ ground (
    arith,
    h w,
    h from,
    lookup-insert w from ((v + u64 - amt) % u64) s.ledger.db,
    lookup-insert w from ((u64 - amt) % u64) s.deltas,
    lookup-insert w from ((value_at from s.deltas + u64 - amt) % u64) s.deltas,
  )
]

module _ (prims : Primitives) (base : Ledger) where
  -- However the execution of a block ends, with any status or by an exception, each wallet holds
  -- afterwards what it held before, plus its entry in the deltas, modulo 2 ^ 64, provided that the
  -- deltas were empty and the balances uint64_t.
  pub execute_block-Tracks :
      (stale : Transaction → ℕ) (block_id : ℕ) (ts : List Transaction) (txdb : Dict ℕ)
      (block_mining_fee : ℕ) (items : List (ℕ × ℕ))
      → IsBounded base
      → Tracks base
          (execute_block prims stale block_id ts txdb block_mining_fee (start base items)).1
  execute_block-Tracks stale block_id ts txdb block_mining_fee items h =
      execute_block-Keeps (Tracks base) (deposit-Tracks base) (withdraw-Tracks base) (λ s i p. p)
        prims stale block_id ts txdb block_mining_fee (start base items) (start-Tracks base items h)

  -- However the execution of a single transaction outside a block ends, each wallet holds
  -- afterwards what it held before, plus its entry in the deltas, modulo 2 ^ 64, provided that the
  -- deltas were empty and the balances uint64_t.
  pub execute_transaction-Tracks :
      (t : Transaction) (items : List (ℕ × ℕ))
      → IsBounded base
      → Tracks base (execute_transaction prims t (start base items)).1
  execute_transaction-Tracks t items h =
      execute_transaction-Keeps (Tracks base) (deposit-Tracks base) (withdraw-Tracks base)
        (λ s i p. p) prims t (start base items) (start-Tracks base items h)
