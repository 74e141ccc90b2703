-- ===== src/Executor/Rollback.antt =====
-- Executor::Rollback, which is to undo a run from its deltas. A delta below zero is stored as
-- 2 ^ 64 minus the amount, and Ledger::withdraw refuses to take that off.
use pandanite_node.Common.{
  ℕ, ◌+◌, ◌-◌, ◌%◌, ◌<◌, ◌≡◌, ◌≢◌, ◌⊎◌, some, arith, u64, ◌==◌, Option-cases, inl, inr, List, [],
  ◌∷◌, Bool-cases,
}
use pandanite_node.Common.Dict.{Dict, lookup, lookup-insert, value_at}
use pandanite_node.Common.State.{Result, ok, throws, resume}
use pandanite_node.Crypto.{Primitives}
use pandanite_node.Transaction.{Transaction}
use pandanite_node.Ledger.{Ledger}
use pandanite_node.Ledger
use pandanite_node.Ledger.Methods.{balance, IsBounded}
use pandanite_node.Executor.{Exec, rollback}
use pandanite_node.Executor.Block.{execute_block}
use pandanite_node.Executor.Deltas.{Tracks, start, execute_block-Tracks}

abbrev pub Throws : {A : Type 0} → Result A → Type 0
Throws (ok _) = ⊥
Throws (throws _) = Unit

-- What a withdrawal does to the wallet that it names, and to another.
withdraw_other :
    (wallet amt k : ℕ) (l : Ledger)
    → k ≢ wallet
    → balance k (Ledger.withdraw wallet amt l).1 ≡ balance k l
unfolding Ledger.withdraw value_at
withdraw_other wallet amt k l ne =
    ground (arith, lookup-insert k wallet ((value_at wallet l.db + u64 - amt) % u64) l.db)

withdraw_more :
    (wallet amt : ℕ) (l : Ledger) → balance wallet l < amt → Throws (Ledger.withdraw wallet amt l).0
unfolding Ledger.withdraw value_at
withdraw_more wallet amt l h = ground arith

then_Throws :
    (wallet δ : ℕ) (l : Ledger) (rest : Dict ℕ)
    → (Throws (rollback rest (Ledger.withdraw wallet δ l).1).0)
      ⊎ (Throws (Ledger.withdraw wallet δ l).0)
    → Throws (rollback ((wallet, δ) ∷ rest) l).0
unfolding rollback
then_Throws wallet δ l rest h = go (Ledger.withdraw wallet δ l).0 h
  where
    go :
        (r : Result (Unit {0}))
        → (Throws (rollback rest (Ledger.withdraw wallet δ l).1).0) ⊎ (Throws r)
        → Throws (resume (λ _. rollback rest) r (Ledger.withdraw wallet δ l).1).0
    go (ok _) (inl t) = t
    go (ok _) (inr t) = absurd t
    go (throws _) t = tt

-- A rollback throws as soon as one delta is above what its wallet holds.
rollback-Throws :
    (deltas : Dict ℕ) (l : Ledger) (k d : ℕ)
    → lookup k deltas ≡ some d
    → balance k l < d
    → Throws (rollback deltas l).0
unfolding lookup
rollback-Throws [] l k d e h = cc
rollback-Throws ((w, δ) ∷ deltas) l k d e h = elim (Bool-cases (k == w)) [
  | inl same ↦ then_Throws w δ l deltas (inr (withdraw_more w δ l (ground (arith, h, e, same))))
  | inr other ↦ then_Throws w δ l deltas (
      inl (
        rollback-Throws deltas (Ledger.withdraw w δ l).1 k d (ground arith)
          (ground (arith, withdraw_other w δ k l))))
]

-- Where each wallet holds what it held plus its delta, and one of them holds less than before, its
-- delta is above what it holds.
pub Tracks-Throws :
    (base : Ledger) (s : Exec) (w : ℕ)
    → IsBounded base
    → Tracks base s
    → balance w s.ledger < balance w base
    → Throws (rollback s.deltas s.ledger).0
unfolding value_at
Tracks-Throws base s w b tracks less = elim (Option-cases (lookup w s.deltas)) [
  | inl e ↦ absurd (ground (arith, tracks w, b w))
  | inr (d, e) ↦ rollback-Throws s.deltas s.ledger w d e (ground (arith, tracks w, b w))
]

module _ (prims : Primitives) (stale : Transaction → ℕ) (block_id : ℕ) (ts : List Transaction)
    (txdb : Dict ℕ) (block_mining_fee : ℕ) (base : Ledger) (items : List (ℕ × ℕ)) where
  -- What the execution of the block leaves.
  abbrev pub ran : Exec
  ran = (execute_block prims stale block_id ts txdb block_mining_fee (start base items)).1

  -- Whenever the execution of a block, however it ended, has left some wallet with less than it
  -- had, rolling back its deltas throws; provided that the balances were uint64_t and the deltas
  -- empty.
  pub rollback-execute_block-Throws :
      (w : ℕ)
      → IsBounded base
      → balance w ran.ledger < balance w base
      → Throws (rollback ran.deltas ran.ledger).0
  rollback-execute_block-Throws w b =
      Tracks-Throws base ran w b
        (execute_block-Tracks prims base stale block_id ts txdb block_mining_fee items b)
