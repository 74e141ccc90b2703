-- ===== src/Executor/Supply/MiningFee.antt =====
-- What the first loop of ExecuteBlock finds of the mining fee: the amounts that the block mints.
use pandanite_node.Common.{
  ℕ, ◌+◌, ◌≡◌, ◌≢◌, Option, none, some, arith, refl, ◌∙◌, if◌then◌else◌, ◌==◌, Option-cases, inl,
  inr, List, [], ◌∷◌,
}
use pandanite_node.Common.Dict.{Dict}
use pandanite_node.Crypto.{Primitives}
use pandanite_node.Transaction.{Transaction, copy}
use pandanite_node.Executor.{success}
use pandanite_node.Executor.Block.{
  Check, fails, passes, Found, check_transaction, check_transactions, check_fee,
}

-- What a transaction of a block adds to the money: a mining fee and the transactions of the genesis
-- block add their amounts.
abbrev pub minted : ℕ → Transaction → ℕ
minted block_id t = if t.is_transaction_fee then t.amount else if block_id == 1 then t.amount else 0

abbrev pub minted_by : ℕ → List Transaction → ℕ
minted_by block_id [] = 0
minted_by block_id (t ∷ ts) = minted block_id t + minted_by block_id ts

-- What the first loop has found of the mining fee.
abbrev pub fee_found : Option (ℕ × ℕ) → ℕ
fee_found none = 0
fee_found (some (miner, amount)) = amount

module _ (prims : Primitives) (stale : Transaction → ℕ) (block_id : ℕ) where
  check_transaction-fee :
      (txdb : Dict ℕ) (t : Transaction) (found found' : Found)
      → block_id ≢ 1
      → check_transaction prims stale block_id txdb t found ≡ passes found'
      → fee_found found'.fee ≡ fee_found found.fee + minted block_id t
  unfolding check_transaction check_fee
  check_transaction-fee txdb t found found' ne e = elim (Option-cases found.fee) [
    | inl new ↦ ground arith
    | inr (old, have) ↦ ground arith
  ]

  pub check_transactions-fee :
      (txdb : Dict ℕ) (ts : List Transaction) (found found' : Found)
      → block_id ≢ 1
      → check_transactions prims stale block_id txdb ts found ≡ passes found'
      → fee_found found'.fee ≡ fee_found found.fee + minted_by block_id ts
  unfolding check_transactions copy
  check_transactions-fee txdb [] found found' ne e = ground arith
  check_transactions-fee txdb (t ∷ ts) found found' ne e =
      step (check_transaction prims stale block_id txdb (copy stale t) found) refl e
        (λ f. check_transactions-fee txdb ts f found' ne)
    where
      step :
          (c : Check)
          → check_transaction prims stale block_id txdb (copy stale t) found ≡ c
          → (elim c [
            | fails status ↦ fails status
            | passes found'' ↦ check_transactions prims stale block_id txdb ts found''
          ])
            ≡ passes found'
          → ((f : Found)
              → check_transactions prims stale block_id txdb ts f ≡ passes found'
              → fee_found found'.fee ≡ fee_found f.fee + minted_by block_id ts)
          → fee_found found'.fee ≡ fee_found found.fee + minted_by block_id (t ∷ ts)
      step (fails status) c e' ih = cc
      step (passes found'') c e' ih =
          omega (arith, ih found'' e', check_transaction-fee txdb (copy stale t) found found'' ne c)

  -- The first loop never returns SUCCESS early.
  check_transaction-ne :
      (txdb : Dict ℕ) (t : Transaction) (found : Found)
      → check_transaction prims stale block_id txdb t found ≢ fails success
  unfolding check_transaction check_fee
  check_transaction-ne txdb t found = elim (Option-cases found.fee) [
    | inl new ↦ ground arith
    | inr (old, have) ↦ ground arith
  ]

  pub check_transactions-ne :
      (txdb : Dict ℕ) (ts : List Transaction) (found : Found)
      → check_transactions prims stale block_id txdb ts found ≢ fails success
  unfolding check_transactions
  check_transactions-ne txdb [] found e = cc
  check_transactions-ne txdb (t ∷ ts) found e =
      step (check_transaction prims stale block_id txdb (copy stale t) found) refl e
        (check_transactions-ne txdb ts)
    where
      step :
          (c : Check)
          → check_transaction prims stale block_id txdb (copy stale t) found ≡ c
          → (elim c [
            | fails status ↦ fails status
            | passes found' ↦ check_transactions prims stale block_id txdb ts found'
          ])
            ≡ fails success
          → ((f : Found) → check_transactions prims stale block_id txdb ts f ≢ fails success)
          → ⊥
      step (fails status) c e' ih = check_transaction-ne txdb (copy stale t) found (c ∙ e')
      step (passes found') c e' ih = ih found' e'
