-- ===== src/Blockchain.antt =====
-- server/blockchain.cpp: the state of the chain, and the methods that read it, adjust the difficulty
-- or verify a transaction. The list of invalid transactions is the executor's global. What
-- getSupply, getCurrentMiningFee and computeDifficulty do is in MiningFee and Difficulty.
pub mod Adding
pub mod Verification
pub mod Wallets
pub mod Syncing
pub mod Tests
use pandanite_node.Common.{
  ℕ, ◌+◌, ◌-◌, ◌*◌, ◌/◌, ◌%◌, [], Bool, not, ◌||◌, ◌==◌, ltb, leb, Option, none, some, List,
  if◌then◌else◌, u32, u64,
}
use pandanite_node.Common.Int.{ℤ, pos, negsuc}
use pandanite_node.Common.Dict.{Dict}
use pandanite_node.Common.State.{
  Action, Result, ok, throws, invalid_block, unreadable, pure, throw, gets, modify, ◌>>=◌, ◌>>◌,
}
use pandanite_node.Crypto.{Primitives}
use pandanite_node.Transaction.{Transaction, copy, signature_valid}
use pandanite_node.Transaction.Buffer.{TransactionInfo}
use pandanite_node.Block.{Block, BlockHeader}
use pandanite_node.Ledger.{Ledger}
use pandanite_node.Ledger
use pandanite_node.TxStore.{has_transaction, block_for_transaction, block_for_transaction_id}
use pandanite_node.BlockStore.{BlockStore}
use pandanite_node.BlockStore
use pandanite_node.Executor.{
  Exec, ExecutionStatus, is_syncing, extra_mining_fee, invalid_signature, invalid_nonce,
  expired_transaction, execute_transaction, rollback,
}
use pandanite_node.Difficulty.{compute_difficulty}

-- DIFFICULTY_LOOKBACK and DESIRED_BLOCK_TIME_SEC
abbrev pub difficulty_lookback : ℕ
difficulty_lookback = 100

abbrev pub desired_block_time_sec : ℕ
desired_block_time_sec = 90

pub record BlockChain (W : Type 0) : Type 0 where
  pub syncing : Bool
  pub num_blocks : ℕ
  pub total_work : W
  pub difficulty : ℕ
  pub last_hash : ℕ
  pub ledger : Ledger
  pub txdb : Dict ℕ
  pub block_store : BlockStore W
  pub invalid_transactions : List (ℕ × ℕ)

-- A conversion to int32_t.
unfoldable pub to_int32 : ℕ → ℤ
to_int32 x = if ltb (x % u32) (u32 / 2) then pos (x % u32) else negsuc (u32 - 1 - x % u32)

module _ {W : Type 0} where
  unfoldable pub get_wallet_value : ℕ → Action (BlockChain W) ℕ
  unfolding Ledger.get_wallet_value
  get_wallet_value addr c = ((Ledger.get_wallet_value addr c.ledger).0, c)

  unfoldable pub get_wallet_nonce : ℕ → BlockChain W → ℕ
  unfolding Ledger.get_wallet_nonce
  get_wallet_nonce wallet c = Ledger.get_wallet_nonce wallet c.ledger

  unfoldable pub find_block_for_transaction_id : ℕ → BlockChain W → ℕ
  unfolding block_for_transaction_id
  find_block_for_transaction_id txid c = block_for_transaction_id txid c.txdb

  unfoldable pub find_block_for_transaction : Primitives → Transaction → BlockChain W → ℕ
  unfolding block_for_transaction
  find_block_for_transaction prims t c = block_for_transaction prims t c.txdb

  abbrev pub is_missing : ℕ → BlockChain W → Bool
  is_missing block_id c = leb block_id 0 || ltb c.num_blocks block_id

  unfoldable pub get_raw : ℕ → Action (BlockChain W) (List ℕ)
  unfolding BlockStore.get_raw_data
  get_raw block_id c =
      if is_missing block_id c
      then (throws invalid_block, c)
      else (elim (BlockStore.get_raw_data block_id c.block_store) [
        | none ↦ (throws unreadable, c)
        | some bytes ↦ (ok bytes, c)
      ])

  unfoldable pub get_block_header : ℕ → Action (BlockChain W) BlockHeader
  unfolding BlockStore.get_block_header
  get_block_header block_id c =
      if is_missing block_id c
      then (throws invalid_block, c)
      else (elim (BlockStore.get_block_header block_id c.block_store) [
        | none ↦ (throws unreadable, c)
        | some header ↦ (ok header, c)
      ])

  module _ (stale : Transaction → ℕ) where
    -- `memory` is what a transaction that is read from the store finds in the members left out.
    module _ (memory : TransactionInfo → Transaction) where
      unfoldable pub get_block : ℕ → Action (BlockChain W) Block
      unfolding BlockStore.get_block
      get_block block_id c =
          if is_missing block_id c
          then (throws invalid_block, c)
          else (elim (BlockStore.get_block stale memory block_id c.block_store) [
            | none ↦ (throws unreadable, c)
            | some block ↦ (ok block, c)
          ])

      -- The time between two blocks is a difference of two uint64_t, converted to an int32_t.
      unfoldable pub adjust_difficulty : Action (BlockChain W) (Unit {0})
      unfolding get_block to_int32
      adjust_difficulty = do
        last_id ← gets (λ c. c.num_blocks)
        first ← get_block (last_id - difficulty_lookback)
        last ← get_block last_id
        let elapsed = to_int32 ((last.timestamp + u64 - first.timestamp) % u64)
        let target = difficulty_lookback * desired_block_time_sec
        modify (λ c. record c { difficulty = compute_difficulty last.difficulty elapsed target })

      unfoldable pub update_difficulty : Action (BlockChain W) (Unit {0})
      unfolding adjust_difficulty
      update_difficulty c =
          (if leb c.num_blocks (difficulty_lookback * 2)
              then pure tt
              else if not ((c.num_blocks % difficulty_lookback) == 0)
              then pure tt
              else adjust_difficulty)
            c

    module _ (prims : Primitives) where
      -- The end of verifyTransaction, for what the rollback has left.
      abbrev pub after_rollback :
          Transaction → ExecutionStatus → Result (Unit {0}) → Action (BlockChain W) ExecutionStatus
      after_rollback t status (throws e) c = (throws e, c)
      after_rollback t status (ok _) c =
          (ok (if has_transaction prims t c.txdb then expired_transaction else status), c)

      -- What follows the execution: the deltas are rolled back.
      abbrev pub after_execution :
          Transaction → Result ExecutionStatus → Exec → Action (BlockChain W) ExecutionStatus
      after_execution t (throws e) s c =
          (throws e, record c { ledger = s.ledger; invalid_transactions = s.invalid_transactions })
      after_execution t (ok status) s c =
          let (r, l) = rollback s.deltas s.ledger in
          after_rollback t status r
            (record c { ledger = l; invalid_transactions = s.invalid_transactions })

      -- BlockChain::verifyTransaction; the executor takes its transaction by value.
      unfoldable pub verify_transaction : Transaction → Action (BlockChain W) ExecutionStatus
      unfolding get_wallet_nonce
      verify_transaction t c =
          let (r, s) = execute_transaction prims (copy stale t) (record {
            ledger = c.ledger;
            deltas = [];
            invalid_transactions = c.invalid_transactions;
          }) in
          if c.syncing
          then (ok is_syncing, c)
          else if t.is_transaction_fee
          then (ok extra_mining_fee, c)
          else if not (signature_valid prims t)
          then (ok invalid_signature, c)
          else if not (t.nonce == get_wallet_nonce t.from c)
          then (ok invalid_nonce, c)
          else after_execution t r s c
