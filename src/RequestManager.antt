-- ===== src/RequestManager.antt =====
-- server/request_manager.cpp: the calls that the server makes of the chain and of the pool. A JSON
-- answer is a record of what it holds. Forwarding a block to other nodes is left out, and with it
-- choosing them.

pub mod Statistics
mod Tests
use pandanite_node.Common.{ℕ, ◌+◌, List, Bool, leb, Option, none, some, if◌then◌else◌, map}
use pandanite_node.Common.State.{Action, Result, ok, throws, Outcome, returns}
use pandanite_node.Crypto.{Primitives}
use pandanite_node.Transaction.{Transaction, copy, get_hash}
use pandanite_node.Transaction.Buffer.{TransactionInfo}
use pandanite_node.Block.{Block}
use pandanite_node.Ledger.{has_wallet}
use pandanite_node.Ledger
use pandanite_node.Executor.{ExecutionStatus, invalid_block_id}
use pandanite_node.MerkleTree.{sort_items, hashes_of}
use pandanite_node.MerkleTree.Tree.{HashTree, build, get_merkle_proof}
use pandanite_node.MiningFee.{Doubles, get_current_mining_fee}
use pandanite_node.HeaderChain.{Work}
use pandanite_node.Blockchain.{
  BlockChain, find_block_for_transaction, find_block_for_transaction_id, get_block,
  get_block_header,
}
use pandanite_node.Blockchain.Syncing.{State, add_block_sync}

-- The answers of verifyTransaction.
pub data Verification : Type 0 where
  no_transaction no_block : Verification
  proved : HashTree → Verification

-- The answer of getProofOfWork.
pub record ProofOfWork : Type 0 where
  pub last_hash : ℕ
  pub challenge_size : ℕ
  pub chain_length : ℕ
  pub mining_fee : ℕ
  pub last_timestamp : ℕ

module _ {W : Type 0} where
  -- The balance; `none` is "Wallet not found".
  unfoldable pub get_ledger : ℕ → BlockChain W → Option (Result ℕ)
  unfolding has_wallet Ledger.get_wallet_value
  get_ledger wallet c =
      if has_wallet wallet c.ledger then some (Ledger.get_wallet_value wallet c.ledger).0 else none

module _ (prims : Primitives) where
  -- What is proved by a tree, if there is a tree and the transaction in it.
  unfoldable pub verification : Transaction → Option HashTree → Verification
  verification t none = no_block
  verification t (some tree) = elim (get_merkle_proof (get_hash prims t) tree) [
    | none ↦ no_transaction
    | some proof ↦ proved proof
  ]

module _ {W : Type 0} (stale : Transaction → ℕ) (memory : TransactionInfo → Transaction)
    (prims : Primitives) where
  -- The block in which a transaction stands; `none` is "NOT_IN_CHAIN".
  unfoldable pub get_transaction_status : ℕ → BlockChain W → Option ℕ
  unfolding find_block_for_transaction_id
  get_transaction_status txid c =
      elim (get_block stale memory (find_block_for_transaction_id txid c) c).0 [
        | throws e ↦ none
        | ok b ↦ some b.id
      ]

  -- The tree of a block without transactions is read from an empty queue; here there is none.
  unfoldable pub verify_transaction : Transaction → BlockChain W → Verification
  unfolding verification find_block_for_transaction
  verify_transaction t c =
      elim (get_block stale memory (find_block_for_transaction prims t c) c).0 [
        | throws e ↦ no_block
        | ok b ↦
            verification prims (copy stale t)
              (build prims (hashes_of prims stale (sort_items prims stale b.transactions)))
      ]

  module _ {D : Type 0} (work : Work W) (doubles : Doubles D) where
    unfoldable pub get_proof_of_work : BlockChain W → Result ProofOfWork
    get_proof_of_work c = elim (get_block_header c.num_blocks c).0 [
      | throws e ↦ throws e
      | ok last ↦ ok (record {
        last_hash = c.last_hash;
        challenge_size = c.difficulty;
        chain_length = c.num_blocks;
        mining_fee = get_current_mining_fee doubles (c.num_blocks + 1);
        last_timestamp = last.timestamp;
      })
    ]

    unfoldable pub submit_proof_of_work : ℕ → Block → State W → Outcome (State W) ExecutionStatus
    unfolding add_block_sync
    submit_proof_of_work time b s =
        if leb b.id s.0.num_blocks
        then returns (ok invalid_block_id) s
        else add_block_sync stale memory prims work doubles time b s
