-- ===== src/Blockchain/Wallets.antt =====
-- server/blockchain.cpp: getTransactionsForWallet, which looks the transactions of a wallet up by their
-- hashes.
use pandanite_node.Common.{ℕ, List, [], ◌∷◌, none, some, ◌==◌, ltb, if◌then◌else◌, ◌++◌}
use pandanite_node.Common.State.{Result, ok, throws, unreadable}
use pandanite_node.Crypto.{Primitives}
use pandanite_node.Transaction.{Transaction, copy, hash_contents}
use pandanite_node.Transaction.Buffer.{TransactionInfo}
use pandanite_node.TxStore.{block_for_transaction_id}
use pandanite_node.BlockStore.{BlockStore}
use pandanite_node.BlockStore
use pandanite_node.Blockchain.{BlockChain}

module _ (stale : Transaction → ℕ) (prims : Primitives) where
  -- The first transaction of a block whose copy has the hash; the vector keeps a copy of that.
  unfoldable pub with_hash : ℕ → List Transaction → List Transaction
  with_hash txid [] = []
  with_hash txid (t ∷ ts) =
      let rest = with_hash txid ts in
      if hash_contents prims (copy stale t) == txid then copy stale (copy stale t) ∷ [] else rest

  module _ {W : Type 0} (memory : TransactionInfo → Transaction) where
    -- The loop over the hashes; the block is read without a test of its id.
    unfoldable pub transactions_with : List ℕ → BlockChain W → Result (List Transaction)
    unfolding with_hash block_for_transaction_id BlockStore.get_block
    transactions_with [] c = ok []
    transactions_with (txid ∷ txids) c =
        let block_id = block_for_transaction_id txid c.txdb in
        let rest = transactions_with txids c in
        if ltb 0 block_id
        then (elim (BlockStore.get_block stale memory block_id c.block_store) [
          | none ↦ throws unreadable
          | some b ↦ elim rest [
            | throws e ↦ throws e
            | ok found ↦ ok (with_hash txid b.transactions ++ found)
          ]
        ])
        else rest

    unfoldable pub get_transactions_for_wallet : ℕ → BlockChain W → Result (List Transaction)
    unfolding transactions_with BlockStore.get_transactions_for_wallet
    get_transactions_for_wallet addr c =
        transactions_with (BlockStore.get_transactions_for_wallet addr c.block_store) c
