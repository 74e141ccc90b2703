-- ===== src/TxStore.antt =====
-- server/tx_store.cpp: which block holds a transaction, by the hash of its contents. The store's
-- reads and writes succeed.
use pandanite_node.Common.{ℕ, Bool}
use pandanite_node.Common.Dict.{Dict, insert, erase, contains, value_at}
use pandanite_node.Crypto.{Primitives}
use pandanite_node.Transaction.{Transaction, hash_contents}

module _ (prims : Primitives) where
  unfoldable pub has_transaction : Transaction → Dict ℕ → Bool
  unfolding contains
  has_transaction t txdb = contains (hash_contents prims t) txdb

  -- 0 where there is none
  unfoldable pub block_for_transaction : Transaction → Dict ℕ → ℕ
  unfolding value_at
  block_for_transaction t txdb = value_at (hash_contents prims t) txdb

  unfoldable pub insert_transaction : Transaction → ℕ → Dict ℕ → Dict ℕ
  unfolding insert
  insert_transaction t block_id txdb = insert (hash_contents prims t) block_id txdb

  unfoldable pub remove_transaction : Transaction → Dict ℕ → Dict ℕ
  unfolding erase
  remove_transaction t txdb = erase (hash_contents prims t) txdb

-- blockForTransactionId
unfoldable pub block_for_transaction_id : ℕ → Dict ℕ → ℕ
unfolding value_at
block_for_transaction_id tx_hash txdb = value_at tx_hash txdb
