-- ===== src/BlockStore.antt =====
-- server/block_store.cpp: the blocks on disk, in a key-value store whose writes succeed. The keys of
-- the five kinds differ in length, so each kind has a dictionary, or an entry, of its own; a key of
-- two parts is the number that both spell. A read that finds nothing throws: `none`. The text of a
-- Bigint stands for it.
pub mod Reading
mod Tests
use pandanite_node.Common.{
  ℕ, zero, suc, ◌+◌, ◌-◌, ◌*◌, ◌^◌, List, [], ◌∷◌, Bool, true, false, ◌&&◌, ltb, leb, Option, none,
  some, if◌then◌else◌, map, u32,
}
use pandanite_node.Common.Dict.{Dict, lookup, insert, erase, contains}
use pandanite_node.Crypto.{Primitives}
use pandanite_node.Transaction.{Transaction, copy, hash_contents}
use pandanite_node.Transaction.Buffer.{
  TransactionInfo, serialize, transaction_from_info, transaction_info_to_buffer,
}
use pandanite_node.Block.{Block, BlockHeader, block_from_header, block_header_to_buffer}
use pandanite_node.Block
use mathlib.Core.Option

pub record BlockStore (W : Type 0) : Type 0 where
  pub block_count : Option ℕ
  pub total_work : Option W
  pub headers : Dict BlockHeader
  pub transactions : Dict TransactionInfo
  pub wallet_transactions : Dict (Unit {0})

-- transactionId: the block's id and the index, as uint32_t.
abbrev pub transaction_key : ℕ → ℕ → ℕ
transaction_key id idx = id * u32 + idx

-- The key of a wallet and a transaction's hash, of 25 and 32 bytes.
abbrev pub wallet_key : ℕ → ℕ → ℕ
wallet_key addr tx_id = addr * 256 ^ 32 + tx_id

-- The keys of a range, in their order.
unfoldable pub keys_between : ℕ → ℕ → Dict (Unit {0}) → List ℕ
keys_between from to [] = []
keys_between from to ((k, v) ∷ d) =
    let rest = keys_between from to d in if leb from k && ltb k to then k ∷ rest else rest

-- The buffers of transactions, one behind the other.
unfoldable pub raw_transactions : List TransactionInfo → List ℕ
raw_transactions [] = []
raw_transactions (t ∷ ts) = transaction_info_to_buffer t (raw_transactions ts)

module _ (stale : Transaction → ℕ) (prims : Primitives) where
  -- The body of the loop works on a copy, and so on the copy's hash.
  unfoldable pub remove_wallet_transactions : List Transaction → Dict (Unit {0}) → Dict (Unit {0})
  unfolding erase
  remove_wallet_transactions [] d = d
  remove_wallet_transactions (t ∷ ts) d =
      let txid = hash_contents prims (copy stale t) in
      remove_wallet_transactions ts
        (erase (wallet_key t.to txid) (erase (wallet_key t.from txid) d))

module _ {W : Type 0} where
  unfoldable pub set_block_count : ℕ → BlockStore W → BlockStore W
  set_block_count count s = record s { block_count = some count }

  unfoldable pub get_block_count : BlockStore W → Option ℕ
  get_block_count s = s.block_count

  unfoldable pub set_total_work : W → BlockStore W → BlockStore W
  set_total_work count s = record s { total_work = some count }

  unfoldable pub get_total_work : BlockStore W → Option W
  get_total_work s = s.total_work

  unfoldable pub has_block_count : BlockStore W → Bool
  has_block_count s = elim s.block_count [ none ↦ false | some _ ↦ true ]

  unfoldable pub has_block : ℕ → BlockStore W → Bool
  unfolding contains
  has_block block_id s = contains block_id s.headers

  unfoldable pub get_block_header : ℕ → BlockStore W → Option BlockHeader
  unfolding lookup
  get_block_header block_id s = lookup block_id s.headers

  -- The loop of getBlockTransactions, from an index on for so many rounds.
  unfoldable pub read_transactions : ℕ → ℕ → ℕ → BlockStore W → Option (List TransactionInfo)
  unfolding lookup
  read_transactions id idx zero s = some []
  read_transactions id idx (suc n) s = elim (lookup (transaction_key id idx) s.transactions) [
    | none ↦ none
    | some t ↦ Option.map (λ ts. t ∷ ts) (read_transactions id (idx + 1) n s)
  ]

  unfoldable pub get_block_transactions : BlockHeader → BlockStore W → Option (List TransactionInfo)
  unfolding read_transactions
  get_block_transactions block s = read_transactions block.id 0 block.num_transactions s

  -- getRawData reads the transactions with the loop of getBlockTransactions, by `blockId`.
  unfoldable pub get_raw_data : ℕ → BlockStore W → Option (List ℕ)
  unfolding get_block_header read_transactions raw_transactions
  get_raw_data block_id s = elim (get_block_header block_id s) [
    | none ↦ none
    | some block ↦
        Option.map (λ ts. block_header_to_buffer block (raw_transactions ts))
          (read_transactions block_id 0 block.num_transactions s)
  ]

  -- getTransactionsForWallet: the end of the range, a hash of ones, is not part of it.
  unfoldable pub get_transactions_for_wallet : ℕ → BlockStore W → List ℕ
  unfolding keys_between
  get_transactions_for_wallet wallet s =
      map (λ k. k - wallet_key wallet 0)
        (keys_between (wallet_key wallet 0) (wallet_key wallet (256 ^ 32 - 1))
          s.wallet_transactions)

  module _ (stale : Transaction → ℕ) where
    -- `memory` is what the constructor of a transaction finds in the members that it leaves.
    unfoldable pub get_block : (TransactionInfo → Transaction) → ℕ → BlockStore W → Option Block
    unfolding get_block_header get_block_transactions
    get_block memory block_id s = elim (get_block_header block_id s) [
      | none ↦ none
      | some block ↦
          Option.map
            (λ ts.
              block_from_header stale block
                (map (λ t. copy stale (transaction_from_info (memory t) t)) ts))
            (get_block_transactions block s)
    ]

    module _ (prims : Primitives) where
      unfoldable pub remove_block_wallet_transactions : Block → BlockStore W → BlockStore W
      unfolding remove_wallet_transactions
      remove_block_wallet_transactions block s = record s {
        wallet_transactions =
            remove_wallet_transactions stale prims block.transactions s.wallet_transactions;
      }

  module _ (prims : Primitives) where
    -- The loop of setBlock, from an index on.
    unfoldable pub put_transactions : ℕ → ℕ → List Transaction → BlockStore W → BlockStore W
    unfolding insert
    put_transactions id idx [] s = s
    put_transactions id idx (t ∷ ts) s =
        let txid = hash_contents prims t in
        put_transactions id (idx + 1) ts (record s {
          transactions = insert (transaction_key id idx) (serialize t) s.transactions;
          wallet_transactions =
              insert (wallet_key t.to txid) tt
                (insert (wallet_key t.from txid) tt s.wallet_transactions);
        })

    unfoldable pub set_block : Block → BlockStore W → BlockStore W
    unfolding put_transactions
    set_block block s =
        put_transactions block.id 0 block.transactions
          (record s { headers = insert block.id (Block.serialize block) s.headers })
