-- ===== src/BlockStore/Reading.antt =====
-- What is read back of a block that was stored.
use pandanite_node.Common.{ℕ, ◌+◌, ◌<◌, ◌≡◌, refl, List, [], ◌∷◌, some, map, length, arith}
use pandanite_node.Common.Dict.{lookup, insert, lookup-insert}
use pandanite_node.Crypto.{Primitives}
use pandanite_node.Transaction.{Transaction, hash_contents}
use pandanite_node.Transaction.Buffer.{serialize}
use pandanite_node.Block.{Block, block_header_to_buffer}
use pandanite_node.Block
use pandanite_node.BlockStore.{
  BlockStore, transaction_key, wallet_key, get_block_header, read_transactions,
  get_block_transactions, get_raw_data, raw_transactions, put_transactions, set_block,
}

module _ {W : Type 0} (prims : Primitives) where
  put_transactions-headers :
      (id idx : ℕ) (ts : List Transaction) (s : BlockStore W)
      → (put_transactions prims id idx ts s).headers ≡ s.headers
  unfolding put_transactions
  put_transactions-headers id idx [] s = refl
  put_transactions-headers id idx (t ∷ ts) s = put_transactions-headers id (idx + 1) ts _

  -- The store after one round of the loop.
  abbrev stored : ℕ → ℕ → Transaction → BlockStore W → BlockStore W
  stored id idx t s = record s {
    transactions = insert (transaction_key id idx) (serialize t) s.transactions;
    wallet_transactions =
        insert (wallet_key t.to (hash_contents prims t)) tt
          (insert (wallet_key t.from (hash_contents prims t)) tt s.wallet_transactions);
  }

  -- The loop leaves the entries before its index.
  put_transactions-below :
      (id j idx : ℕ) (ts : List Transaction) (s : BlockStore W)
      → j < idx
      → lookup (transaction_key id j) (put_transactions prims id idx ts s).transactions
        ≡ lookup (transaction_key id j) s.transactions
  unfolding put_transactions
  put_transactions-below id j idx [] s h = refl
  put_transactions-below id j idx (t ∷ ts) s h = ground (
    arith,
    put_transactions-below id j (idx + 1) ts (stored id idx t s),
    lookup-insert (transaction_key id j) (transaction_key id idx) (serialize t) s.transactions,
  )

  read-put_transactions :
      (id idx : ℕ) (ts : List Transaction) (s : BlockStore W)
      → read_transactions id idx (length ts) (put_transactions prims id idx ts s)
        ≡ some (map serialize ts)
  unfolding read_transactions put_transactions
  read-put_transactions id idx [] s = refl
  read-put_transactions id idx (t ∷ ts) s = ground (
    arith,
    put_transactions-below id idx (idx + 1) ts (stored id idx t s),
    lookup-insert (transaction_key id idx) (transaction_key id idx) (serialize t) s.transactions,
    read-put_transactions id (idx + 1) ts (stored id idx t s),
  )

  -- A block that was stored is found under its id, with its header.
  pub get_block_header-set_block :
      (b : Block) (s : BlockStore W)
      → get_block_header b.id (set_block prims b s) ≡ some (Block.serialize b)
  unfolding get_block_header set_block
  get_block_header-set_block b s = ground (
    arith,
    put_transactions-headers b.id 0 b.transactions
        (record s { headers = insert b.id (Block.serialize b) s.headers }),
    lookup-insert b.id b.id (Block.serialize b) s.headers,
  )

  -- The transactions of a block that was stored are read back, in their order.
  pub get_block_transactions-set_block :
      (b : Block) (s : BlockStore W)
      → get_block_transactions (Block.serialize b) (set_block prims b s)
        ≡ some (map serialize b.transactions)
  unfolding get_block_transactions set_block Block.serialize
  get_block_transactions-set_block b s = read-put_transactions b.id 0 b.transactions _

  -- The raw data of a block that was stored is its header's buffer, followed by those of its
  -- transactions, in their order.
  pub get_raw_data-set_block :
      (b : Block) (s : BlockStore W)
      → get_raw_data b.id (set_block prims b s)
        ≡ some (
            block_header_to_buffer
              (Block.serialize b)
              (raw_transactions (map serialize b.transactions)))
  unfolding get_raw_data get_block_transactions Block.serialize
  get_raw_data-set_block b s =
      ground (arith, get_block_header-set_block b s, get_block_transactions-set_block b s)
