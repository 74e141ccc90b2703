-- ===== src/Api.antt =====
-- core/api.cpp: the bytes that a node sends to a peer, and what it makes of a peer's answer. The
-- requests are left out: a function takes the body of the answer, or gives the body of the request.
-- A read behind the end of the body, which is undefined, becomes an exception.
pub mod Answers
pub mod Blocks
use pandanite_node.Common.{
  ℕ, zero, suc, ◌+◌, ◌*◌, ◌/◌, List, [], ◌∷◌, ltb, if◌then◌else◌, length, map, drop,
}
use pandanite_node.Common.State.{Result, ok, throws, invalid_data, undefined_read}
use pandanite_node.Crypto.{Primitives}
use pandanite_node.Transaction.{Transaction, copy}
use pandanite_node.Transaction.Buffer.{
  TransactionInfo, serialize, transaction_from_info, transaction_info_to_buffer,
  transaction_info_from_buffer, transaction_info_buffer_size,
}
use pandanite_node.Block.{
  Block, BlockHeader, block_from_header, block_header_from_buffer, block_header_to_buffer,
  block_header_buffer_size,
}
use pandanite_node.Block
use pandanite_node.BlockStore.{raw_transactions}

-- The body that submitBlock sends; the loop copies each transaction, and serialize reads no nonce.
unfoldable pub submit_block : (Transaction → ℕ) → Block → List ℕ
submit_block stale block =
    block_header_to_buffer (Block.serialize block)
      (raw_transactions (map (λ t. serialize (copy stale t)) block.transactions))

-- The bodies of sendTransaction and sendTransactions.
unfoldable pub send_transaction : Transaction → List ℕ
send_transaction t = transaction_info_to_buffer (serialize t) []

unfoldable pub send_transactions : List Transaction → List ℕ
send_transactions ts = raw_transactions (map serialize ts)

-- The loop of readRawHeaders.
unfoldable pub read_headers : ℕ → List ℕ → List BlockHeader
read_headers zero curr = []
read_headers (suc n) curr =
    block_header_from_buffer curr ∷ read_headers n (drop block_header_buffer_size curr)

unfoldable pub read_raw_headers : List ℕ → List BlockHeader
unfolding read_headers
read_raw_headers bytes = read_headers (length bytes / block_header_buffer_size) bytes

-- `memory` is what the constructor of a transaction finds in the members that it leaves.
module _ (prims : Primitives) (memory : TransactionInfo → Transaction) where
  -- The loop of readRawTransactions, which stays inside the buffer.
  unfoldable pub read_transactions : (Transaction → ℕ) → ℕ → List ℕ → List Transaction
  read_transactions stale zero curr = []
  read_transactions stale (suc n) curr =
      let info = transaction_info_from_buffer prims curr in
      copy stale (transaction_from_info (memory info) info)
      ∷ read_transactions stale n (drop transaction_info_buffer_size curr)

  unfoldable pub read_raw_transactions : (Transaction → ℕ) → List ℕ → List Transaction
  unfolding read_transactions
  read_raw_transactions stale bytes =
      read_transactions stale (length bytes / transaction_info_buffer_size) bytes

  module _ (stale : Transaction → ℕ) where
    -- The block that begins at `curr`, and the pointer behind it.
    unfoldable pub read_block : List ℕ → Result (Block × List ℕ)
    unfolding read_transactions
    read_block curr =
        let b = block_header_from_buffer curr in
        let behind = drop block_header_buffer_size curr in
        let size = b.num_transactions * transaction_info_buffer_size in
        if ltb (length curr) (block_header_buffer_size + size)
        then throws undefined_read
        else ok (
          block_from_header stale b (read_transactions stale b.num_transactions behind),
          drop size behind,
        )

    -- `while(true)`, with fuel; the loop ends when all bytes are read.
    unfoldable pub read_blocks : ℕ → List ℕ → Result (List Block)
    unfolding read_block
    read_blocks zero curr = ok []
    read_blocks (suc fuel) curr = elim (read_block curr) [
      | throws e ↦ throws e
      | ok (b, []) ↦ ok (b ∷ [])
      | ok (b, x ∷ rest) ↦ elim (read_blocks fuel (x ∷ rest)) [
        | throws e ↦ throws e
        | ok blocks ↦ ok (b ∷ blocks)
      ]
    ]

    -- Each block takes at least the bytes of its header, so the size of the body is fuel enough.
    unfoldable pub read_raw_blocks : List ℕ → Result (List Block)
    unfolding read_blocks
    read_raw_blocks bytes =
        if ltb (length bytes) block_header_buffer_size
        then throws invalid_data
        else read_blocks (length bytes) bytes
