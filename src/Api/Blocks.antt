-- ===== src/Api/Blocks.antt =====
-- The blocks that a node reads of the bytes that its peer wrote.
use pandanite_node.Common.{
  ℕ, zero, suc, ◌*◌, ◌≤◌, ◌<◌, ◌≡◌, List, [], ◌∷◌, ◌++◌, refl, ap, ◌∙◌, arith, length,
  length-append, All, map,
}
use pandanite_node.Common.Bytes.{drop-append}
use pandanite_node.Common.State.{ok}
use pandanite_node.Crypto.{Primitives}
use pandanite_node.Transaction.{Transaction}
use pandanite_node.Transaction.Buffer.{TransactionInfo, transaction_info_buffer_size}
use pandanite_node.Block.{
  Block, BlockHeader, block_from_header, block_header_to_buffer, block_header_buffer_size,
}
use pandanite_node.Block.Header.{header_from_buffer-to_buffer, length-header_to_buffer}
use pandanite_node.Block.Header
use pandanite_node.BlockStore.{raw_transactions}
use pandanite_node.Api.{read_block, read_blocks, read_raw_blocks}
use pandanite_node.Api.Answers.{
  header_to_buffer-append, drop-header_to_buffer, length-raw_transactions,
  read_transactions-raw_transactions, IsSent, received,
}

-- The raw data of several blocks, one behind the other.
abbrev pub raw_block : BlockHeader × List TransactionInfo → List ℕ
raw_block (b, infos) = block_header_to_buffer b (raw_transactions infos)

abbrev pub raw_blocks : List (BlockHeader × List TransactionInfo) → List ℕ
raw_blocks [] = []
raw_blocks (p ∷ blocks) = raw_block p ++ raw_blocks blocks

length-raw_block :
    (p : BlockHeader × List TransactionInfo) → block_header_buffer_size ≤ length (raw_block p)
length-raw_block (b, infos) = omega (arith, length-header_to_buffer b (raw_transactions infos))

length-raw_blocks :
    (blocks : List (BlockHeader × List TransactionInfo))
    → length blocks * block_header_buffer_size ≤ length (raw_blocks blocks)
length-raw_blocks [] = omega arith
length-raw_blocks (p ∷ blocks) = omega (
  arith,
  length-append (raw_block p) (raw_blocks blocks),
  length-raw_block p,
  length-raw_blocks blocks,
)

module _ (prims : Primitives) where
  -- A header and its transactions, as they are stored and sent.
  pub record IsBlock (b : BlockHeader) (infos : List TransactionInfo) : Type 0 where
    pub header : Header.InRange b
    pub counted : b.num_transactions ≡ length infos
    pub sent : All (IsSent prims) infos

  abbrev pub IsBlocks : List (BlockHeader × List TransactionInfo) → Type 0
  IsBlocks = All (λ p. IsBlock p.0 p.1)

module _ (prims : Primitives) (memory : TransactionInfo → Transaction)
    (stale : Transaction → ℕ) where
  abbrev pub received_block : BlockHeader × List TransactionInfo → Block
  received_block (b, infos) = block_from_header stale b (map (received prims memory stale) infos)

  read_block-raw :
      (b : BlockHeader) (infos : List TransactionInfo) (rest : List ℕ)
      → IsBlock prims b infos
      → read_block prims memory stale (block_header_to_buffer b (raw_transactions infos ++ rest))
        ≡ ok (received_block (b, infos), rest)
  unfolding read_block
  read_block-raw b infos rest is =
      rw
        (
          header_from_buffer-to_buffer b (raw_transactions infos ++ rest) is.header,
          drop-header_to_buffer b (raw_transactions infos ++ rest),
        )
        (ground (
          arith,
          is.counted,
          read_transactions-raw_transactions prims memory stale infos rest is.sent,
          drop-append (length infos * transaction_info_buffer_size) (raw_transactions infos) rest
              (length-raw_transactions infos),
          length-header_to_buffer b (raw_transactions infos ++ rest),
          length-append (raw_transactions infos) rest,
          length-raw_transactions infos,
        ))

  read_block-raw_block :
      (p : BlockHeader × List TransactionInfo) (rest : List ℕ)
      → IsBlock prims p.0 p.1
      → read_block prims memory stale (raw_block p ++ rest) ≡ ok (received_block p, rest)
  read_block-raw_block (b, infos) rest is =
      ap (read_block prims memory stale) (header_to_buffer-append b (raw_transactions infos) rest)
      ∙ read_block-raw b infos rest is

  -- A round of the loop, for a body that ends with the block and for one that goes on.
  read_blocks_last :
      (fuel : ℕ) (curr : List ℕ) (b : Block)
      → read_block prims memory stale curr ≡ ok (b, [])
      → read_blocks prims memory stale (suc fuel) curr ≡ ok (b ∷ [])
  unfolding read_blocks
  read_blocks_last fuel curr b e = rw (e, read_blocks) refl

  read_blocks_more :
      (fuel : ℕ) (curr rest : List ℕ) (b : Block) (blocks : List Block)
      → read_block prims memory stale curr ≡ ok (b, rest)
      → 0 < length rest
      → read_blocks prims memory stale fuel rest ≡ ok blocks
      → read_blocks prims memory stale (suc fuel) curr ≡ ok (b ∷ blocks)
  unfolding read_blocks
  read_blocks_more fuel curr [] b blocks e more h = absurd (omega arith)
  read_blocks_more fuel curr (x ∷ rest) b blocks e more h = rw (e, read_blocks) (rw h refl)

  read_blocks-raw :
      (fuel : ℕ) (p : BlockHeader × List TransactionInfo)
      (blocks : List (BlockHeader × List TransactionInfo))
      → IsBlocks prims (p ∷ blocks)
      → length blocks < fuel
      → read_blocks prims memory stale fuel (raw_blocks (p ∷ blocks))
        ≡ ok (map received_block (p ∷ blocks))
  read_blocks-raw zero p blocks is enough = absurd (omega arith)
  read_blocks-raw (suc fuel) p [] is enough =
      read_blocks_last fuel _ _ (read_block-raw_block p [] is.0)
  read_blocks-raw (suc fuel) p (q ∷ blocks) is enough =
      read_blocks_more fuel _ (raw_blocks (q ∷ blocks)) _ (map received_block (q ∷ blocks))
        (read_block-raw_block p (raw_blocks (q ∷ blocks)) is.0)
        (omega (arith, length-append (raw_block q) (raw_blocks blocks), length-raw_block q))
        (read_blocks-raw fuel q blocks is.1 (omega arith))

  -- The blocks whose raw data a peer wrote one behind the other, at least one, are read back, in
  -- their order, provided that their members fit their types, that each header counts its
  -- transactions, and that each sender is the address of the key.
  pub read_raw_blocks-raw_blocks :
      (p : BlockHeader × List TransactionInfo) (blocks : List (BlockHeader × List TransactionInfo))
      → IsBlocks prims (p ∷ blocks)
      → read_raw_blocks prims memory stale (raw_blocks (p ∷ blocks))
        ≡ ok (map received_block (p ∷ blocks))
  unfolding read_raw_blocks
  read_raw_blocks-raw_blocks p blocks is =
      let size = length-raw_blocks (p ∷ blocks) in
      ground (
        arith,
        size,
        read_blocks-raw (length (raw_blocks (p ∷ blocks))) p blocks is (omega (arith, size)),
      )
