-- ===== src/Server/Sync.antt =====
-- /sync and /block_headers over the chain's store, and what the peer that asks reads of the answer.
use pandanite_node.Common.{
  ℕ, ◌+◌, ◌-◌, ◌≡◌, ◌≤◌, ltb, List, [], ◌∷◌, ◌++◌, refl, sym, ap, ◌∙◌, arith, length, true, false,
  some, All, map,
}
use pandanite_node.Common.State.{Result, ok}
use pandanite_node.Crypto.{Primitives}
use pandanite_node.Transaction.{Transaction}
use pandanite_node.Transaction.Buffer.{TransactionInfo}
use pandanite_node.Block.{BlockHeader, block_header_to_buffer}
use pandanite_node.Block.Header
use pandanite_node.BlockStore
use pandanite_node.Blockchain.{BlockChain, is_missing, get_raw, get_block_header}
use pandanite_node.Api.{read_raw_headers, read_raw_blocks}
use pandanite_node.Api.Answers.{raw_headers, header_to_buffer-append, read_raw_headers-raw_headers}
use pandanite_node.Api.Blocks.{
  IsBlocks, received_block, raw_block, raw_blocks, read_raw_blocks-raw_blocks,
}
use pandanite_node.Server.{
  write_range, range_handler, sync_handler, block_header_handler, header_bytes,
}
use pandanite_node.Blockchain.Syncing.{blocks_per_fetch}
use pandanite_node.HeaderChain.{block_headers_per_fetch}

-- A relation of the elements with the numbers from one on.
abbrev pub AllFrom : {X : Type 0} → (ℕ → X → Type 0) → ℕ → List X → Type 0
AllFrom P i [] = Unit
AllFrom P i (x ∷ xs) = P i x × AllFrom P (i + 1) xs

-- `total` lays the bytes of the elements one behind the other, as the loop does.
module _ {X : Type 0} (part : ℕ → Result (List ℕ)) (bytes : X → List ℕ) (total : List X → List ℕ)
    (total_nil : total [] ≡ [])
    (total_cons : (x : X) (xs : List X) → total (x ∷ xs) ≡ bytes x ++ total xs) where
  write_range-total :
      (i : ℕ) (xs : List X)
      → AllFrom (λ i x. part i ≡ ok (bytes x)) i xs
      → write_range part i (length xs) ≡ (total xs, true)
  unfolding write_range
  write_range-total i [] h = rw total_nil refl
  write_range-total i (x ∷ xs) h = rw (h.0, write_range-total (i + 1) xs h.1, total_cons x xs) refl

  range_handler-total :
      (limit first : ℕ) (x : X) (xs : List X)
      → AllFrom (λ i x. part i ≡ ok (bytes x)) first (x ∷ xs)
      → length xs ≤ limit
      → (range_handler limit part first (first + length xs)).body ≡ total (x ∷ xs)
  unfolding range_handler
  range_handler-total limit first x xs h short =
      let rounds : first + length xs + 1 - first ≡ length (x ∷ xs) = omega arith in
      let test : ltb limit (first + length xs - first) ≡ false = ground (arith, short) in
      rw test (
        ap (λ n. (write_range part first n).0) rounds
        ∙ ap (λ w. w.0) (write_range-total first (x ∷ xs) h))

module _ {W : Type 0} (c : BlockChain W) where
  -- The chain holds a header under an id, and a block.
  pub record HasHeader (i : ℕ) (b : BlockHeader) : Type 0 where
    pub there : is_missing i c ≡ false
    pub header : BlockStore.get_block_header i c.block_store ≡ some b

  pub record HasBlock (i : ℕ) (p : BlockHeader × List TransactionInfo) : Type 0 where
    pub top : HasHeader i p.0
    pub transactions :
        BlockStore.read_transactions i 0 p.0.num_transactions c.block_store ≡ some p.1

  header_bytes-HasHeader :
      (i : ℕ) (b : BlockHeader)
      → HasHeader i b
      → header_bytes (get_block_header i c).0 ≡ ok (block_header_to_buffer b [])
  unfolding get_block_header
  header_bytes-HasHeader i b has = rw (has.there, has.header) refl

  get_raw-HasBlock :
      (i : ℕ) (p : BlockHeader × List TransactionInfo)
      → HasBlock i p
      → (get_raw i c).0 ≡ ok (raw_block p)
  unfolding get_raw BlockStore.get_raw_data
  get_raw-HasBlock i p has = rw (has.top.there, has.top.header, has.transactions) refl

  AllFrom-map :
      {X : Type 0} {P Q : ℕ → X → Type 0}
      → ((i : ℕ) (x : X) → P i x → Q i x)
      → (i : ℕ) (xs : List X) → AllFrom P i xs
      → AllFrom Q i xs
  AllFrom-map f i [] h = tt
  AllFrom-map f i (x ∷ xs) h = (f i x h.0, AllFrom-map f (i + 1) xs h.1)

  -- The headers of a range of at most 2001 blocks that the chain holds reach the peer that asks for them.
  pub read_raw_headers-block_header_handler :
      (first : ℕ) (b : BlockHeader) (headers : List BlockHeader)
      → AllFrom HasHeader first (b ∷ headers)
      → All Header.InRange (b ∷ headers)
      → length headers ≤ block_headers_per_fetch
      → read_raw_headers
          (block_header_handler (λ i. (get_block_header i c).0) first (first + length headers)).body
        ≡ b ∷ headers
  unfolding block_header_handler raw_headers
  read_raw_headers-block_header_handler first b headers has r short =
      ap read_raw_headers (
        range_handler-total (λ i. header_bytes (get_block_header i c).0)
          (λ b. block_header_to_buffer b []) raw_headers refl
          (λ b headers. sym (header_to_buffer-append b [] (raw_headers headers)))
          block_headers_per_fetch first b headers
          (AllFrom-map header_bytes-HasHeader first (b ∷ headers) has) short)
      ∙ read_raw_headers-raw_headers (b ∷ headers) r

  -- The blocks of a range of at most 201 that the chain holds reach the peer that asks for them.
  pub read_raw_blocks-sync_handler :
      (prims : Primitives) (memory : TransactionInfo → Transaction) (stale : Transaction → ℕ)
      (first : ℕ) (p : BlockHeader × List TransactionInfo)
      (blocks : List (BlockHeader × List TransactionInfo))
      → AllFrom HasBlock first (p ∷ blocks)
      → IsBlocks prims (p ∷ blocks)
      → length blocks ≤ blocks_per_fetch
      → read_raw_blocks prims memory stale
          (sync_handler (λ i. (get_raw i c).0) first (first + length blocks)).body
        ≡ ok (map (received_block prims memory stale) (p ∷ blocks))
  unfolding sync_handler
  read_raw_blocks-sync_handler prims memory stale first p blocks has is short =
      ap (read_raw_blocks prims memory stale) (
        range_handler-total (λ i. (get_raw i c).0) raw_block raw_blocks refl (λ p blocks. refl)
          blocks_per_fetch first p blocks (AllFrom-map get_raw-HasBlock first (p ∷ blocks) has)
          short)
      ∙ read_raw_blocks-raw_blocks prims memory stale p blocks is
