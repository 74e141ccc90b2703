-- ===== src/Server/Submissions.antt =====
-- server/server.cpp, /submit: what the handler makes of the body that submitBlock of core/api.cpp sends.
use pandanite_node.Common.{
  ℕ, zero, suc, ◌+◌, ◌*◌, ◌≤◌, ◌<◌, ◌≡◌, List, [], refl, sym, ap, subst, ◌∙◌, arith, length,
  length-map, drop, leb, ltb, not, ◌==◌, Bool, true, false, if◌then◌else◌, All, map, ◌%◌, u32,
}
use mathlib.Core.List.{append-nil}
use pandanite_node.Common.State.{Outcome, waits}
use pandanite_node.Crypto.{Primitives}
use pandanite_node.Transaction.{Transaction, copy}
use pandanite_node.Transaction.Buffer.{TransactionInfo, serialize, transaction_info_buffer_size}
use pandanite_node.Block.{
  Block, BlockHeader, block_from_header, block_header_from_buffer, block_header_to_buffer,
  block_header_buffer_size,
}
use pandanite_node.Block
use pandanite_node.Block.Header.{header_from_buffer-to_buffer, length-header_to_buffer}
use pandanite_node.BlockStore.{raw_transactions}
use pandanite_node.Blockchain.Adding.{max_transactions_per_block}
use pandanite_node.Api.{submit_block, read_transactions}
use pandanite_node.Api.Answers.{
  IsSent, received, drop-header_to_buffer, length-raw_transactions,
  read_transactions-raw_transactions,
}
use pandanite_node.Api.Blocks.{IsBlock, received_block, raw_block}
use pandanite_node.MiningFee.{Doubles}
use pandanite_node.HeaderChain.{Work}
use pandanite_node.Blockchain.Syncing.{State}
use pandanite_node.Blockchain.Syncing.Blocking.{add_block_sync-waits}
use pandanite_node.RequestManager.{submit_proof_of_work}
use pandanite_node.Server.{
  submit_handler, answered, handle_submission, Reply, malformed_block, too_many_transactions, sent,
  parse_submission, reply,
}

-- A body of a block with so many transactions.
abbrev pub IsSized : ℕ → ℕ → Type 0
IsSized size n =
    (size ≡ block_header_buffer_size + n * transaction_info_buffer_size) × ((0 < n) × (n ≤ 25000))

tested :
    (size n : ℕ)
    → ltb size (block_header_buffer_size + transaction_info_buffer_size) ≡ false
    → not (size == (block_header_buffer_size + n * transaction_info_buffer_size) % u32) ≡ false
    → ltb max_transactions_per_block n ≡ false
    → IsSized size n
tested size n h1 h2 h3 =
    let few : n ≤ 25000 = ground arith in
    let long : 265 ≤ size = ground arith in
    let exact : size ≡ (116 + n * 149) % u32 = ground arith in (omega arith, (omega arith, few))

count : Reply Block → ℕ
count (sent b) = length b.transactions
count reply = 0

module _ (prims : Primitives) (memory : TransactionInfo → Transaction)
    (stale : Transaction → ℕ) where
  read_transactions-infos :
      (infos : List TransactionInfo)
      → All (IsSent prims) infos
      → read_transactions prims memory stale (length infos) (raw_transactions infos)
        ≡ map (received prims memory stale) infos
  read_transactions-infos infos is =
      ap (read_transactions prims memory stale (length infos))
        (sym (append-nil (raw_transactions infos)))
      ∙ read_transactions-raw_transactions prims memory stale infos [] is

  parse_submission-raw_block :
      (b : BlockHeader) (infos : List TransactionInfo)
      → IsBlock prims b infos
      → 0 < length infos
      → length infos ≤ 25000
      → parse_submission prims memory stale (raw_block (b, infos))
        ≡ sent (received_block prims memory stale (b, infos))
  unfolding parse_submission
  parse_submission-raw_block b infos is some_of fits =
      rw
        (
          header_from_buffer-to_buffer b (raw_transactions infos) is.header,
          drop-header_to_buffer b (raw_transactions infos),
        )
        (ground (
          arith,
          is.counted,
          read_transactions-infos infos is.sent,
          length-header_to_buffer b (raw_transactions infos),
          length-raw_transactions infos,
        ))

  pub parse_submission-submit_block :
      (b : Block)
      → IsBlock prims (Block.serialize b) (map (λ t. serialize (copy stale t)) b.transactions)
      → 0 < length b.transactions
      → length b.transactions ≤ 25000
      → parse_submission prims memory stale (submit_block stale b)
        ≡ sent (
            received_block prims memory stale
              (Block.serialize b, map (λ t. serialize (copy stale t)) b.transactions))
  unfolding submit_block Block.serialize
  parse_submission-submit_block b is some_of fits =
      parse_submission-raw_block (Block.serialize b)
        (map (λ t. serialize (copy stale t)) b.transactions) is (omega (arith, is.counted))
        (omega (arith, is.counted))

  submit_handler-sent :
      {S A : Type 0} (submit : Block → S → Outcome S A) (buffer : List ℕ) (b : Block) (s : S)
      → parse_submission prims memory stale buffer ≡ sent b
      → submit_handler prims memory stale submit buffer s ≡ answered (submit b s)
  unfolding submit_handler
  submit_handler-sent submit buffer b s e = ap (λ r. handle_submission submit r s) e

  submit_proof_of_work-waits :
      {W D : Type 0} (work : Work W) (doubles : Doubles D) (time : ℕ) (b : Block) (s : State W)
      → s.0.syncing ≡ false
      → s.0.num_blocks < b.id
      → submit_proof_of_work stale memory prims work doubles time b s ≡ waits
  unfolding submit_proof_of_work
  submit_proof_of_work-waits work doubles time b s idle above =
      let new : leb b.id s.0.num_blocks ≡ false = ground arith in
      rw new (add_block_sync-waits stale memory prims work doubles time b s idle)

  -- A well-formed block that a node sends, and that would extend the chain of the one that receives it,
  -- is never answered while that chain is not synchronized: the thread of the server waits for the
  -- chain's mutex, which it holds.
  pub submit_handler-waits :
      {W D : Type 0} (work : Work W) (doubles : Doubles D) (time : ℕ) (b : Block) (s : State W)
      → IsBlock prims (Block.serialize b) (map (λ t. serialize (copy stale t)) b.transactions)
      → 0 < length b.transactions
      → length b.transactions ≤ 25000
      → s.0.syncing ≡ false
      → s.0.num_blocks < b.id
      → submit_handler prims memory stale
          (submit_proof_of_work stale memory prims work doubles time)
          (submit_block stale b)
          s
        ≡ waits
  unfolding Block.serialize block_from_header
  submit_handler-waits work doubles time b s is some_of fits idle above =
      submit_handler-sent (submit_proof_of_work stale memory prims work doubles time)
        (submit_block stale b) _ s (parse_submission-submit_block b is some_of fits)
      ∙ ap answered (submit_proof_of_work-waits work doubles time _ s idle above)

  length-read_transactions :
      (n : ℕ) (curr : List ℕ) → length (read_transactions prims memory stale n curr) ≡ n
  unfolding read_transactions
  length-read_transactions zero curr = refl
  length-read_transactions (suc n) curr =
      ap suc (length-read_transactions n (drop transaction_info_buffer_size curr))

  -- What the tests have found for a block that is sent on.
  passed :
      (short wrong long : Bool) (b b' : Block)
      → (if short
          then malformed_block
          else if wrong
          then malformed_block
          else if long
          then too_many_transactions
          else sent b)
        ≡ sent b'
      → (short ≡ false)
        × ((wrong ≡ false) × ((long ≡ false) × (length b.transactions ≡ length b'.transactions)))
  unfolding count
  passed true wrong long b b' e = absurd cc
  passed false true long b b' e = absurd cc
  passed false false true b b' e = absurd cc
  passed false false false b b' e = (refl, (refl, (refl, ap count e)))

  -- A body that is parsed to a block is as long as a header and the block's transactions, of which
  -- there are between 1 and 25000: no transaction is read behind the end of the body, though the
  -- size that is tested is computed modulo 2 ^ 32.
  pub parse_submission-sent :
      (buffer : List ℕ) (b : Block)
      → parse_submission prims memory stale buffer ≡ sent b
      → IsSized (length buffer) (length b.transactions)
  unfolding parse_submission block_from_header
  parse_submission-sent buffer b e =
      let n = (block_header_from_buffer buffer).num_transactions in
      let txs = read_transactions prims memory stale n (drop block_header_buffer_size buffer) in
      let facts =
        passed (ltb (length buffer) (block_header_buffer_size + transaction_info_buffer_size))
          (not
            (length buffer == (block_header_buffer_size + n * transaction_info_buffer_size) % u32))
          (ltb max_transactions_per_block n)
          (block_from_header stale (block_header_from_buffer buffer) txs) b e in
      let counted : n ≡ length b.transactions =
        sym (length-read_transactions n (drop block_header_buffer_size buffer))
        ∙ (sym (length-map (copy stale) txs) ∙ facts.1.1.1) in
      subst (IsSized (length buffer)) counted
        (tested (length buffer) n facts.0 facts.1.0 facts.1.1.0)
