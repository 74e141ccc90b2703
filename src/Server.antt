-- ===== src/Server.antt =====
-- server/server.cpp: what the handlers of /submit, /add_transaction, /sync and /block_headers do with the
-- body of a request, and what they send. What a handler calls of the manager is an argument. The
-- checks of a request's rate and size end the response and go on, so they change nothing else. The
-- numbers of a query are those that are not negative.
pub mod Submissions
pub mod Batches
pub mod Sync
pub mod Queries
pub mod Bodies
mod Tests
use pandanite_node.Common.{
  ℕ, zero, suc, ◌+◌, ◌-◌, ◌*◌, ◌/◌, ◌%◌, List, [], ◌∷◌, ◌++◌, Bool, true, false, not, ◌==◌, ltb,
  if◌then◌else◌, length, drop, u32,
}
use pandanite_node.Common.State.{Action, Result, ok, throws, Outcome, returns, exits, waits}
use pandanite_node.Crypto.{Primitives}
use pandanite_node.Transaction.{Transaction}
use pandanite_node.Transaction.Buffer.{
  TransactionInfo, transaction_from_info, transaction_info_from_buffer,
  transaction_info_buffer_size,
}
use pandanite_node.Block.{
  Block, BlockHeader, block_from_header, block_header_from_buffer, block_header_to_buffer,
  block_header_buffer_size,
}
use pandanite_node.Blockchain.Adding.{max_transactions_per_block}
use pandanite_node.HeaderChain.{block_headers_per_fetch}
use pandanite_node.Blockchain.Syncing.{blocks_per_fetch}
use pandanite_node.Api.{read_transactions}

-- What is sent in answer to a request. An exception is caught: its text is sent, or nothing is.
pub data Reply (A : Type 0) : Type 0 where
  malformed_block too_many_transactions malformed_transaction unanswered : Reply A
  sent : A → Reply A

-- What /add_transaction sends for the results of its loop.
abbrev pub reply : {S A : Type 0} → Result (List A) × S → Reply (List A) × S
reply (throws e, s) = (unanswered, s)
reply (ok answers, s) = (sent answers, s)

abbrev pub answered : {S A : Type 0} → Outcome S A → Outcome S (Reply (Result A))
answered (returns r s) = returns (ok (sent r)) s
answered exits = exits
answered waits = waits

-- `submit` is the call of the manager; an exception that it throws is caught, and its text sent.
abbrev pub handle_submission :
    {S A : Type 0} → (Block → S → Outcome S A) → Reply Block → S → Outcome S (Reply (Result A))
handle_submission submit malformed_block s = returns (ok malformed_block) s
handle_submission submit too_many_transactions s = returns (ok too_many_transactions) s
handle_submission submit malformed_transaction s = returns (ok malformed_transaction) s
handle_submission submit unanswered s = returns (ok unanswered) s
handle_submission submit (sent b) s = answered (submit b s)

module _ (prims : Primitives) (memory : TransactionInfo → Transaction)
    (stale : Transaction → ℕ) where
  -- The block in the body of /submit. The size that the header announces is a uint32_t.
  unfoldable pub parse_submission : List ℕ → Reply Block
  parse_submission buffer =
      let header = block_header_from_buffer buffer in
      let size =
        block_header_buffer_size + header.num_transactions * transaction_info_buffer_size in
      if ltb (length buffer) (block_header_buffer_size + transaction_info_buffer_size)
      then malformed_block
      else if not (length buffer == size % u32)
      then malformed_block
      else if ltb max_transactions_per_block header.num_transactions
      then too_many_transactions
      else sent (
          block_from_header stale header (
            read_transactions prims memory stale header.num_transactions
              (drop block_header_buffer_size buffer)))

  unfoldable pub submit_handler :
      {S A : Type 0} → (Block → S → Outcome S A) → List ℕ → S → Outcome S (Reply (Result A))
  unfolding parse_submission
  submit_handler submit buffer s = handle_submission submit (parse_submission buffer) s

  -- The loop of /add_transaction reads the buffer from its begin in each round.
  unfoldable pub add_transactions :
      {S A : Type 0} → (Transaction → Action S A) → List ℕ → ℕ → Action S (List A)
  add_transactions add buffer zero s = (ok [], s)
  add_transactions add buffer (suc n) s =
      let info = transaction_info_from_buffer prims buffer in
      let (r, s') = add (transaction_from_info (memory info) info) s in
      let (rs, s'') = add_transactions add buffer n s' in
      elim r [
        | throws e ↦ (throws e, s')
        | ok a ↦ elim rs [ throws e ↦ (throws e, s'') | ok answers ↦ (ok (a ∷ answers), s'') ]
      ]

  unfoldable pub add_transaction_handler :
      {S A : Type 0} → (Transaction → Action S A) → List ℕ → S → Reply (List A) × S
  unfolding add_transactions
  add_transaction_handler add buffer s =
      if ltb (length buffer) transaction_info_buffer_size
      then (malformed_transaction, s)
      else reply (add_transactions add buffer (length buffer / transaction_info_buffer_size) s)

-- The response to a query for a range: what the client reads, and whether the handler comes to its end,
-- or a call throws. For a range that is too long the response ends with an empty text before the loop,
-- and what the loop writes to it is lost.
pub record Response : Type 0 where
  pub body : List ℕ
  pub finished : Bool

-- The loop over the range, from an id on for so many rounds; `part` gives the bytes of a block.
unfoldable pub write_range : (ℕ → Result (List ℕ)) → ℕ → ℕ → List ℕ × Bool
write_range part i zero = ([], true)
write_range part i (suc n) =
    let (bytes, finished) = write_range part (i + 1) n in
    elim (part i) [ throws e ↦ ([], false) | ok b ↦ (b ++ bytes, finished) ]

unfoldable pub range_handler : ℕ → (ℕ → Result (List ℕ)) → ℕ → ℕ → Response
unfolding write_range
range_handler limit part first last =
    let (written, finished) = write_range part first (last + 1 - first) in
    record { body = if ltb limit (last - first) then [] else written; finished = finished }

-- /sync and /block_headers, for the calls getRawBlockData and getBlockHeader of the manager.
unfoldable pub sync_handler : (ℕ → Result (List ℕ)) → ℕ → ℕ → Response
unfolding range_handler
sync_handler raw = range_handler blocks_per_fetch raw

abbrev pub header_bytes : Result BlockHeader → Result (List ℕ)
header_bytes (throws e) = throws e
header_bytes (ok b) = ok (block_header_to_buffer b [])

unfoldable pub block_header_handler : (ℕ → Result BlockHeader) → ℕ → ℕ → Response
unfolding range_handler
block_header_handler header = range_handler block_headers_per_fetch (λ i. header_bytes (header i))
