-- ===== src/Server/Tests.antt =====
-- A node that serves two blocks, and bodies that it is sent.
use pandanite_node.Common.{length, ℕ, ◌≡◌, refl, arith, List, [], ◌∷◌, none, some, map}
use pandanite_node.Common.Bytes.{bytes_be, from_be}
use pandanite_node.Common.State.{Action, ok, waits}
use pandanite_node.Crypto.{wallet_address_from_public_key}
use pandanite_node.Transaction.{Transaction, copy}
use pandanite_node.Transaction.Buffer.{TransactionInfo, serialize}
use pandanite_node.Block.{Block, BlockHeader}
use pandanite_node.Block
use pandanite_node.Blockchain.{BlockChain, get_raw}
use pandanite_node.RequestManager.{submit_proof_of_work}
use pandanite_node.Api.{submit_block, send_transactions, read_raw_blocks}
use pandanite_node.Api.Answers.{IsSent}
use pandanite_node.Api.Blocks.{IsBlock, received_block}
use pandanite_node.Server.{submit_handler, add_transaction_handler, sync_handler, sent}
use pandanite_node.Server.Submissions.{
  IsSized, parse_submission-submit_block, parse_submission-sent, submit_handler-waits,
}
use pandanite_node.Server.Batches.{
  add_each, replicate, parsed, add_transaction_handler-send_transactions,
}
use pandanite_node.Server.Sync.{HasBlock, read_raw_blocks-sync_handler}
use pandanite_node.Blockchain.Tests.{chain, doubles, work, memory}
use pandanite_node.BlockStore.{transaction_key}
use pandanite_node.BlockStore
use pandanite_node.Common.Dict.{lookup}
use pandanite_node.Samples.{prims, stale, payment, checksum}

abbrev block : Block
block = record {
  id = 2;
  timestamp = 1000;
  difficulty = 16;
  transactions = payment 30 2 0 ∷ [];
  last_block_hash = 55;
  merkle_root = 66;
  nonce = 77;
}

abbrev infos : List TransactionInfo
infos = map (λ t. serialize (copy stale t)) block.transactions

payment-IsSent : IsSent prims (serialize (payment 30 2 0))
unfolding serialize wallet_address_from_public_key checksum from_be bytes_be
payment-IsSent = (
  record {
    signature_bound = ground arith;
    signing_key_bound = ground arith;
    timestamp_bound = ground arith;
    to_bound = ground arith;
    amount_bound = ground arith;
    fee_bound = ground arith;
  },
  refl,
)

block-IsBlock : IsBlock prims (Block.serialize block) infos
unfolding Block.serialize copy
block-IsBlock = record {
  header = record {
    id_bound = ground arith;
    timestamp_bound = ground arith;
    difficulty_bound = ground arith;
    num_transactions_bound = ground arith;
    last_block_hash_bound = ground arith;
    merkle_root_bound = ground arith;
    nonce_bound = ground arith;
  };
  counted = refl;
  sent = (payment-IsSent, tt);
}

parse_submission-sent_example :
    IsSized
      (length (submit_block stale block))
      (length (received_block prims memory stale (Block.serialize block, infos)).transactions)
parse_submission-sent_example =
    parse_submission-sent prims memory stale (submit_block stale block)
      (received_block prims memory stale (Block.serialize block, infos))
      (parse_submission-submit_block prims memory stale block block-IsBlock (ground arith)
        (ground arith))

submit_handler-waits_example :
    submit_handler prims memory stale
      (submit_proof_of_work stale memory prims work doubles 2000)
      (submit_block stale block)
      (chain, none)
    ≡ waits
submit_handler-waits_example =
    submit_handler-waits prims memory stale work doubles 2000 block (chain, none) block-IsBlock
      (ground arith) (ground arith) refl (ground arith)

-- The transactions that were added, in their order.
abbrev add : Transaction → Action (List Transaction) (Unit {0})
add t s = (ok tt, t ∷ s)

add_transaction_handler-send_transactions_example :
    add_transaction_handler prims memory stale add
      (send_transactions (payment 30 2 0 ∷ payment 40 2 1 ∷ []))
      []
    ≡ add_each add (replicate 2 (parsed prims memory stale (serialize (payment 30 2 0)))) []
add_transaction_handler-send_transactions_example =
    add_transaction_handler-send_transactions prims memory stale add (payment 30 2 0)
      (payment 40 2 1 ∷ []) [] payment-IsSent

-- A chain that holds the block under its id.
abbrev serving : BlockChain ℕ
serving = record chain {
  num_blocks = 2;
  block_store = record {
    block_count = some 2;
    total_work = some 5;
    headers = (2, Block.serialize block) ∷ [];
    transactions = (transaction_key 2 0, serialize (copy stale (payment 30 2 0))) ∷ [];
    wallet_transactions = [];
  };
}

serving-HasBlock : HasBlock serving 2 (Block.serialize block, infos)
unfolding BlockStore.get_block_header BlockStore.read_transactions lookup Block.serialize
serving-HasBlock = record {
  top = record { there = ground arith; header = refl };
  transactions = refl;
}

read_raw_blocks-sync_handler_example :
    read_raw_blocks prims memory stale (sync_handler (λ i. (get_raw i serving).0) 2 2).body
    ≡ ok (received_block prims memory stale (Block.serialize block, infos) ∷ [])
read_raw_blocks-sync_handler_example =
    read_raw_blocks-sync_handler serving prims memory stale 2 (Block.serialize block, infos) []
      (serving-HasBlock, tt) (block-IsBlock, tt) (ground arith)
