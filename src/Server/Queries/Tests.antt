-- ===== src/Server/Queries/Tests.antt =====
-- A request for a block, the state of its mining, and the hash rate of a short chain.
use pandanite_node.Common.{ℕ, ◌≡◌, ◌^◌, ◌+◌, ◌∙◌, ap, [], ◌∷◌, none, some, arith, refl}
use pandanite_node.Common.Dict.{lookup}
use pandanite_node.Common.State.{ok, exits}
use pandanite_node.Common.Results.{◌>>=◌}
use pandanite_node.Helpers.{uint64_to_string}
use pandanite_node.Transaction.{copy}
use pandanite_node.Transaction.Buffer.{serialize, transaction_from_info}
use pandanite_node.Block.{block_from_header}
use pandanite_node.Block
use pandanite_node.Block.Json.{block_to_json}
use pandanite_node.Block.Json.Tests.{block}
use pandanite_node.BlockStore.{get_block_header, get_block_transactions, read_transactions}
use pandanite_node.BlockStore
use pandanite_node.Blockchain.{BlockChain, get_block, is_missing}
use pandanite_node.Blockchain
use pandanite_node.Blockchain.Tests.{chain, memory}
use pandanite_node.RequestManager.Statistics.{get_network_hashrate}
use pandanite_node.RequestManager.Statistics.Hashrate.{get_network_hashrate-exits}
use pandanite_node.Server.Queries.{sent, or_empty, block_handler}
use pandanite_node.Server.Queries.Numbers.{block_handler_lem}
use pandanite_node.Json.Values.{values}
use pandanite_node.Samples.{prims, stale, payment, mining_fee}

-- A chain whose second block is in its store.
abbrev second : BlockChain ℕ
second = record chain {
  num_blocks = 2;
  block_store = record {
    block_count = some 2;
    total_work = none;
    headers = (2, Block.serialize block) ∷ [];
    transactions =
        (BlockStore.transaction_key 2 0, serialize (mining_fee 50))
        ∷ (BlockStore.transaction_key 2 1, serialize (payment 30 2 0))
        ∷ [];
    wallet_transactions = [];
  };
}

get_block_run : (get_block stale memory 2 second).0 ≡ ok block
unfolding get_block BlockStore.get_block get_block_header get_block_transactions read_transactions
    lookup block_from_header copy serialize transaction_from_info Block.serialize
get_block_run = refl

header_run : (Blockchain.get_block_header 2 second).0 ≡ ok (Block.serialize block)
unfolding Blockchain.get_block_header get_block_header lookup
header_run = refl

get_network_hashrate-exits_example : get_network_hashrate (λ w d. w + 2 ^ d) second ≡ exits
get_network_hashrate-exits_example =
    get_network_hashrate-exits (λ w d. w + 2 ^ d) second (Block.serialize block) (omega arith)
      (λ two. header_run)

block_handler_lem_example :
    block_handler values prims stale memory (λ _. mining_fee 0) (uint64_to_string 2) second
    ≡ sent (block_to_json values prims stale block)
block_handler_lem_example =
    block_handler_lem values prims stale memory (λ _. mining_fee 0) 2 second (omega arith)
      (omega arith)
    ∙ ap (λ r. or_empty (r >>= λ b. ok (block_to_json values prims stale b))) get_block_run
