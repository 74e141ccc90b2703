-- ===== src/Block/Json/Tests.antt =====
-- A block written as JSON and read back.
use pandanite_node.Common.{◌≡◌, arith, [], ◌∷◌}
use pandanite_node.Common.State.{ok}
use pandanite_node.Transaction.{copy}
use pandanite_node.Transaction.Json.Tests.{payment-IsSized, mining_fee-IsSized}
use pandanite_node.Block.{Block}
use pandanite_node.Block.Json.{block_to_json, block_from_json}
use pandanite_node.Block.Json.RoundTrip.{IsSizedBlock, block_from_json-block_to_json}
use pandanite_node.Json.Values.{values, values-IsLawful}
use pandanite_node.Samples.{prims, stale, payment, mining_fee}

abbrev pub block : Block
block = record {
  id = 2;
  timestamp = 1000;
  difficulty = 16;
  transactions = mining_fee 50 ∷ payment 30 2 0 ∷ [];
  last_block_hash = 5;
  merkle_root = 6;
  nonce = 7;
}

pub block-IsSized : IsSizedBlock block
block-IsSized = record {
  id_size = omega arith;
  difficulty_size = omega arith;
  time_size = omega arith;
  nonce_size = omega arith;
  root_size = omega arith;
  last_size = omega arith;
  transactions_size = (mining_fee-IsSized, (payment-IsSized, tt));
}

block_from_json-block_to_json_example :
    block_from_json values prims stale (λ _. mining_fee 0) (block_to_json values prims stale block)
    ≡ ok block
unfolding copy
block_from_json-block_to_json_example =
    block_from_json-block_to_json values values-IsLawful prims stale (λ _. mining_fee 0) block
      block-IsSized
