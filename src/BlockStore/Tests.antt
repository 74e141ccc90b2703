-- ===== src/BlockStore/Tests.antt =====
-- Storing a block and reading it back.
use pandanite_node.Common.{ℕ, ◌≡◌, [], ◌∷◌, none, some, map}
use pandanite_node.Transaction.Buffer.{serialize}
use pandanite_node.Block.{Block, block_header_to_buffer}
use pandanite_node.Block
use pandanite_node.BlockStore.{BlockStore, get_raw_data, raw_transactions, set_block}
use pandanite_node.BlockStore.Reading.{get_raw_data-set_block}
use pandanite_node.Samples.{prims, payment, mining_fee}

abbrev block : Block
block = record {
  id = 2;
  timestamp = 1000;
  difficulty = 16;
  transactions = payment 30 2 0 ∷ mining_fee 50 ∷ [];
  last_block_hash = 55;
  merkle_root = 66;
  nonce = 77;
}

abbrev store : BlockStore ℕ
store = record {
  block_count = none;
  total_work = none;
  headers = [];
  transactions = [];
  wallet_transactions = [];
}

get_raw_data-set_block_example :
    get_raw_data 2 (set_block prims block store)
    ≡ some (
        block_header_to_buffer
          (Block.serialize block)
          (raw_transactions (map serialize block.transactions)))
get_raw_data-set_block_example = get_raw_data-set_block prims block store
