-- ===== src/Block/Tests.antt =====
-- A block header on the wire, and nonces that are verified with the cache.
use pandanite_node.Common.{ℕ, ◌≡◌, ◌++◌, arith, [], ◌∷◌}
use pandanite_node.Common.Bytes.{bytes_be}
use pandanite_node.Common.Dict.{Dict}
use pandanite_node.Crypto.{Primitives}
use pandanite_node.Block
use pandanite_node.Block.{Block, BlockHeader, block_header_from_buffer, block_header_to_buffer}
use pandanite_node.Block.Header.{header_from_buffer-to_buffer}
use pandanite_node.Block.Cached.{verify_nonce_cached, verify_nonce_cached-verify_nonce_cached}
use pandanite_node.Samples.{prims}

abbrev header : BlockHeader
header = record {
  id = 2;
  timestamp = 1000;
  difficulty = 16;
  num_transactions = 1;
  last_block_hash = 55;
  merkle_root = 66;
  nonce = 77;
}

header_from_buffer-to_buffer_example :
    block_header_from_buffer (block_header_to_buffer header (9 ∷ [])) ≡ header
header_from_buffer-to_buffer_example = header_from_buffer-to_buffer header (9 ∷ []) (record {
  id_bound = ground arith;
  timestamp_bound = ground arith;
  difficulty_bound = ground arith;
  num_transactions_bound = ground arith;
  last_block_hash_bound = ground arith;
  merkle_root_bound = ground arith;
  nonce_bound = ground arith;
})

abbrev block : Block
block = record {
  id = 2;
  timestamp = 1000;
  difficulty = 16;
  transactions = [];
  last_block_hash = 55;
  merkle_root = 66;
  nonce = 77;
}

-- A nonce that needs no work gets what another one had.
verify_nonce_cached-verify_nonce_cached_example :
    verify_nonce_cached prims (record block { nonce = 0 }) (verify_nonce_cached prims block []).1
    ≡ verify_nonce_cached prims block []
verify_nonce_cached-verify_nonce_cached_example =
    verify_nonce_cached-verify_nonce_cached prims block 0 []

-- The cache is asked first with the bytes of the block's hash and of its nonce.
abbrev asked : Primitives
asked = record prims {
  first_asked = λ key. bytes_be 32 (Block.get_hash prims block) ++ bytes_be 32 block.nonce;
}

-- The cache with the hash for another key.
abbrev cache : Dict ℕ
cache = (1, asked.pufferfish (asked.first_asked 1)) ∷ []
