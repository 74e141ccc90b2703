-- ===== src/Block/Header.antt =====
-- The wire format of a block header, and the proof of work that a header carries.
use pandanite_node.Common.{ℕ, ◌+◌, ◌^◌, ◌<◌, ◌≡◌, List, arith, length, length-append}
use pandanite_node.Common.Bytes.{length-bytes_le, length-bytes_be}
use pandanite_node.Transaction.Buffer.{
  write_network_uint32, write_network_uint64, write_network_n_bytes,
}
use pandanite_node.Transaction.Buffer.RoundTrip.{
  read-write_uint32, read-write_uint64, read-write_n_bytes,
}
use pandanite_node.Block.{
  BlockHeader, block_header_from_buffer, block_header_to_buffer, block_header_buffer_size,
}

-- The members of a header fit their C++ types.
pub record InRange (b : BlockHeader) : Type 0 where
  pub id_bound : b.id < 2 ^ 32
  pub timestamp_bound : b.timestamp < 2 ^ 64
  pub difficulty_bound : b.difficulty < 2 ^ 32
  pub num_transactions_bound : b.num_transactions < 2 ^ 32
  pub last_block_hash_bound : b.last_block_hash < 256 ^ 32
  pub merkle_root_bound : b.merkle_root < 256 ^ 32
  pub nonce_bound : b.nonce < 256 ^ 32

-- Reading the buffer that a header was written to gives the header back, whatever follows in the
-- buffer, provided that the members fit their types.
pub header_from_buffer-to_buffer :
    (b : BlockHeader) (rest : List ℕ)
    → InRange b
    → block_header_from_buffer (block_header_to_buffer b rest) ≡ b
unfolding block_header_from_buffer block_header_to_buffer
header_from_buffer-to_buffer b rest r = rw (
  read-write_uint32 _ _ r.id_bound,
  read-write_uint64 _ _ r.timestamp_bound,
  read-write_uint32 _ _ r.difficulty_bound,
  read-write_uint32 _ _ r.num_transactions_bound,
  read-write_n_bytes 32 _ _ r.last_block_hash_bound,
  read-write_n_bytes 32 _ _ r.merkle_root_bound,
  read-write_n_bytes 32 _ _ r.nonce_bound,
)

-- A header takes BLOCKHEADER_BUFFER_SIZE bytes of the buffer.
pub length-header_to_buffer :
    (b : BlockHeader) (rest : List ℕ)
    → length (block_header_to_buffer b rest) ≡ block_header_buffer_size + length rest
unfolding block_header_to_buffer write_network_uint32 write_network_uint64 write_network_n_bytes
length-header_to_buffer b rest =
    simp (length-append, length-bytes_le, length-bytes_be) (omega arith)
