-- ===== src/Block.antt =====
-- core/block.hpp and core/block.cpp.
pub mod Header
pub mod Cached
pub mod Json
mod Tests
use pandanite_node.Common.{
  ℕ, ◌%◌, List, [], ◌∷◌, ◌++◌, Bool, true, false, ◌&&◌, ◌==◌, if◌then◌else◌, length, map,
}
use pandanite_node.Common.Bytes.{bytes_be, bytes_le, from_be, from_le}
use pandanite_node.Crypto.{Primitives, verify_hash}
use pandanite_node.Transaction.{Transaction, copy, equal_transactions}
use pandanite_node.Transaction.Buffer.{
  read_network_uint32, read_network_uint64, read_network_n_bytes, write_network_uint32,
  write_network_uint64, write_network_n_bytes,
}

pub record Block : Type 0 where
  pub id : ℕ
  pub timestamp : ℕ
  pub difficulty : ℕ
  pub transactions : List Transaction
  pub last_block_hash : ℕ
  pub merkle_root : ℕ
  pub nonce : ℕ

pub record BlockHeader : Type 0 where
  pub id : ℕ
  pub timestamp : ℕ
  pub difficulty : ℕ
  pub num_transactions : ℕ
  pub last_block_hash : ℕ
  pub merkle_root : ℕ
  pub nonce : ℕ

-- BLOCKHEADER_BUFFER_SIZE
abbrev pub block_header_buffer_size : ℕ
block_header_buffer_size = 116

-- blockHeaderFromBuffer
unfoldable pub block_header_from_buffer : List ℕ → BlockHeader
block_header_from_buffer buffer =
    let (id, b1) = read_network_uint32 buffer in
    let (timestamp, b2) = read_network_uint64 b1 in
    let (difficulty, b3) = read_network_uint32 b2 in
    let (num_transactions, b4) = read_network_uint32 b3 in
    let (last_block_hash, b5) = read_network_n_bytes 32 b4 in
    let (merkle_root, b6) = read_network_n_bytes 32 b5 in
    let (nonce, b7) = read_network_n_bytes 32 b6 in
    record {
      id = id;
      timestamp = timestamp;
      difficulty = difficulty;
      num_transactions = num_transactions;
      last_block_hash = last_block_hash;
      merkle_root = merkle_root;
      nonce = nonce;
    }

-- blockHeaderToBuffer
unfoldable pub block_header_to_buffer : BlockHeader → List ℕ → List ℕ
block_header_to_buffer b rest = write_network_uint32 b.id (
    write_network_uint64 b.timestamp (
      write_network_uint32 b.difficulty (
        write_network_uint32 b.num_transactions (
          write_network_n_bytes 32 b.last_block_hash
            (write_network_n_bytes 32 b.merkle_root (write_network_n_bytes 32 b.nonce rest))))))

-- Block::serialize
unfoldable pub serialize : Block → BlockHeader
serialize b = record {
  id = b.id;
  timestamp = b.timestamp;
  difficulty = b.difficulty;
  num_transactions = length b.transactions;
  nonce = b.nonce;
  merkle_root = b.merkle_root;
  last_block_hash = b.last_block_hash;
}

-- Block::Block(const BlockHeader&, vector<Transaction>&): the loop copies each transaction.
unfoldable pub block_from_header : (Transaction → ℕ) → BlockHeader → List Transaction → Block
block_from_header stale b transactions = record {
  id = b.id;
  timestamp = b.timestamp;
  difficulty = b.difficulty;
  nonce = b.nonce;
  merkle_root = b.merkle_root;
  last_block_hash = b.last_block_hash;
  transactions = map (copy stale) transactions;
}

module _ (prims : Primitives) where
  -- Block::getHash: the hash does not cover the id or the nonce.
  unfoldable pub get_hash : Block → ℕ
  get_hash b = prims.sha256 (
      bytes_be 32 b.merkle_root
      ++ (bytes_be 32 b.last_block_hash ++ (bytes_le 4 b.difficulty ++ bytes_le 8 b.timestamp)))

  -- Block::verifyNonce: the difficulty, a uint32_t, is passed as a uint8_t.
  unfoldable pub verify_nonce : Block → Bool
  verify_nonce b = verify_hash prims (get_hash b) b.nonce (b.difficulty % 256) true

equal_all : List Transaction → List Transaction → Bool
equal_all [] [] = true
equal_all [] (b ∷ bs) = false
equal_all (a ∷ as') [] = false
equal_all (a ∷ as') (b ∷ bs) = equal_transactions a b && equal_all as' bs

-- operator==
unfoldable pub equal_blocks : Block → Block → Bool
unfolding equal_all
equal_blocks a b =
    b.id == a.id
    && (b.nonce == a.nonce
        && (b.timestamp == a.timestamp
            && (b.last_block_hash == a.last_block_hash
                && (b.difficulty == a.difficulty
                    && (b.merkle_root == a.merkle_root
                        && equal_all a.transactions b.transactions)))))
