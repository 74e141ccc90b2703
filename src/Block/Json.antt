-- ===== src/Block/Json.antt =====
-- core/block.cpp: Block::toJson and the constructor from JSON. The loop of toJson copies each transaction,
-- so that the text has the hash of the copy; the constructor builds each transaction in the memory that
-- `old` gives, and pushes a copy. Members of 32 bits are cast.
pub mod RoundTrip
pub mod Tests
use Prim.Native.String.{String}
use pandanite_node.Common.{ℕ, ◌%◌, List, map, u32}
use pandanite_node.Common.State.{Result, ok, throws}
use pandanite_node.Common.Results.{◌>>=◌, map_results}
use pandanite_node.Helpers.{uint64_to_string, string_to_uint64}
use pandanite_node.Crypto.{Primitives, sha256_to_string, string_to_sha256}
use pandanite_node.Transaction.{Transaction, copy}
use pandanite_node.Transaction.Json.{to_json, transaction_from_json}
use pandanite_node.Block.{Block}
use pandanite_node.Block
use pandanite_node.Json.{Json}

module _ (json : Json) (prims : Primitives) (stale : Transaction → ℕ) where
  open json use {Value, null, number, text, array, set, at, to_number, to_text, items}

  unfoldable pub block_to_json : Block → Value
  block_to_json b =
      let numbers =
        set
          (set (set null "id" (number b.id)) "hash"
            (text (sha256_to_string (Block.get_hash prims b))))
          "difficulty" (number b.difficulty) in
      let result =
        set
          (set
            (set (set numbers "nonce" (text (sha256_to_string b.nonce))) "timestamp"
              (text (uint64_to_string b.timestamp)))
            "merkleRoot" (text (sha256_to_string b.merkle_root)))
          "lastBlockHash" (text (sha256_to_string b.last_block_hash)) in
      set result "transactions"
        (array (map (λ t. to_json json prims (copy stale t)) b.transactions))

  module _ (old : Value → Transaction) where
    -- Block::Block(json)
    unfoldable pub block_from_json : Value → Result Block
    block_from_json block = do
      nonce_text ← to_text (at block "nonce")
      nonce ← string_to_sha256 nonce_text
      root_text ← to_text (at block "merkleRoot")
      merkle_root ← string_to_sha256 root_text
      last_text ← to_text (at block "lastBlockHash")
      last_block_hash ← string_to_sha256 last_text
      id ← to_number (at block "id")
      difficulty ← to_number (at block "difficulty")
      timestamp ← to_text (at block "timestamp")
      transactions ←
          map_results (λ t. transaction_from_json json (old t) t) (items (at block "transactions"))
      ok (record {
        nonce = nonce;
        merkle_root = merkle_root;
        last_block_hash = last_block_hash;
        id = id % u32;
        difficulty = difficulty % u32;
        timestamp = string_to_uint64 timestamp;
        transactions = map (copy stale) transactions;
      })
