-- ===== src/Block/Json/RoundTrip.antt =====
-- Reading back a block that was written as JSON.
use pandanite_node.Common.{ℕ, ◌%◌, ◌^◌, ◌<◌, ◌≡◌, List, [], ◌∷◌, refl, arith, u32, u64, map, All}
use pandanite_node.Common.State.{ok}
use pandanite_node.Common.Results.{map_results}
use pandanite_node.Helpers.Decimal.{string_to_uint64-uint64_to_string}
use pandanite_node.Crypto.{Primitives}
use pandanite_node.Crypto.Hex.RoundTrip.{string_to_sha256-array}
use pandanite_node.Transaction.{Transaction, copy}
use pandanite_node.Transaction.Json.{to_json, transaction_from_json}
use pandanite_node.Transaction.Json.RoundTrip.{IsSized, reread, transaction_from_json-to_json}
use pandanite_node.Block.{Block}
use pandanite_node.Json.{Json, IsLawful}
use pandanite_node.Block.Json.{block_to_json, block_from_json}

-- The members have their sizes.
pub record IsSizedBlock (b : Block) : Type 0 where
  pub id_size : b.id < u32
  pub difficulty_size : b.difficulty < u32
  pub time_size : b.timestamp < u64
  pub nonce_size : b.nonce < 256 ^ 32
  pub root_size : b.merkle_root < 256 ^ 32
  pub last_size : b.last_block_hash < 256 ^ 32
  pub transactions_size : All IsSized b.transactions

small : (n : ℕ) → n < u32 → n % u32 ≡ n
small n h = omega arith

module _ (json : Json) (laws : IsLawful json) (prims : Primitives) (stale : Transaction → ℕ)
    (old : json.Value → Transaction) where
  open json use {at, number, text, array, items}

  -- A transaction of the block that is read back.
  abbrev pub again : Transaction → Transaction
  again t = reread (old (to_json json prims (copy stale t))) (copy stale t)

  copy-IsSized : (t : Transaction) → IsSized t → IsSized (copy stale t)
  unfolding copy
  copy-IsSized t s = record {
    to_size = s.to_size;
    from_size = s.from_size;
    key_size = s.key_size;
    signature_size = s.signature_size;
    time_size = s.time_size;
  }

  transactions_read :
      (ts : List Transaction)
      → All IsSized ts
      → map_results
          (λ t. transaction_from_json json (old t) t)
          (map (λ t. to_json json prims (copy stale t)) ts)
        ≡ ok (map again ts)
  transactions_read [] h = refl
  transactions_read (t ∷ ts) h =
      let t' = copy stale t in
      rw
        (
          transaction_from_json-to_json json laws prims t' (old (to_json json prims t'))
              (copy-IsSized t h.0),
          transactions_read ts h.1,
        )
        refl

  -- A block that is written as JSON is read back, with the transactions as the constructor of a
  -- transaction reads them, copied once more. The members have their sizes, and the values of the JSON
  -- library meet its documentation.
  pub block_from_json-block_to_json :
      (b : Block)
      → IsSizedBlock b
      → block_from_json json prims stale old (block_to_json json prims stale b)
        ≡ ok (record b { transactions = map (copy stale) (map again b.transactions) })
  unfolding block_from_json block_to_json
  block_from_json-block_to_json b s = simp (
    laws.at-set,
    laws.to_text-text,
    laws.to_number-number,
    laws.items-array,
    string_to_sha256-array b.nonce s.nonce_size,
    string_to_sha256-array b.merkle_root s.root_size,
    string_to_sha256-array b.last_block_hash s.last_size,
    string_to_uint64-uint64_to_string b.timestamp s.time_size,
    transactions_read b.transactions s.transactions_size,
    small b.id s.id_size,
    small b.difficulty s.difficulty_size,
  )
