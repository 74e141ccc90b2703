-- ===== src/Crypto/Cache.antt =====
-- The cache of pufferfish hashes: server/pufferfish_cache.cpp, and PUFFERFISH of core/crypto.cpp with what
-- passes its flag on. The cache is opened once and its writes succeed.
use pandanite_node.Common.{
  ℕ, List, ◌++◌, Bool, true, false, Option, none, some, if◌then◌else◌, take,
}
use pandanite_node.Common.Bytes.{bytes_be, from_be}
use pandanite_node.Common.Dict.{Dict, lookup, insert, contains}
use pandanite_node.Crypto.{Primitives, check_leading_zero_bits}

unfoldable pub has_hash : ℕ → Dict ℕ → Bool
unfolding contains
has_hash hash cache = contains hash cache

-- getHash throws where there is no entry: `none`.
unfoldable pub get_hash : ℕ → Dict ℕ → Option ℕ
unfolding lookup
get_hash hash cache = lookup hash cache

unfoldable pub set_hash : ℕ → ℕ → Dict ℕ → Dict ℕ
unfolding insert
set_hash input value cache = insert input value cache

module _ (prims : Primitives) where
  -- PUFFERFISH: the key is made of the first 32 bytes of the buffer.
  unfoldable pub puffer_fish : List ℕ → Bool → Dict ℕ → ℕ × Dict ℕ
  unfolding get_hash set_hash
  puffer_fish buffer false cache = (prims.pufferfish buffer, cache)
  puffer_fish buffer true cache =
      let input_hash = from_be (take 32 buffer) in
      elim (get_hash input_hash cache) [
        | some h ↦ (h, cache)
        | none ↦ (prims.pufferfish buffer, set_hash input_hash (prims.pufferfish buffer) cache)
      ]

  unfoldable pub concat_hashes : ℕ → ℕ → Bool → Bool → Dict ℕ → ℕ × Dict ℕ
  unfolding puffer_fish
  concat_hashes a b use_puffer_fish use_cache cache =
      let data64 = bytes_be 32 a ++ bytes_be 32 b in
      if use_puffer_fish then puffer_fish data64 use_cache cache else (prims.sha256 data64, cache)

  unfoldable pub verify_hash : ℕ → ℕ → ℕ → Bool → Bool → Dict ℕ → Bool × Dict ℕ
  unfolding concat_hashes check_leading_zero_bits
  verify_hash target nonce challenge_size use_puffer_fish use_cache cache =
      let (full_hash, cache') = concat_hashes target nonce use_puffer_fish use_cache cache in
      (check_leading_zero_bits (bytes_be 32 full_hash) challenge_size, cache')
