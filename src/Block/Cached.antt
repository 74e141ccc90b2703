-- ===== src/Block/Cached.antt =====
-- core/block.cpp: verifyNonce with the cache of pufferfish hashes, which it always uses. Elsewhere in the
-- model the cache is not part of the state: `first_asked` says what it answers.
use pandanite_node.Common.{ℕ, ◌%◌, ◌≡◌, List, ◌++◌, Bool, true, some, sym, ap, ◌∙◌, arith, take}
use pandanite_node.Common.Bytes.{bytes_be, from_be, length-bytes_be, take-append}
use pandanite_node.Common.Dict.{Dict, lookup, lookup-insert}
use pandanite_node.Crypto.{Primitives, check_leading_zero_bits}
use pandanite_node.Crypto
use pandanite_node.Crypto.Cache.{verify_hash, concat_hashes, puffer_fish, get_hash, set_hash}
use pandanite_node.Block.{Block}
use pandanite_node.Block

module _ (prims : Primitives) where
  unfoldable pub verify_nonce_cached : Block → Dict ℕ → Bool × Dict ℕ
  unfolding verify_hash
  verify_nonce_cached b cache =
      verify_hash prims (Block.get_hash prims b) b.nonce (b.difficulty % 256) true true cache

  -- The key under which a hash of two hashes is kept: that of the first.
  key : (a b : ℕ) → from_be (take 32 (bytes_be 32 a ++ bytes_be 32 b)) ≡ from_be (bytes_be 32 a)
  key a b = ap from_be (take-append 32 (bytes_be 32 a) (bytes_be 32 b) (length-bytes_be 32 a))

  -- A buffer with the same first bytes finds what another one has left.
  puffer_fish-puffer_fish :
      (buffer buffer' : List ℕ) (cache : Dict ℕ)
      → from_be (take 32 buffer') ≡ from_be (take 32 buffer)
      → puffer_fish prims buffer' true (puffer_fish prims buffer true cache).1
        ≡ puffer_fish prims buffer true cache
  unfolding puffer_fish get_hash set_hash
  puffer_fish-puffer_fish buffer buffer' cache same =
      let k = from_be (take 32 buffer) in
      ground (arith, same, lookup-insert k k (prims.pufferfish buffer) cache)

  -- After the nonce of a block has been verified, with whatever result and cache, every other nonce of
  -- the same block is verified with that result: the cache is searched without the nonce.
  pub verify_nonce_cached-verify_nonce_cached :
      (b : Block) (nonce : ℕ) (cache : Dict ℕ)
      → verify_nonce_cached (record b { nonce = nonce }) (verify_nonce_cached b cache).1
        ≡ verify_nonce_cached b cache
  unfolding verify_nonce_cached verify_hash concat_hashes Block.get_hash
  verify_nonce_cached-verify_nonce_cached b nonce cache =
      let target = Block.get_hash prims b in
      ap {B = Bool × Dict ℕ}
        (λ p. (check_leading_zero_bits (bytes_be 32 p.0) (b.difficulty % 256), p.1))
        (puffer_fish-puffer_fish (bytes_be 32 target ++ bytes_be 32 b.nonce)
          (bytes_be 32 target ++ bytes_be 32 nonce) cache
          (key target nonce ∙ sym (key target b.nonce)))

  -- The cache holds for a key the hash of the bytes that were asked first under it.
  abbrev pub Accords : Dict ℕ → Type 0
  Accords cache = (k h : ℕ) → lookup k cache ≡ some h → h ≡ prims.pufferfish (prims.first_asked k)
