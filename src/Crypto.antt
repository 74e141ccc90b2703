-- ===== src/Crypto.antt =====
-- core/crypto.cpp: the hash functions and Ed25519 are other projects' code, and enter as the
-- fields of `Primitives`; what the node builds on them is modelled.
pub mod Hex
mod Bits
pub mod Cache
unfoldable pub use Hex.*
unfoldable pub use Bits.*
use pandanite_node.Common.{ℕ, ◌+◌, ◌*◌, ◌^◌, ◌/◌, List, [], ◌∷◌, ◌++◌, Bool, if◌then◌else◌}
use pandanite_node.Common.Bytes.{bytes_be, from_be}
use pandanite_node.Common.{take}

-- OpenSSL's SHA256 and RIPEMD160, the SHA256 of a pufferfish hash, and ed25519_verify; each takes
-- the bytes that are hashed. `first_asked` gives the bytes with which PUFFERFISH is asked first under a
-- key of its cache, which keeps the hash of these for good (Crypto.Cache).
pub record Primitives : Type 0 where
  pub sha256 : List ℕ → ℕ
  pub ripemd160 : List ℕ → ℕ
  pub pufferfish : List ℕ → ℕ
  pub first_asked : ℕ → List ℕ
  pub ed25519_verify : ℕ → List ℕ → ℕ → Bool

module _ (prims : Primitives) where
  open prims use {sha256, ripemd160, pufferfish, first_asked, ed25519_verify}

  -- A zero byte, the twenty bytes of hash2, and the first four bytes of hash4.
  unfoldable pub wallet_address_from_public_key : ℕ → ℕ
  wallet_address_from_public_key input_key =
      let hash = sha256 (bytes_be 32 input_key) in
      let hash2 = ripemd160 (bytes_be 32 hash) in
      let hash3 = sha256 (bytes_be 20 hash2) in
      let hash4 = sha256 (bytes_be 32 hash3) in
      from_be (0 ∷ (bytes_be 20 hash2 ++ take 4 (bytes_be 32 hash4)))

  -- checkSignature
  unfoldable pub check_signature : List ℕ → ℕ → ℕ → Bool
  check_signature bytes signature signing_key = ed25519_verify signature bytes signing_key

  -- PUFFERFISH with its cache, as all its callers have it: the key is made of the first 32 bytes.
  unfoldable pub cached_pufferfish : List ℕ → ℕ
  cached_pufferfish buffer = pufferfish (first_asked (from_be (take 32 buffer)))

  unfoldable pub concat_hashes : ℕ → ℕ → Bool → ℕ
  unfolding cached_pufferfish
  concat_hashes a b use_puffer_fish =
      let data64 = bytes_be 32 a ++ bytes_be 32 b in
      if use_puffer_fish then cached_pufferfish data64 else sha256 data64

  unfoldable pub verify_hash : ℕ → ℕ → ℕ → Bool → Bool
  unfolding concat_hashes check_leading_zero_bits
  verify_hash target nonce challenge_size use_puffer_fish =
      check_leading_zero_bits (bytes_be 32 (concat_hashes target nonce use_puffer_fish))
        challenge_size
