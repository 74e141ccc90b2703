-- ===== src/HeaderChain/Hashes.antt =====
-- HeaderChain::getHash.
use pandanite_node.Common.{ℕ, suc, ◌≡◌, some, length, get_elem?, arith, ltb, if◌then◌else◌}
use pandanite_node.HeaderChain.{HeaderChain, get_hash}

-- For a block id from 1 on, getHash answers the hash of that block if another one stands behind it
-- in the chain, and NULL_SHA256_HASH of the last block as of those that are not there.
pub get_hash_lem :
    {W : Type 0} (c : HeaderChain W) (i : ℕ)
    → get_hash c (suc i)
      ≡ (if ltb (suc i) (length c.block_hashes) then get_elem? c.block_hashes i else some 0)
unfolding get_hash
get_hash_lem c i = ground arith
