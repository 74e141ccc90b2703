-- ===== src/Samples.antt =====
-- Small concrete data: a checksum in the place of the hash functions, two wallets, a block.
use pandanite_node.Common.{ℕ, ◌+◌, ◌*◌, ◌%◌, List, [], ◌∷◌, true, false}
use pandanite_node.Crypto.{Primitives, wallet_address_from_public_key}
use pandanite_node.Transaction.{Transaction}

unfoldable pub checksum : List ℕ → ℕ
checksum [] = 7
checksum (b ∷ bytes) = (checksum bytes * 31 + b) % 65521

-- Every signature is accepted, and every pufferfish hash begins with zero bits only.
abbrev pub prims : Primitives
prims = record {
  sha256 = checksum;
  ripemd160 = checksum;
  pufferfish = λ _. 0;
  first_asked = λ key. [];
  ed25519_verify = λ _ _ _. true;
}

-- A copy's nonce is what its original had.
abbrev pub stale : Transaction → ℕ
stale t = t.nonce

-- The wallets of the keys 3 and 4.
abbrev pub alice : ℕ
alice = wallet_address_from_public_key prims 3

abbrev pub bob : ℕ
bob = wallet_address_from_public_key prims 4

abbrev pub payment : ℕ → ℕ → ℕ → Transaction
payment amount fee nonce = record {
  signature = 1;
  signing_key = 3;
  timestamp = 1000;
  to = bob;
  from = alice;
  amount = amount;
  fee = fee;
  is_transaction_fee = false;
  nonce = nonce;
}

abbrev pub mining_fee : ℕ → Transaction
mining_fee amount = record {
  signature = 0;
  signing_key = 0;
  timestamp = 1000;
  to = bob;
  from = 0;
  amount = amount;
  fee = 0;
  is_transaction_fee = true;
  nonce = 0;
}
