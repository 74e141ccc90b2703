-- ===== src/HeaderChain/Tests.antt =====
-- A header chain that loads one header of a peer.
use pandanite_node.Common.{ℕ, ◌+◌, ◌^◌, refl, List, [], ◌∷◌, false, Option, some, ltb}
use pandanite_node.Block.{BlockHeader}
use pandanite_node.HeaderChain.{HeaderChain, Work, load}
use pandanite_node.HeaderChain.Verified.{Verified, empty, load-Verified}
use pandanite_node.Samples.{prims}

abbrev work : Work ℕ
work = record {
  zero_work = 0;
  add_work = λ w difficulty. w + 2 ^ difficulty;
  is_positive = λ w. ltb 0 w;
}

abbrev header : BlockHeader
header = record {
  id = 1;
  timestamp = 1000;
  difficulty = 16;
  num_transactions = 1;
  last_block_hash = 0;
  merkle_root = 66;
  nonce = 77;
}

abbrev read_raw_headers : ℕ → ℕ → Option (List BlockHeader)
read_raw_headers from to = some (header ∷ [])

abbrev chain : HeaderChain ℕ
chain = record {
  failed = false;
  total_work = 0;
  chain_length = 0;
  block_hashes = [];
  check_points = [];
  banned_hashes = [];
}

load-Verified_example : Verified work prims [] [] (load work prims read_raw_headers (some 1) chain)
load-Verified_example =
    load-Verified work prims [] [] read_raw_headers (some 1) chain
      (record { same_banned = refl; same_checkpoints = refl; linked = empty; counted = refl })
