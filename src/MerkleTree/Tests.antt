-- ===== src/MerkleTree/Tests.antt =====
-- The root of a block's transactions.
use pandanite_node.Transaction.{Transaction}
use pandanite_node.Common.{ℕ, ◌≡◌, refl, [], ◌∷◌, none, some, false, if◌then◌else◌}
use mathlib.Core.List.{Permᴰ}
use pandanite_node.MerkleTree.{set_items, fringe}
use pandanite_node.MerkleTree.Tree.{
  HashTree, leaf, node, hash_of, build, combine_trees, get_merkle_proof,
}
use pandanite_node.MerkleTree.Proofs.{contains, get_merkle_proof-build}
use pandanite_node.Crypto.{concat_hashes}
use pandanite_node.MerkleTree.Order.{set_items-Permᴰ}
use pandanite_node.Samples.{prims, payment, mining_fee}

-- Memory that was cleared.
abbrev zeroed : Transaction → ℕ
zeroed t = 0

set_items-Permᴰ_example :
    (set_items prims zeroed (payment 30 2 0 ∷ mining_fee 50 ∷ [])).1
    ≡ (set_items prims zeroed (mining_fee 50 ∷ payment 30 2 0 ∷ [])).1
set_items-Permᴰ_example =
    set_items-Permᴰ prims zeroed (λ t u. refl) (payment 30 2 0 ∷ mining_fee 50 ∷ [])
      (mining_fee 50 ∷ payment 30 2 0 ∷ []) (Permᴰ.swap refl refl)

abbrev tree : HashTree
tree = node (concat_hashes prims 5 3 false) (leaf 5) (leaf 3)

build_run : build prims (5 ∷ 3 ∷ []) ≡ some tree
unfolding build combine_trees fringe hash_of
build_run = refl

get_merkle_proof-build_example :
    get_merkle_proof 3 tree ≡ (if contains 3 (5 ∷ 3 ∷ []) then some tree else none)
get_merkle_proof-build_example = get_merkle_proof-build prims 3 (5 ∷ 3 ∷ []) tree build_run
