-- ===== src/MerkleTree/Tree.antt =====
-- core/merkle_tree.cpp with its nodes: the tree that setItems builds, and getMerkleProof. A pointer to a
-- node of the tree is the subtree with what stands around it, from its parent up to the root; the
-- map of fringe nodes finds the leaf of a hash.
use pandanite_node.Common.{
  ℕ, zero, suc, List, [], ◌∷◌, ◌++◌, Option, none, some, false, ◌==◌, if◌then◌else◌, length, map,
}
use mathlib.Core.Option
use pandanite_node.Crypto.{Primitives, concat_hashes}
use pandanite_node.MerkleTree.{fringe}

pub data HashTree : Type 0 where
  leaf : ℕ → HashTree
  node : ℕ → HashTree → HashTree → HashTree

unfoldable pub hash_of : HashTree → ℕ
hash_of (leaf h) = h
hash_of (node h l r) = h

-- A parent's hash and other child, and the side on which the child of the pointer hangs.
pub data Frame : Type 0 where
  on_left on_right : ℕ → HashTree → Frame

-- `previousNode`: none, or the left or the right child of the node.
pub data Previous : Type 0 where
  no_node : Previous
  left_child right_child : HashTree → Previous

-- The copy of a node that getProof makes.
unfoldable pub proof_node : HashTree → Previous → HashTree
proof_node t no_node = leaf (hash_of t)
proof_node (leaf h) previous = leaf h
proof_node (node h l r) (left_child previous) = node h previous r
proof_node (node h l r) (right_child previous) = node h l previous

unfoldable pub get_proof : HashTree → Previous → List Frame → HashTree
unfolding proof_node
get_proof t previous [] = proof_node t previous
get_proof t previous (on_left h r ∷ parents) = get_proof (node h t r) (left_child t) parents
get_proof t previous (on_right h l ∷ parents) = get_proof (node h l t) (right_child t) parents

-- `fringeNodes.find`: what stands above the leaf of a hash.
unfoldable pub find : ℕ → HashTree → List Frame → Option (List Frame)
find h (leaf x) parents = if x == h then some parents else none
find h (node x l r) parents = elim (find h l (on_left x r ∷ parents)) [
  | some found ↦ some found
  | none ↦ find h r (on_right x l ∷ parents)
]

unfoldable pub get_merkle_proof : ℕ → HashTree → Option HashTree
unfolding find get_proof
get_merkle_proof h tree = Option.map (get_proof (leaf h) no_node) (find h tree [])

module _ (prims : Primitives) where
  abbrev pub join : HashTree → HashTree → HashTree
  join a b = node (concat_hashes prims (hash_of a) (hash_of b) false) a b

  -- `while(q.size()>1)`, on the nodes.
  unfoldable pub combine_trees : ℕ → List HashTree → Option HashTree
  combine_trees fuel [] = none
  combine_trees fuel (a ∷ []) = some a
  combine_trees zero (a ∷ b ∷ q) = none
  combine_trees (suc fuel) (a ∷ b ∷ q) = combine_trees fuel (q ++ join a b ∷ [])

  unfoldable pub build : List ℕ → Option HashTree
  unfolding combine_trees fringe
  build hashes = let q = map leaf (fringe hashes) in combine_trees (length q) q
