-- ===== src/MerkleTree.antt =====
-- core/merkle_tree.cpp: the root hash of a block's transactions. A tree's node enters the queue as its
-- hash, which is all that the root depends on; the pointers of the tree, which only the proofs read,
-- are left out. With no transaction the code reads the front of an empty queue: `none`.
pub mod Order
pub mod Tree
pub mod Proofs
mod Tests
use pandanite_node.Common.{
  ℕ, zero, suc, ◌%◌, List, [], ◌∷◌, ◌++◌, Option, none, some, ltb, ◌==◌, if◌then◌else◌, length,
  last_or, map, false,
}
use pandanite_node.Crypto.{Primitives, concat_hashes}
use pandanite_node.Transaction.{Transaction, copy, get_hash}

-- A last hash is repeated to make their number even.
unfoldable pub fringe : List ℕ → List ℕ
fringe hashes = if (length hashes % 2) == 1 then hashes ++ last_or 0 hashes ∷ [] else hashes

module _ (prims : Primitives) where
  -- std::sort, the greatest hash first; comparing hexadecimal texts of one length is comparing
  -- numbers. The order of transactions with one hash is open in the source.
  unfoldable pub insert_item : Transaction → List Transaction → List Transaction
  insert_item t [] = t ∷ []
  insert_item t (x ∷ items) =
      if ltb (get_hash prims t) (get_hash prims x) then x ∷ insert_item t items else t ∷ x ∷ items

  -- `while(q.size()>1)`: each round takes two from the front and adds one at the back, so the size
  -- of the queue is fuel enough.
  unfoldable pub combine : ℕ → List ℕ → Option ℕ
  combine fuel [] = none
  combine fuel (a ∷ []) = some a
  combine zero (a ∷ b ∷ q) = none
  combine (suc fuel) (a ∷ b ∷ q) = combine fuel (q ++ concat_hashes prims a b false ∷ [])

  unfoldable pub root_of : List ℕ → Option ℕ
  unfolding combine fringe
  root_of hashes = let q = fringe hashes in combine (length q) q

  module _ (stale : Transaction → ℕ) where
    -- std::sort moves transactions by their copy constructor; which of them, and how often, is open in
    -- the source, and here each is copied once.
    unfoldable pub sort_items : List Transaction → List Transaction
    unfolding insert_item
    sort_items [] = []
    sort_items (t ∷ items) = insert_item (copy stale t) (sort_items items)

    -- The hashes of the loop's copies of the transactions.
    abbrev pub hashes_of : List Transaction → List ℕ
    hashes_of items = map (λ t. get_hash prims (copy stale t)) items

    -- setItems and getRootHash: the transactions in their new order, and the root.
    unfoldable pub set_items : List Transaction → List Transaction × Option ℕ
    unfolding root_of sort_items
    set_items items = let sorted = sort_items items in (sorted, root_of (hashes_of sorted))
