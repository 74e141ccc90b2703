-- ===== src/MerkleTree/Order.antt =====
-- The root hash and the order in which a block lists its transactions.
use pandanite_node.Common.{
  ℕ, ◌≡◌, List, [], ◌∷◌, ltb, arith, refl, sym, ap, ◌∙◌, if◌then◌else◌, map, All, Bool-cases, inl,
  inr,
}
use mathlib.Core.List.{Permᴰ}
use pandanite_node.Crypto.{Primitives}
use pandanite_node.Transaction.{Transaction, copy, get_hash}
use pandanite_node.MerkleTree.{insert_item, sort_items, root_of, set_items, hashes_of}

-- Insertion and sorting of hashes, the greatest first.
insert_hash : ℕ → List ℕ → List ℕ
insert_hash h [] = h ∷ []
insert_hash h (x ∷ hashes) = if ltb h x then x ∷ insert_hash h hashes else h ∷ x ∷ hashes

insert_hash-insert_hash :
    (a b : ℕ) (hashes : List ℕ)
    → insert_hash a (insert_hash b hashes) ≡ insert_hash b (insert_hash a hashes)
unfolding insert_hash
insert_hash-insert_hash a b [] = ground arith
insert_hash-insert_hash a b (x ∷ hashes) = ground (arith, insert_hash-insert_hash a b hashes)

sort_hashes : List ℕ → List ℕ
sort_hashes [] = []
sort_hashes (h ∷ hashes) = insert_hash h (sort_hashes hashes)

module _ (prims : Primitives) where
  map-insert_item :
      (t : Transaction) (items : List Transaction)
      → map (get_hash prims) (insert_item prims t items)
        ≡ insert_hash (get_hash prims t) (map (get_hash prims) items)
  unfolding insert_item insert_hash
  map-insert_item t [] = refl
  map-insert_item t (x ∷ items) = ground (arith, map-insert_item t items)

  -- What is hashed where every copy finds the same nonce.
  module _ (stale : Transaction → ℕ) (same : (t u : Transaction) → stale t ≡ stale u) where
    -- The hash of a copy.
    abbrev copied_hash : Transaction → ℕ
    copied_hash t = get_hash prims (copy stale t)

    copy-copy : (t : Transaction) → copy stale (copy stale t) ≡ copy stale t
    unfolding copy
    copy-copy t = ap (λ n. record t { nonce = n }) (same (copy stale t) t)

    insert_item-copied :
        (t : Transaction) (items : List Transaction)
        → map copied_hash items ≡ map (get_hash prims) items
        → map copied_hash (insert_item prims (copy stale t) items)
          ≡ map (get_hash prims) (insert_item prims (copy stale t) items)
    unfolding insert_item
    insert_item-copied t [] h = ap (λ u. get_hash prims u ∷ []) (copy-copy t)
    insert_item-copied t (x ∷ items) h =
        let heads : copied_hash x ≡ get_hash prims x = cc in
        let tails : map copied_hash items ≡ map (get_hash prims) items = cc in
        elim (Bool-cases (ltb (get_hash prims (copy stale t)) (get_hash prims x))) [
          | inl e ↦ rw e (cc (heads, insert_item-copied t items tails))
          | inr e ↦ rw e (cc (h, ap (get_hash prims) (copy-copy t)))
        ]

    hashes_of-sort_items :
        (items : List Transaction)
        → hashes_of prims stale (sort_items prims stale items)
          ≡ map (get_hash prims) (sort_items prims stale items)
    unfolding sort_items
    hashes_of-sort_items [] = refl
    hashes_of-sort_items (t ∷ items) =
        insert_item-copied t (sort_items prims stale items) (hashes_of-sort_items items)

    map-sort_items :
        (items : List Transaction)
        → map (get_hash prims) (sort_items prims stale items) ≡ sort_hashes (map copied_hash items)
    unfolding sort_items sort_hashes
    map-sort_items [] = refl
    map-sort_items (t ∷ items) =
        map-insert_item (copy stale t) (sort_items prims stale items)
        ∙ ap (insert_hash (copied_hash t)) (map-sort_items items)

    sort_hashes-Permᴰ :
        {items items' : List Transaction}
        → Permᴰ items items'
        → sort_hashes (map copied_hash items) ≡ sort_hashes (map copied_hash items')
    unfolding sort_hashes
    sort_hashes-Permᴰ Permᴰ.nil = refl
    sort_hashes-Permᴰ (Permᴰ.cons e p) = cc (e, sort_hashes-Permᴰ p)
    sort_hashes-Permᴰ (Permᴰ.swap {a} {b} {a'} {b'} {l} e e') =
        insert_hash-insert_hash (copied_hash a) (copied_hash b) (sort_hashes (map copied_hash l))
        ∙ cc (e, e')
    sort_hashes-Permᴰ (Permᴰ.trans p q) = sort_hashes-Permᴰ p ∙ sort_hashes-Permᴰ q

    -- Two lists of the same transactions, in whatever order, have the same Merkle root, if every copy of
    -- a transaction finds the same number in the place of the nonce, which is not copied.
    pub set_items-Permᴰ :
        (items items' : List Transaction)
        → Permᴰ items items'
        → (set_items prims stale items).1 ≡ (set_items prims stale items').1
    unfolding set_items
    set_items-Permᴰ items items' p = ap (root_of prims) (
        hashes_of-sort_items items
        ∙ (map-sort_items items
            ∙ (sort_hashes-Permᴰ p
                ∙ (sym (map-sort_items items') ∙ sym (hashes_of-sort_items items')))))

module _ {κ} (prims : Primitives) (stale : Transaction → ℕ) (P : Transaction → Type κ)
    (copied : (t : Transaction) → P t → P (copy stale t)) where
  insert_item-All :
      (t : Transaction) (items : List Transaction)
      → P t
      → All P items
      → All P (insert_item prims t items)
  unfolding insert_item
  insert_item-All t [] h hs = (h, tt)
  insert_item-All t (x ∷ items) h hs =
      elim (Bool-cases (ltb (get_hash prims t) (get_hash prims x))) [
        | inl e ↦ rw e (hs.0, insert_item-All t items h hs.1)
        | inr e ↦ rw e (h, hs)
      ]

  sort_items-All : (items : List Transaction) → All P items → All P (sort_items prims stale items)
  unfolding sort_items
  sort_items-All [] hs = tt
  sort_items-All (t ∷ items) hs =
      insert_item-All (copy stale t) (sort_items prims stale items) (copied t hs.0)
        (sort_items-All items hs.1)

  -- What holds of every transaction, and of copies, holds of those that setItems has sorted.
  pub set_items-All :
      (items : List Transaction) → All P items → All P (set_items prims stale items).0
  unfolding set_items
  set_items-All items hs = sort_items-All items hs
