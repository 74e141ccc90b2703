-- ===== src/MerkleTree/Proofs.antt =====
-- What getMerkleProof returns of the tree of nodes.
use pandanite_node.Common.{
  ℕ, zero, suc, List, [], ◌∷◌, ◌++◌, Option, none, some, Bool, true, false, ◌||◌, ◌==◌,
  if◌then◌else◌, length, map, ◌≡◌, refl, ap, subst, ◌∙◌, arith, ◌≤◌, ◌<◌, last_or, length-append,
  length-map,
}
use mathlib.Core.Option
use pandanite_node.Crypto.{Primitives}
use pandanite_node.MerkleTree.{fringe}
use pandanite_node.MerkleTree.Tree.{
  HashTree, leaf, node, Frame, on_left, on_right, no_node, left_child, right_child, proof_node,
  get_proof, find, get_merkle_proof, join, combine_trees, build,
}

-- The tree that a pointer is in.
plug : HashTree → List Frame → HashTree
plug t [] = t
plug t (on_left h r ∷ parents) = plug (node h t r) parents
plug t (on_right h l ∷ parents) = plug (node h l t) parents

get_proof-plug :
    (h : ℕ) (l r : HashTree) (parents : List Frame)
    → (get_proof (node h l r) (left_child l) parents ≡ plug (node h l r) parents)
      × (get_proof (node h l r) (right_child r) parents ≡ plug (node h l r) parents)
unfolding get_proof proof_node plug
get_proof-plug h l r [] = (refl, refl)
get_proof-plug h l r (on_left x b ∷ parents) =
    let up = (get_proof-plug x (node h l r) b parents).0 in (up, up)
get_proof-plug h l r (on_right x a ∷ parents) =
    let up = (get_proof-plug x a (node h l r) parents).1 in (up, up)

get_proof-leaf :
    (t : HashTree) (parents : List Frame)
    → 0 < length parents
    → get_proof t no_node parents ≡ plug t parents
unfolding get_proof plug
get_proof-leaf t [] h = absurd (omega arith)
get_proof-leaf t (on_left x b ∷ parents) h = (get_proof-plug x t b parents).0
get_proof-leaf t (on_right x a ∷ parents) h = (get_proof-plug x a t parents).1

has_leaf : ℕ → HashTree → Bool
has_leaf h (leaf x) = x == h
has_leaf h (node x l r) = has_leaf h l || has_leaf h r

-- What `find` has found: no leaf, or the way from one to the root.
abbrev Found : ℕ → HashTree → List Frame → Option (List Frame) → Type 0
Found h t parents none = has_leaf h t ≡ false
Found h t parents (some path) =
    (has_leaf h t ≡ true) × ((plug (leaf h) path ≡ plug t parents) × (length parents ≤ length path))

find-node :
    (h x : ℕ) (l r : HashTree) (parents : List Frame) (a b : Option (List Frame))
    → Found h l (on_left x r ∷ parents) a
    → Found h r (on_right x l ∷ parents) b
    → Found h (node x l r) parents (elim a [ some found ↦ some found | none ↦ b ])
unfolding has_leaf plug
find-node h x l r parents (some path) b p q = ground (arith, p.0, p.1.0, p.1.1)
find-node h x l r parents none (some path) p q = ground (arith, p, q.0, q.1.0, q.1.1)
find-node h x l r parents none none p q = ground (arith, p, q)

find-leaf :
    (h x : ℕ) (parents : List Frame) (equal : Bool)
    → (x == h) ≡ equal
    → Found h (leaf x) parents (if equal then some parents else none)
unfolding has_leaf
find-leaf h x parents true e =
    let same : h ≡ x = ground arith in (e, (ap (λ y. plug (leaf y) parents) same, omega arith))
find-leaf h x parents false e = e

find-Found : (h : ℕ) (t : HashTree) (parents : List Frame) → Found h t parents (find h t parents)
unfolding find has_leaf plug
find-Found h (leaf x) parents = find-leaf h x parents (x == h) refl
find-Found h (node x l r) parents =
    find-node h x l r parents _ _ (find-Found h l (on_left x r ∷ parents))
      (find-Found h r (on_right x l ∷ parents))

-- A tree that is not a single leaf.
abbrev is_node : HashTree → Bool
is_node (leaf h) = false
is_node (node h l r) = true

get_proof-Found :
    (h : ℕ) (t : HashTree)
    → is_node t ≡ true
    → (found : Option (List Frame)) → Found h t [] found
    → Option.map (get_proof (leaf h) no_node) found ≡ (if has_leaf h t then some t else none)
unfolding plug
get_proof-Found h t branches none e = rw e refl
get_proof-Found h t branches (some []) e = absurd (cc (ap is_node e.1.0))
get_proof-Found h t branches (some (frame ∷ path)) e =
    rw (e.0, get_proof-leaf (leaf h) (frame ∷ path) (omega arith)) (ap some e.1.0)

abbrev pub contains : ℕ → List ℕ → Bool
contains h [] = false
contains h (x ∷ xs) = x == h || contains h xs

any_leaf : ℕ → List HashTree → Bool
any_leaf h [] = false
any_leaf h (t ∷ q) = has_leaf h t || any_leaf h q

any_leaf-append :
    (h : ℕ) (q : List HashTree) (t : HashTree)
    → any_leaf h (q ++ t ∷ []) ≡ (has_leaf h t || any_leaf h q)
unfolding any_leaf
any_leaf-append h [] t = refl
any_leaf-append h (a ∷ q) t = ground (arith, any_leaf-append h q t)

any_leaf-leaf : (h : ℕ) (hashes : List ℕ) → any_leaf h (map leaf hashes) ≡ contains h hashes
unfolding any_leaf has_leaf
any_leaf-leaf h [] = refl
any_leaf-leaf h (x ∷ hashes) = ground (arith, any_leaf-leaf h hashes)

contains-last_or :
    (h x : ℕ) (hashes : List ℕ)
    → contains h ((x ∷ hashes) ++ last_or 0 (x ∷ hashes) ∷ []) ≡ contains h (x ∷ hashes)
contains-last_or h x [] = ground arith
contains-last_or h x (y ∷ hashes) = ground (arith, contains-last_or h y hashes)

contains-fringe : (h : ℕ) (hashes : List ℕ) → contains h (fringe hashes) ≡ contains h hashes
unfolding fringe
contains-fringe h [] = refl
contains-fringe h (x ∷ hashes) = ground (arith, contains-last_or h x hashes)

length-fringe : (x : ℕ) (hashes : List ℕ) → 2 ≤ length (fringe (x ∷ hashes))
unfolding fringe
length-fringe x hashes = ground (arith, length-append hashes (last_or 0 (x ∷ hashes) ∷ []))

module _ (prims : Primitives) where
  -- What holds of the tree, if there is one.
  abbrev Built : (HashTree → Type 0) → Option HashTree → Type 0
  Built P none = Unit
  Built P (some t) = P t

  combine_trees-Built :
      (h fuel : ℕ) (q : List HashTree)
      → 2 ≤ length q
      → Built (λ t. (is_node t ≡ true) × (has_leaf h t ≡ any_leaf h q)) (combine_trees prims fuel q)
  unfolding combine_trees any_leaf has_leaf
  combine_trees-Built h fuel [] two = tt
  combine_trees-Built h fuel (a ∷ []) two = absurd (omega arith)
  combine_trees-Built h zero (a ∷ b ∷ q) two = tt
  combine_trees-Built h (suc fuel) (a ∷ b ∷ []) two = (refl, ground arith)
  combine_trees-Built h (suc fuel) (a ∷ b ∷ c ∷ q) two =
      let queue = c ∷ q ++ join prims a b ∷ [] in
      let leaves : any_leaf h queue ≡ any_leaf h (a ∷ b ∷ c ∷ q) =
        ground (arith, any_leaf-append h q (join prims a b)) in
      subst
        (λ some_leaf.
          Built (λ t. (is_node t ≡ true) × (has_leaf h t ≡ some_leaf))
            (combine_trees prims fuel queue))
        leaves
        (combine_trees-Built h fuel queue (omega (arith, length-append q (join prims a b ∷ []))))

  build-Built :
      (h x : ℕ) (hashes : List ℕ)
      → Built
          (λ t. (is_node t ≡ true) × (has_leaf h t ≡ contains h (x ∷ hashes)))
          (build prims (x ∷ hashes))
  unfolding build
  build-Built h x hashes =
      let q = map leaf (fringe (x ∷ hashes)) in
      subst
        (λ some_leaf.
          Built (λ t. (is_node t ≡ true) × (has_leaf h t ≡ some_leaf))
            (combine_trees prims (length q) q))
        (any_leaf-leaf h (fringe (x ∷ hashes)) ∙ contains-fringe h (x ∷ hashes))
        (combine_trees-Built h (length q) q
          (omega (arith, length-map leaf (fringe (x ∷ hashes)), length-fringe x hashes)))

  -- What the tree returns as the proof of a transaction that is in the block is the whole tree, the
  -- same for every transaction; for a hash that is not in the block there is none.
  pub get_merkle_proof-build :
      (h : ℕ) (hashes : List ℕ) (tree : HashTree)
      → build prims hashes ≡ some tree
      → get_merkle_proof h tree ≡ (if contains h hashes then some tree else none)
  unfolding get_merkle_proof build combine_trees fringe
  get_merkle_proof-build h [] tree e = absurd (cc e)
  get_merkle_proof-build h (x ∷ hashes) tree e =
      let facts : (is_node tree ≡ true) × (has_leaf h tree ≡ contains h (x ∷ hashes)) =
        subst (Built (λ t. (is_node t ≡ true) × (has_leaf h t ≡ contains h (x ∷ hashes)))) e
          (build-Built h x hashes) in
      subst (λ there. get_merkle_proof h tree ≡ (if there then some tree else none)) facts.1
        (get_proof-Found h tree facts.0 (find h tree []) (find-Found h tree []))
