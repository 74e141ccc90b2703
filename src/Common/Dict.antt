-- ===== src/Common/Dict.antt =====
-- An ordered dictionary keyed by numbers: std::map, and a key-value store whose reads and writes
-- succeed. Entries stand in the order of their keys, which is the order of iteration.
pub mod Sorted
use package.pandanite_node.Common.Tests.{ltb, ◌==◌, if◌then◌else◌}
use Prim.Native.Nat.{ℕ}
use mathlib.Core.Path.{◌≡◌, refl}
use mathlib.Core.Bool.{Bool, true, false}
use mathlib.Core.List.{List, [], ◌∷◌}
use mathlib.Core.Option.{Option, none, some}
use native.Mathlib.Omega.{arith}

abbrev pub Dict {ℓ} : Type ℓ → Type ℓ
Dict V = List (ℕ × V)

module _ {ℓ} {V : Type ℓ} where
  unfoldable pub lookup : ℕ → Dict V → Option V
  lookup k [] = none
  lookup k ((j, v) ∷ d) = if k == j then some v else lookup k d

  unfoldable pub insert : ℕ → V → Dict V → Dict V
  insert k v [] = (k, v) ∷ []
  insert k v ((j, w) ∷ d) =
      if k == j then (k, v) ∷ d else if ltb k j then (k, v) ∷ (j, w) ∷ d else (j, w) ∷ insert k v d

  unfoldable pub erase : ℕ → Dict V → Dict V
  erase k [] = []
  erase k ((j, w) ∷ d) = if k == j then erase k d else (j, w) ∷ erase k d

  pub lookup-insert :
      (j k : ℕ) (v : V) (d : Dict V)
      → lookup j (insert k v d) ≡ (if j == k then some v else lookup j d)
  unfolding lookup insert
  lookup-insert j k v [] = refl
  lookup-insert j k v ((i, w) ∷ d) = ground (arith, lookup-insert j k v d)

  pub lookup-erase :
      (j k : ℕ) (d : Dict V) → lookup j (erase k d) ≡ (if j == k then none else lookup j d)
  unfolding lookup erase
  lookup-erase j k [] = ground arith
  lookup-erase j k ((i, w) ∷ d) = ground (arith, lookup-erase j k d)

  unfoldable pub contains : ℕ → Dict V → Bool
  unfolding lookup
  contains k d = elim (lookup k d) [ none ↦ false | some _ ↦ true ]

-- `m[k]` read as a number: 0 where there is no entry, which is what operator[] puts there.
unfoldable pub value_at : ℕ → Dict ℕ → ℕ
unfolding lookup
value_at k d = elim (lookup k d) [ none ↦ 0 | some v ↦ v ]

pub value_at-insert :
    (j k v : ℕ) (d : Dict ℕ) → value_at j (insert k v d) ≡ (if j == k then v else value_at j d)
unfolding value_at
value_at-insert j k v d = ground (arith, lookup-insert j k v d)

pub value_at-erase :
    (j k : ℕ) (d : Dict ℕ) → value_at j (erase k d) ≡ (if j == k then 0 else value_at j d)
unfolding value_at
value_at-erase j k d = ground (arith, lookup-erase j k d)
