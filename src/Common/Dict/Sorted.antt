-- ===== src/Common/Dict/Sorted.antt =====
-- The keys of a dictionary ascend, so each stands in one entry.
use Prim.Native.Nat.{ℕ, ◌+◌, ◌<◌}
use mathlib.Core.Path.{◌≡◌, refl}
use mathlib.Core.List.{[], ◌∷◌}
use mathlib.Core.Option.{none}
use native.Mathlib.Omega.{arith}
use package.pandanite_node.Common.Dict.{Dict, lookup, insert, value_at}

module _ {ℓ} {V : Type ℓ} where
  abbrev pub Above : ℕ → Dict V → Type 0
  Above k [] = Unit
  Above k ((j, v) ∷ d) = (k < j) × Above k d

  abbrev pub IsSorted : Dict V → Type 0
  IsSorted [] = Unit
  IsSorted ((k, v) ∷ d) = Above k d × IsSorted d

  lt-Above : (j k : ℕ) (d : Dict V) → j < k → Above k d → Above j d
  lt-Above j k [] h a = tt
  lt-Above j k ((i, v) ∷ d) h a = (omega arith, lt-Above j k d h a.1)

  insert-Above : (j k : ℕ) (v : V) (d : Dict V) → j < k → Above j d → Above j (insert k v d)
  unfolding insert
  insert-Above j k v [] h a = (h, tt)
  insert-Above j k v ((i, w) ∷ d) h a = ground (arith, insert-Above j k v d h a.1)

  pub insert-IsSorted : (k : ℕ) (v : V) (d : Dict V) → IsSorted d → IsSorted (insert k v d)
  unfolding insert
  insert-IsSorted k v [] s = (tt, tt)
  insert-IsSorted k v ((j, w) ∷ d) s =
      ground (arith, insert-IsSorted k v d s.1, insert-Above j k v d, lt-Above k j d)

  pub lookup-Above : (k : ℕ) (d : Dict V) → Above k d → lookup k d ≡ none
  unfolding lookup
  lookup-Above k [] a = refl
  lookup-Above k ((j, v) ∷ d) a = ground (arith, lookup-Above k d a.1)

lookup_below : (k j : ℕ) (d : Dict ℕ) → k < j → Above j d → lookup k d ≡ none
lookup_below k j d h a = lookup-Above k d (lt-Above k j d h a)

-- The sum of all values.
unfoldable pub sum : Dict ℕ → ℕ
sum [] = 0
sum ((k, v) ∷ d) = v + sum d

pub sum-insert : (k v : ℕ) (d : Dict ℕ) → IsSorted d → sum (insert k v d) + value_at k d ≡ sum d + v
unfolding sum insert value_at
sum-insert k v [] s = omega arith
sum-insert k v ((j, w) ∷ d) s =
    ground (arith, sum-insert k v d s.1, lookup-Above j d s.0, lookup_below k j d)
