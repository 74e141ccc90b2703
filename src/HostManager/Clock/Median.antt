-- ===== src/HostManager/Clock/Median.antt =====
-- The delta by which the time of the network is off: in the middle of those of the hosts.
use pandanite_node.Common.{
  ℕ, ◌+◌, ◌-◌, ◌/◌, ◌%◌, ◌≤◌, ◌<◌, ◌≡◌, List, [], ◌∷◌, false, if◌then◌else◌, length, All,
}
use pandanite_node.Common.Int.{ℤ, ◌+ℤ◌, ltb_ℤ}
use pandanite_node.HostManager.{HostManager}
use pandanite_node.HostManager.Clock.{half}

-- How many deltas are below one, and above.
pub below : ℤ → List ℤ → ℕ
below d [] = 0
below d (x ∷ deltas) = (if ltb_ℤ x d then 1 else 0) + below d deltas

pub above : ℤ → List ℤ → ℕ
above d [] = 0
above d (x ∷ deltas) = (if ltb_ℤ d x then 1 else 0) + above d deltas

-- There are at most so many deltas below one, and fewer than the others above it.
pub record HasRank (i : ℕ) (d : ℤ) (deltas : List ℤ) : Type 0 where
  pub few_below : below d deltas ≤ i
  pub few_above : above d deltas + i < length deltas

-- None of the deltas is below `d`.
abbrev AtLeast : ℤ → List ℤ → Type 0
AtLeast d = All (λ y. ltb_ℤ y d ≡ false)

AreSorted : List ℤ → Type 0
AreSorted [] = Unit
AreSorted (x ∷ deltas) = AtLeast x deltas × AreSorted deltas

-- The delta in the middle, or half the sum of the two in the middle.
pub data IsMedian (deltas : List ℤ) : ℤ → Type 0 where
  middle :
      (d : ℤ) → length deltas % 2 ≡ 1 → HasRank (length deltas / 2) d deltas → IsMedian deltas d
  between :
      (a b : ℤ)
      → length deltas % 2 ≡ 0
      → HasRank (length deltas / 2) a deltas
      → HasRank (length deltas / 2 - 1) b deltas
      → IsMedian deltas (half (a +ℤ b))
