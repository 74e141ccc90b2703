-- ===== src/HostManager/Clock.antt =====
-- core/host_manager.cpp: the time of the network, the median of what the clocks of the hosts say that
-- pinged recently.
pub mod Median
use pandanite_node.Common.{
  ℕ, zero, suc, ◌+◌, ◌-◌, ◌/◌, ◌%◌, ◌≤◌, ◌<◌, ◌≡◌, List, [], ◌∷◌, Bool, true, false, ◌==◌, Option,
  none, some, if◌then◌else◌, length, get_elem?, All, u64, arith, refl,
}
use pandanite_node.Common.Int.{ℤ, pos, negsuc, ◌+ℤ◌, ltb_ℤ, sub_ℕ, pos_part, neg_part}
use pandanite_node.Common.Dict.{Dict, lookup}
use pandanite_node.HostManager.{HostManager, is_fresh}

-- Sorting a vector of int32_t, the smallest first.
unfoldable pub insert_delta : ℤ → List ℤ → List ℤ
insert_delta d [] = d ∷ []
insert_delta d (x ∷ deltas) = if ltb_ℤ x d then x ∷ insert_delta d deltas else d ∷ x ∷ deltas

unfoldable pub sort_deltas : List ℤ → List ℤ
unfolding insert_delta
sort_deltas [] = []
sort_deltas (d ∷ deltas) = insert_delta d (sort_deltas deltas)

unfoldable pub delta_at : ℕ → List ℤ → ℤ
delta_at i deltas = elim (get_elem? deltas i) [ none ↦ pos 0 | some d ↦ d ]

-- Half of an int32_t, towards zero.
unfoldable pub half : ℤ → ℤ
half (pos n) = pos (n / 2)
half (negsuc n) = sub_ℕ 0 (suc n / 2)

-- The median of the sorted deltas; the sum of two is read as one that does not overflow.
unfoldable pub median_delta : List ℤ → ℤ
unfolding delta_at half ◌+ℤ◌
median_delta deltas =
    let n = length deltas in
    if (n % 2) == 0
    then half (delta_at (n / 2) deltas +ℤ delta_at (n / 2 - 1) deltas)
    else delta_at (n / 2) deltas

-- A time_t, and a delta added to it as a uint64_t.
unfoldable pub shift : ℕ → ℤ → ℕ
shift now (pos n) = (now + n) % u64
shift now (negsuc n) = (now + u64 - suc n) % u64

-- The deltas of the hosts that pinged recently.
unfoldable pub fresh_deltas : ℕ → Dict ℤ → Dict ℕ → List ℤ
unfolding lookup is_fresh
fresh_deltas now deltas [] = []
fresh_deltas now deltas ((host, time) ∷ times) =
    let rest = fresh_deltas now deltas times in
    if is_fresh now time
    then elim (lookup host deltas) [ none ↦ rest | some d ↦ d ∷ rest ]
    else rest

module _ {W : Type 0} where
  unfoldable pub get_network_timestamp : ℕ → HostManager W → ℕ
  unfolding fresh_deltas sort_deltas median_delta shift
  get_network_timestamp now m =
      let deltas = fresh_deltas now m.peer_clock_deltas m.host_ping_times in
      if length deltas == 0 then now else shift now (median_delta (sort_deltas deltas))
