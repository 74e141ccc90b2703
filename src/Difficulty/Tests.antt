-- ===== src/Difficulty/Tests.antt =====
-- Adjustments of the difficulty, for an expected time of 9000 seconds.
use pandanite_node.Common.{◌≡◌, ◌≤◌, refl, arith}
use pandanite_node.Common.Int.{pos}
use pandanite_node.Difficulty.{compute_difficulty, min_difficulty, ease, harden, distance_times}
use pandanite_node.Difficulty.Bounds.{compute_difficulty_bounds}

-- Four times the expected time takes two bits off, a quarter of it adds two.
compute_difficulty_slow : compute_difficulty 20 (pos 36000) 9000 ≡ 18
unfolding compute_difficulty ease
compute_difficulty_slow = refl

compute_difficulty_fast : compute_difficulty 20 (pos 2250) 9000 ≡ 22
unfolding compute_difficulty harden distance_times
compute_difficulty_fast = refl

compute_difficulty_bounds_example :
    (min_difficulty ≤ compute_difficulty 20 (pos 36000) 9000)
    × (compute_difficulty 20 (pos 36000) 9000 ≤ 254)
compute_difficulty_bounds_example =
    compute_difficulty_bounds 20 (pos 36000) 9000 (ground arith) (ground arith)
