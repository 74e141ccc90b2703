-- ===== src/Difficulty/Bounds.antt =====
-- Where computeDifficulty leads.
use pandanite_node.Common.{ℕ, zero, suc, ◌+◌, ◌-◌, ◌*◌, ◌≤◌, ◌<◌, ◌≡◌, arith, refl}
use pandanite_node.Common.Int.{ℤ, pos, negsuc}
use pandanite_node.Difficulty.{ease, harden, compute_difficulty, min_difficulty, distance_times}

ease_bounds :
    (d elapsed expected k last_k : ℕ)
    → (ease d elapsed expected k last_k ≤ d)
      × (min_difficulty ≤ d → min_difficulty ≤ ease d elapsed expected k last_k)
unfolding ease
ease_bounds zero elapsed expected k last_k = (omega arith, λ h. h)
ease_bounds (suc d) elapsed expected k last_k =
    let ih = ease_bounds d elapsed expected (k * 2) k in ground (arith, ih)

harden_bounds :
    (room d : ℕ) (elapsed : ℤ) (expected k last_k : ℕ)
    → (d ≤ harden room d elapsed expected k last_k)
      × (harden room d elapsed expected k last_k ≤ d + room)
unfolding harden
harden_bounds zero d elapsed expected k last_k = (omega arith, omega arith)
harden_bounds (suc room) d elapsed expected k last_k =
    let ih = harden_bounds room (d + 1) elapsed expected (k * 2) k in ground (arith, ih)

-- From a difficulty between 6 and 254 the next one lies there too, whatever the time that the
-- blocks took.
pub compute_difficulty_bounds :
    (current : ℕ) (elapsed : ℤ) (expected : ℕ)
    → min_difficulty ≤ current
    → current ≤ 254
    → (min_difficulty ≤ compute_difficulty current elapsed expected)
      × (compute_difficulty current elapsed expected ≤ 254)
unfolding compute_difficulty
compute_difficulty_bounds current (pos e) expected lo hi =
    let slow = ease_bounds current e expected 2 1 in
    let fast = harden_bounds (254 - current) current (pos e) expected 2 1 in
    ground (arith, slow, fast)
compute_difficulty_bounds current (negsuc e) expected lo hi =
    let fast = harden_bounds (254 - current) current (negsuc e) expected 2 1 in ground (arith, fast)

-- Blocks that took longer than expected never raise the difficulty.
pub compute_difficulty-le :
    (current e expected : ℕ) → expected < e → compute_difficulty current (pos e) expected ≤ current
unfolding compute_difficulty
compute_difficulty-le current e expected h =
    let slow = ease_bounds current e expected 2 1 in ground (arith, slow)

-- Blocks that took no longer than expected never lower the difficulty.
pub le-compute_difficulty :
    (current e expected : ℕ) → e ≤ expected → current ≤ compute_difficulty current (pos e) expected
unfolding compute_difficulty
le-compute_difficulty current e expected h =
    let fast = harden_bounds (254 - current) current (pos e) expected 2 1 in ground (arith, fast)

harden_zero : (room d expected k last_k : ℕ) → harden room d (pos 0) expected k last_k ≡ d + room
unfolding harden distance_times
harden_zero zero d expected k last_k = omega arith
harden_zero (suc room) d expected k last_k =
    ground (arith, harden_zero room (d + 1) expected (k * 2) k)

-- Blocks that took no time at all, by their timestamps, raise any difficulty up to 254 to 254 in
-- one adjustment.
pub compute_difficulty_zero :
    (current expected : ℕ) → current ≤ 254 → compute_difficulty current (pos 0) expected ≡ 254
unfolding compute_difficulty
compute_difficulty_zero current expected h =
    ground (arith, harden_zero (254 - current) current expected 2 1)

-- A negative time, which timestamps that run backwards give, leaves every difficulty as it is.
pub compute_difficulty_negative :
    (current e expected : ℕ) → compute_difficulty current (negsuc e) expected ≡ current
unfolding compute_difficulty
compute_difficulty_negative current e expected = harden_negative (254 - current)
  where
    harden_negative : (room : ℕ) → harden room current (negsuc e) expected 2 1 ≡ current
    harden_negative zero = refl
    harden_negative (suc room) = ground arith
