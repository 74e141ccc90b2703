-- ===== src/Difficulty.antt =====
-- computeDifficulty of server/blockchain.cpp. Products and quotients by the powers of two `k` are
-- those of unbounded integers: k overflows an int only after 31 doublings, which the loops reach
-- only for an elapsed time of 0, and then multiply 0.
pub mod Bounds
mod Tests
use pandanite_node.Common.{ℕ, zero, suc, ◌+◌, ◌-◌, ◌*◌, ◌/◌, Bool, ltb, leb, if◌then◌else◌}
use pandanite_node.Common.Int.{ℤ, pos, negsuc}

-- MIN_DIFFICULTY
abbrev pub min_difficulty : ℕ
min_difficulty = 6

-- abs(a - b)
abbrev pub distance : ℕ → ℕ → ℕ
distance a b = (a - b) + (b - a)

-- abs(elapsed * k - expected)
unfoldable pub distance_times : ℤ → ℕ → ℕ → ℕ
distance_times (pos e) k expected = distance (e * k) expected
distance_times (negsuc e) k expected = suc e * k + expected

-- The loop of a slow chain, `while (newDifficulty > MIN_DIFFICULTY)`.
unfoldable pub ease : ℕ → ℕ → ℕ → ℕ → ℕ → ℕ
ease zero elapsed expected k last_k = zero
ease (suc d) elapsed expected k last_k =
    let rest = ease d elapsed expected (k * 2) k in
    if leb (suc d) min_difficulty
    then suc d
    else if ltb (distance (elapsed / last_k) expected) (distance (elapsed / k) expected)
    then suc d
    else rest

-- The loop of a fast chain, `while (newDifficulty < 254)`, which has `room` rounds left.
unfoldable pub harden : ℕ → ℕ → ℤ → ℕ → ℕ → ℕ → ℕ
harden zero d elapsed expected k last_k = d
harden (suc room) d elapsed expected k last_k =
    let rest = harden room (d + 1) elapsed expected (k * 2) k in
    if ltb (distance_times elapsed last_k expected) (distance_times elapsed k expected)
    then d
    else rest

-- A time that is negative, or not above the expected one, is no slow chain's.
unfoldable pub compute_difficulty : ℕ → ℤ → ℕ → ℕ
unfolding ease harden distance_times
compute_difficulty current (pos e) expected =
    if ltb expected e
    then ease current e expected 2 1
    else harden (254 - current) current (pos e) expected 2 1
compute_difficulty current (negsuc e) expected =
    harden (254 - current) current (negsuc e) expected 2 1
