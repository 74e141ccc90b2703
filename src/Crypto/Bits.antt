-- ===== src/Crypto/Bits.antt =====
-- checkLeadingZeroBits of core/crypto.cpp.
use pandanite_node.Common.{
  ℕ, zero, suc, ◌-◌, ◌*◌, ◌/◌, ◌^◌, List, [], ◌∷◌, Bool, true, false, ◌==◌, ltb, if◌then◌else◌,
}

-- `for (int i = 0; i < bytes; i++) if (a[i] != 0) return false;`, then the bits that remain of
-- the byte behind them. The array has 32 bytes and a challenge at most 255 bits, so the loop
-- stays inside it; past the end the model answers false.
unfoldable pub leading_bytes : ℕ → ℕ → List ℕ → Bool
leading_bytes zero remaining_bits [] = if ltb 0 remaining_bits then false else true
leading_bytes zero remaining_bits (a ∷ hash) =
    if ltb 0 remaining_bits then (a / 2 ^ (8 - remaining_bits)) == 0 else true
leading_bytes (suc bytes) remaining_bits [] = false
leading_bytes (suc bytes) remaining_bits (a ∷ hash) =
    if a == 0 then leading_bytes bytes remaining_bits hash else false

unfoldable pub check_leading_zero_bits : List ℕ → ℕ → Bool
unfolding leading_bytes
check_leading_zero_bits hash challenge_size =
    let bytes = challenge_size / 8 in leading_bytes bytes (challenge_size - 8 * bytes) hash
