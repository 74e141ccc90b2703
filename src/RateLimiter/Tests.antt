-- ===== src/RateLimiter/Tests.antt =====
-- Requests of one address, with times in nanoseconds.
use pandanite_node.Common.{ℕ, ◌≡◌, refl, arith, [], ◌∷◌, length}
use pandanite_node.Common.Dict.{lookup}
use pandanite_node.Common.Int.{pos}
use pandanite_node.RateLimiter.{accepted}
use pandanite_node.RateLimiter.Rate.{accepted_all}

abbrev rand : ℕ → ℕ
rand i = i

-- The limiter of the request manager: 30 requests in five seconds.
accepted_all_example :
    accepted 30 5 rand 7 (pos 0 ∷ pos 1 ∷ pos 2 ∷ []) [] ≡ length (pos 0 ∷ pos 1 ∷ pos 2 ∷ [])
unfolding lookup
accepted_all_example =
    accepted_all 30 5 rand 7 (pos 0) (pos 1 ∷ pos 2 ∷ []) [] (ground arith) refl (ground arith)
      (ground arith)
