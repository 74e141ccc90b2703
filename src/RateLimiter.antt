-- ===== src/RateLimiter.antt =====
-- server/rate_limiter.cpp: from each address the limiter keeps the time at which the next request
-- may come. An address is a number (it is only compared); times of the steady clock are
-- nanoseconds, as signed integers; `rand` gives the values of std::rand in turn.
pub mod Rate
mod Tests
use pandanite_node.Common.{
  ℕ, ◌+◌, ◌*◌, ◌/◌, ◌%◌, Bool, true, false, none, some, List, [], ◌∷◌, ltb, ◌==◌, length,
  if◌then◌else◌,
}
use pandanite_node.Common.Dict.{Dict, lookup, insert}
use pandanite_node.Common.Int.{ℤ, pos, ◌+ℤ◌, ◌-ℤ◌, ltb_ℤ, max_ℤ}

-- A duration of whole seconds in the clock's unit.
abbrev pub in_nanoseconds : ℕ → ℕ
in_nanoseconds s = s * 1_000_000_000

-- `if (std::rand() % 2 == 0) erase`, over the entries in order
pub discard_half : (ℕ → ℕ) → ℕ → Dict ℤ → Dict ℤ
discard_half rand i [] = []
discard_half rand i (e ∷ c) =
    let rest = discard_half rand (i + 1) c in if (rand i % 2) == 0 then rest else e ∷ rest

-- `n` requests in `seconds`.
module _ (n seconds : ℕ) (rand : ℕ → ℕ) where
  -- `std::chrono::seconds(seconds) / N`, a number of whole seconds
  abbrev pub add : ℕ
  add = in_nanoseconds (seconds / n)

  -- The address has no entry.
  limit_new : ℕ → ℤ → Dict ℤ → Bool × Dict ℤ
  unfolding discard_half
  limit_new s now c =
      let c' = insert s (now -ℤ pos (in_nanoseconds seconds) +ℤ pos add) c in
      (true, if ltb 100000 (length c') then discard_half rand 0 c' else c')

  limit_known : ℕ → ℤ → Dict ℤ → ℤ → Bool × Dict ℤ
  limit_known s now c next =
      if ltb_ℤ now next
      then (false, c)
      else (true, insert s (max_ℤ (now -ℤ pos (in_nanoseconds seconds)) next +ℤ pos add) c)

  pub limit : ℕ → ℤ → Dict ℤ → Bool × Dict ℤ
  unfolding limit_new limit_known
  limit s now c = elim (lookup s c) [
    | none ↦ limit_new s now c
    | some next ↦ limit_known s now c next
  ]

  -- How many of the requests that one address makes at these times are accepted.
  pub accepted : ℕ → List ℤ → Dict ℤ → ℕ
  accepted s [] c = 0
  accepted s (now ∷ times) c =
      let (b, c') = limit s now c in (if b then 1 else 0) + accepted s times c'
