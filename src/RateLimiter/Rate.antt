-- ===== src/RateLimiter/Rate.antt =====
-- How many requests the limiter lets through.
use pandanite_node.Common.{
  ℕ, ◌+◌, ◌≤◌, ◌<◌, ◌≡◌, true, false, none, some, List, [], ◌∷◌, length, arith, refl,
}
use native.Mathlib.Nat.{div-eq_of_lt}
use pandanite_node.Common.Dict.{Dict, lookup, insert, lookup-insert}
use pandanite_node.Common.Int.{ℤ, pos, ◌+ℤ◌, ◌-ℤ◌, ltb_ℤ, max_ℤ, ◌≤ℤ◌, int_laws, max_ℤ-le}
use pandanite_node.RateLimiter.{add, limit, accepted, in_nanoseconds}

due_at : (a b : ℤ) → b ≤ℤ a → ltb_ℤ a b ≡ false
due_at a b h = ground arith

length-insert : (k : ℕ) (v : ℤ) (c : Dict ℤ) → length (insert k v c) ≤ length c + 1
unfolding insert
length-insert k v [] = omega arith
length-insert k v ((j, w) ∷ c) = ground (arith, length-insert k v c)

module _ (n seconds : ℕ) (rand : ℕ → ℕ) (s : ℕ) where
  -- Where an entry's next time is put by a request that is accepted.
  abbrev moved : ℤ → ℤ → ℤ
  moved now next = max_ℤ (now -ℤ pos (in_nanoseconds seconds)) next +ℤ pos (add n seconds rand)

  limit_early :
      (now next : ℤ) (c : Dict ℤ)
      → lookup s c ≡ some next
      → ltb_ℤ now next ≡ true
      → limit n seconds rand s now c ≡ (false, c)
  unfolding limit
  limit_early now next c e early = rw (e, limit) (rw early)

  limit_due :
      (now next : ℤ) (c : Dict ℤ)
      → lookup s c ≡ some next
      → ltb_ℤ now next ≡ false
      → limit n seconds rand s now c ≡ (true, insert s (moved now next) c)
  unfolding limit
  limit_due now next c e due = rw (e, limit) (rw due)

  lookup-moved : (v : ℤ) (c : Dict ℤ) → lookup s (insert s v c) ≡ some v
  lookup-moved v c = ground (arith, lookup-insert s s v c)

  -- The entry of an address that the limiter did not know.
  abbrev fresh : ℤ → ℤ
  fresh now = now -ℤ pos (in_nanoseconds seconds) +ℤ pos (add n seconds rand)

  limit_unknown :
      (now : ℤ) (c : Dict ℤ)
      → lookup s c ≡ none
      → length c < 100000
      → limit n seconds rand s now c ≡ (true, insert s (fresh now) c)
  unfolding limit
  limit_unknown now c e few = rw (e, limit) (ground (arith, length-insert s (fresh now) c))

  share_zero : seconds < n → add n seconds rand ≡ 0
  share_zero small = omega (arith, div-eq_of_lt small)

  -- The times from `first` on do not fall.
  abbrev pub Ascending : ℤ → List ℤ → Type 0
  Ascending first [] = Unit
  Ascending first (t ∷ times) = (first ≤ℤ t) × Ascending t times

  all_known :
      (now : ℤ) (times : List ℤ) (next : ℤ) (c : Dict ℤ)
      → seconds < n
      → Ascending now times
      → lookup s c ≡ some next
      → next ≤ℤ now
      → accepted n seconds rand s times c ≡ length times
  unfolding accepted
  all_known now [] next c small h e le = refl
  all_known now (t ∷ times) next c small h e le =
      rw (limit_due t next c e (due_at t next (omega (arith, h.0)))) (
        omega (
          arith,
          all_known t times (moved t next) (insert s (moved t next) c) small h.1
              (lookup-moved (moved t next) c)
              (omega (
                int_laws,
                h.0,
                share_zero small,
                max_ℤ-le (t -ℤ pos (in_nanoseconds seconds)) next t,
              )),
        ))

  -- Where the limiter is set up for more requests than seconds, the share of a request is rounded
  -- down to zero seconds, and all requests of an address that it does not know yet are accepted,
  -- whatever their number; the clock does not fall, and the limiter holds fewer than 100000
  -- addresses.
  pub accepted_all :
      (first : ℤ) (times : List ℤ) (c : Dict ℤ)
      → seconds < n
      → lookup s c ≡ none
      → length c < 100000
      → Ascending first times
      → accepted n seconds rand s (first ∷ times) c ≡ length (first ∷ times)
  unfolding accepted
  accepted_all first times c small e few h = rw (limit_unknown first c e few) (
      omega (
        arith,
        all_known first times (fresh first) (insert s (fresh first) c) small h
            (lookup-moved (fresh first) c) (omega (int_laws, share_zero small)),
      ))
