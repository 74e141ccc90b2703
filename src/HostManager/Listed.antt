-- ===== src/HostManager/Listed.antt =====
-- core/host_manager.cpp: which hosts come onto the list of hosts.
use pandanite_node.Common.{
  ℕ, List, [], ◌∷◌, ◌++◌, Bool, true, false, ◌||◌, ◌==◌, length, ◌≡◌, All, refl, arith,
}
use pandanite_node.HeaderChain.{Work}
use pandanite_node.HostManager.{HostManager, is_in, add_peer}

-- No element stands twice in the list.
abbrev pub Distinct : List ℕ → Type 0
Distinct [] = Unit
Distinct (x ∷ xs) = (is_in x xs ≡ false) × Distinct xs

pub is_in-append : (x : ℕ) (xs : List ℕ) (y : ℕ) → is_in x (xs ++ y ∷ []) ≡ (is_in x xs || y == x)
unfolding is_in
is_in-append x [] y = ground arith
is_in-append x (z ∷ xs) y = ground (arith, is_in-append x xs y)

Distinct-append : (xs : List ℕ) (y : ℕ) → Distinct xs → is_in y xs ≡ false → Distinct (xs ++ y ∷ [])
unfolding is_in
Distinct-append [] y d new = (refl, tt)
Distinct-append (x ∷ xs) y d new =
    let apart : is_in x (xs ++ y ∷ []) ≡ false = ground (arith, d.0, is_in-append x xs y) in
    let rest : is_in y xs ≡ false = ground arith in (apart, Distinct-append xs y d.1 rest)

-- A host that is not blocked, and is allowed where there is a whitelist.
abbrev pub IsAllowed : List ℕ → List ℕ → ℕ → Type 0
IsAllowed blacklist whitelist host =
    (is_in host blacklist ≡ false) × ((length whitelist == 0 || is_in host whitelist) ≡ true)

module _ (blacklist whitelist : List ℕ) where
  All-append :
      (xs : List ℕ) (y : ℕ)
      → All (IsAllowed blacklist whitelist) xs
      → IsAllowed blacklist whitelist y
      → All (IsAllowed blacklist whitelist) (xs ++ y ∷ [])
  All-append [] y hs h = (h, tt)
  All-append (x ∷ xs) y hs h = (hs.0, All-append xs y hs.1 h)

  -- A list of hosts with none twice, and allowed ones only.
  pub record AreListed (hosts : List ℕ) : Type 0 where
    pub distinct : Distinct hosts
    pub allowed : All (IsAllowed blacklist whitelist) hosts

  pub AreListed-append :
      (hosts : List ℕ) (host : ℕ)
      → AreListed hosts
      → is_in host hosts ≡ false
      → IsAllowed blacklist whitelist host
      → AreListed (hosts ++ host ∷ [])
  AreListed-append hosts host h new ok = record {
    distinct = Distinct-append hosts host h.distinct new;
    allowed = All-append hosts host h.allowed ok;
  }

module _ {W : Type 0} where
  abbrev pub Listed : HostManager W → Type 0
  Listed m = AreListed m.blacklist m.whitelist m.hosts

  -- A peer that announces itself leaves the list of hosts in order: none stands on it twice, none is
  -- blocked, and where there is a whitelist all are on it.
  pub add_peer-Listed :
      (characters : ℕ → List ℕ) (work : Work W) (reachable : ℕ → Bool)
      (now addr time version network : ℕ) (m : HostManager W)
      → Listed m
      → Listed (add_peer characters work reachable now addr time version network m)
  unfolding add_peer
  add_peer-Listed characters work reachable now addr time version network m h =
      ground (arith, AreListed-append m.blacklist m.whitelist m.hosts addr h)
