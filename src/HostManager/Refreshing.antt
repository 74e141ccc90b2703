-- ===== src/HostManager/Refreshing.antt =====
-- core/host_manager.cpp: refreshHostList, which adds hosts that the sources list.
use pandanite_node.Common.{
  ℕ, ◌<◌, List, [], ◌∷◌, ◌++◌, Bool, true, false, ◌||◌, ◌==◌, ltb, Option, none, some,
  if◌then◌else◌, length, ◌≡◌, All, refl, arith,
}
use pandanite_node.Common.Dict.{insert}
use pandanite_node.HostManager.{
  HostManager, is_in, connect, unknown_hosts, refresh_host_list, to_set, insert_host,
}
use pandanite_node.HostManager.Listed.{Distinct, AreListed-append, Listed, is_in-append}

-- A set's elements stand in their order.
Ascending : List ℕ → Type 0
Ascending [] = Unit
Ascending (x ∷ xs) = All (λ y. x < y) xs × Ascending xs

insert_host-All :
    (x h : ℕ) (hosts : List ℕ)
    → x < h
    → All (λ y. x < y) hosts
    → All (λ y. x < y) (insert_host h hosts)
unfolding insert_host
insert_host-All x h [] lt hs = (lt, tt)
insert_host-All x h (y ∷ hosts) lt hs = ground (arith, insert_host-All x h hosts lt hs.1)

All-lt : (x y : ℕ) (hosts : List ℕ) → x < y → All (λ z. y < z) hosts → All (λ z. x < z) hosts
All-lt x y [] lt hs = tt
All-lt x y (z ∷ hosts) lt hs = (omega (arith, hs.0), All-lt x y hosts lt hs.1)

insert_host-Ascending : (h : ℕ) (hosts : List ℕ) → Ascending hosts → Ascending (insert_host h hosts)
unfolding insert_host Ascending
insert_host-Ascending h [] a = (tt, tt)
insert_host-Ascending h (y ∷ hosts) a = ground (
  arith,
  a.0,
  a.1,
  insert_host-Ascending h hosts a.1,
  insert_host-All y h hosts,
  All-lt h y hosts,
)

to_set-Ascending : (hosts : List ℕ) → Ascending (to_set hosts)
unfolding to_set Ascending
to_set-Ascending [] = tt
to_set-Ascending (h ∷ hosts) = insert_host-Ascending h (to_set hosts) (to_set-Ascending hosts)

is_in-All : (x : ℕ) (hosts : List ℕ) → All (λ y. x < y) hosts → is_in x hosts ≡ false
unfolding is_in
is_in-All x [] hs = refl
is_in-All x (y ∷ hosts) hs = ground (arith, hs.0, is_in-All x hosts hs.1)

Ascending-Distinct : (hosts : List ℕ) → Ascending hosts → Distinct hosts
unfolding Ascending
Ascending-Distinct [] a = tt
Ascending-Distinct (x ∷ hosts) a = (is_in-All x hosts a.0, Ascending-Distinct hosts a.1)

-- The hosts of a list that are not in another one, nor blocked.
abbrev AreNew : List ℕ → List ℕ → List ℕ → Type 0
AreNew hosts blacklist = All (λ x. (is_in x hosts ≡ false) × (is_in x blacklist ≡ false))

AreNew-append :
    (hosts blacklist : List ℕ) (host : ℕ) (listed : List ℕ)
    → is_in host listed ≡ false
    → AreNew hosts blacklist listed
    → AreNew (hosts ++ host ∷ []) blacklist listed
unfolding is_in
AreNew-append hosts blacklist host [] out new = tt
AreNew-append hosts blacklist host (x ∷ listed) out new =
    let apart : is_in x (hosts ++ host ∷ []) ≡ false =
      ground (arith, new.0.0, is_in-append x hosts host) in
    let rest : is_in host listed ≡ false = ground arith in
    ((apart, new.0.1), AreNew-append hosts blacklist host listed rest new.1)

module _ {W : Type 0} where
  is_in-unknown_hosts :
      (m : HostManager W) (x : ℕ) (listed : List ℕ)
      → is_in x listed ≡ false
      → is_in x (unknown_hosts m listed) ≡ false
  unfolding is_in unknown_hosts
  is_in-unknown_hosts m x [] out = refl
  is_in-unknown_hosts m x (h ∷ listed) out =
      let rest : is_in x listed ≡ false = ground arith in
      ground (arith, is_in-unknown_hosts m x listed rest)

  unknown_hosts-Distinct :
      (m : HostManager W) (listed : List ℕ) → Distinct listed → Distinct (unknown_hosts m listed)
  unfolding unknown_hosts
  unknown_hosts-Distinct m [] d = tt
  unknown_hosts-Distinct m (h ∷ listed) d =
      ground (arith, is_in-unknown_hosts m h listed d.0, unknown_hosts-Distinct m listed d.1)

  unknown_hosts-AreNew :
      (m : HostManager W) (listed : List ℕ) → AreNew m.hosts m.blacklist (unknown_hosts m listed)
  unfolding unknown_hosts
  unknown_hosts-AreNew m [] = tt
  unknown_hosts-AreNew m (h ∷ listed) = ground (arith, unknown_hosts-AreNew m listed)

  -- The list is in order, and the hosts still to be connected are new.
  abbrev Ready : List ℕ → HostManager W → Type 0
  Ready listed m = Listed m × AreNew m.hosts m.blacklist listed

  -- The manager after a host has answered.
  choose :
      (listed : List ℕ) (m m' : HostManager W) (test : Bool)
      → Ready listed m
      → (test ≡ true → Ready listed m')
      → Ready listed (if test then m' else m)
  choose listed m m' true ready added = added refl
  choose listed m m' false ready added = ready

  after_host :
      (listed : List ℕ) (m m' : HostManager W) (answer : Option ℕ) (allowed : Bool)
      → Ready listed m
      → (allowed ≡ true → Ready listed m')
      → Ready listed (elim answer [
        | none ↦ m
        | some v ↦ if ltb v m.min_host_version then m else if allowed then m' else m
      ])
  after_host listed m m' none allowed ready added = ready
  after_host listed m m' (some v) allowed ready added =
      let chosen = choose listed m m' allowed ready added in
      choose listed (if allowed then m' else m) m (ltb v m.min_host_version) chosen (λ e. ready)

  connect-Listed :
      (version : ℕ → Option ℕ) (now : ℕ) (listed : List ℕ) (m : HostManager W)
      → Distinct listed
      → Ready listed m
      → Listed (connect version now listed m)
  unfolding connect
  connect-Listed version now [] m d ready = ready.0
  connect-Listed version now (host ∷ listed) m d ready =
      let added = record m {
        hosts = m.hosts ++ host ∷ [];
        host_ping_times = insert host now m.host_ping_times;
      } in
      connect-Listed version now listed _ d.1 (
        after_host listed m added (version host) (length m.whitelist == 0 || is_in host m.whitelist)
          (ready.0, ready.1.1)
          (λ allowed. (
            AreListed-append m.blacklist m.whitelist m.hosts host ready.0 ready.1.0.0
                (ready.1.0.1, allowed),
            AreNew-append m.hosts m.blacklist host listed d.0 ready.1.1,
          )))

  -- Refreshing leaves the list of hosts in order: none stands on it twice, none is blocked, and where
  -- there is a whitelist all are on it, whatever the sources list and the hosts answer.
  pub refresh_host_list-Listed :
      (version : ℕ → Option ℕ) (now : ℕ) (listed : List ℕ) (m : HostManager W)
      → Listed m
      → Listed (refresh_host_list version now listed m)
  unfolding refresh_host_list
  refresh_host_list-Listed version now listed m h =
      let unknown = to_set listed in
      connect-Listed version now (unknown_hosts m unknown) m
        (unknown_hosts-Distinct m unknown (Ascending-Distinct unknown (to_set-Ascending listed)))
        (h, unknown_hosts-AreNew m unknown)
