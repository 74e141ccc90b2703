-- ===== src/HostManager.antt =====
-- core/host_manager.cpp: the hosts that a node knows, and the header chains of its peers. A text is a
-- number that stands for it, in the order of texts, and `characters` gives its characters. The clock
-- and what hosts answer enter as arguments; a list of hosts is complete when its threads have ended.
pub mod Listed
pub mod Refreshing
pub mod Peers
pub mod Clock
mod Tests
use pandanite_node.Common.{
  ℕ, zero, suc, ◌+◌, ◌-◌, ◌*◌, ◌/◌, ◌%◌, List, [], ◌∷◌, ◌++◌, Bool, true, false, not, ◌&&◌, ◌||◌,
  ◌==◌, ltb, Option, none, some, if◌then◌else◌, length, take, map, get_elem?, u64,
}
use pandanite_node.Common.Int.{ℤ, pos, negsuc, ◌+ℤ◌, ltb_ℤ, sub_ℕ}
use pandanite_node.Common.Dict.{Dict, lookup, insert}
use pandanite_node.HeaderChain.{HeaderChain, Work, get_hash, get_chain_length}
use pandanite_node.HeaderChain
use pandanite_node.Blockchain.{to_int32}

-- A header chain with its host.
pub record Peer (W : Type 0) : Type 0 where
  pub host : ℕ
  pub chain : HeaderChain W

pub record HostManager (W : Type 0) : Type 0 where
  pub curr_peers : List (Peer W)
  pub address : ℕ
  pub min_host_version : ℕ
  pub network_name : ℕ
  pub host_ping_times : Dict ℕ
  pub peer_clock_deltas : Dict ℤ
  pub checkpoints : Dict ℕ
  pub banned_hashes : Dict ℕ
  pub hosts : List ℕ
  pub blacklist : List ℕ
  pub whitelist : List ℕ

-- ADD_PEER_BRANCH_FACTOR is only the number of hosts that are told; RANDOM_GOOD_HOST_COUNT and
-- HOST_MIN_FRESHNESS are these.
abbrev pub random_good_host_count : ℕ
random_good_host_count = 9

abbrev pub host_min_freshness : ℕ
host_min_freshness = 180 * 60

-- std::find and set::find.
unfoldable pub is_in : ℕ → List ℕ → Bool
is_in x [] = false
is_in x (y ∷ xs) = y == x || is_in x xs

-- The age is a uint64_t.
unfoldable pub is_fresh : ℕ → ℕ → Bool
is_fresh now time = ltb ((now + u64 - time) % u64) host_min_freshness

is_prefix : List ℕ → List ℕ → Bool
is_prefix [] text = true
is_prefix (x ∷ xs) [] = false
is_prefix (x ∷ xs) (y ∷ text) = x == y && is_prefix xs text

unfoldable pub is_found : List ℕ → List ℕ → Bool
unfolding is_prefix
is_found sought [] = is_prefix sought []
is_found sought (y ∷ text) = is_prefix sought (y ∷ text) || is_found sought text

-- "peer://"
unfoldable pub is_js_host : (ℕ → List ℕ) → ℕ → Bool
unfolding is_found
is_js_host characters addr = is_found (112 ∷ 101 ∷ 101 ∷ 114 ∷ 58 ∷ 47 ∷ 47 ∷ []) (characters addr)

-- Sorting hosts by the height of their blocks, the greatest first.
unfoldable pub insert_height : ℕ × ℤ → List (ℕ × ℤ) → List (ℕ × ℤ)
insert_height h [] = h ∷ []
insert_height h (x ∷ heights) =
    if ltb_ℤ h.1 x.1 then x ∷ insert_height h heights else h ∷ x ∷ heights

unfoldable pub sort_heights : List (ℕ × ℤ) → List (ℕ × ℤ)
unfolding insert_height
sort_heights [] = []
sort_heights (h ∷ heights) = insert_height h (sort_heights heights)

-- The hosts that pinged recently.
unfoldable pub fresh_hosts : ℕ → Dict ℕ → List ℕ
unfolding is_fresh
fresh_hosts now [] = []
fresh_hosts now ((host, time) ∷ times) =
    let rest = fresh_hosts now times in if is_fresh now time then host ∷ rest else rest

-- -1, which getBlockHeightFromPeer answers where the request fails; it throws where the answer is not a
-- number, and such hosts are left out.
unfoldable pub is_unknown : ℤ → Bool
is_unknown (pos n) = false
is_unknown (negsuc n) = n == 0

unfoldable pub known_heights : (ℕ → Bool) → (ℕ → ℤ) → List ℕ → List (ℕ × ℤ)
unfolding is_unknown
known_heights is_js height [] = []
known_heights is_js height (host ∷ hosts) =
    let rest = known_heights is_js height hosts in
    if is_js host || is_unknown (height host) then rest else (host, height host) ∷ rest

-- An element of a set, which is ordered.
unfoldable pub insert_host : ℕ → List ℕ → List ℕ
insert_host h [] = h ∷ []
insert_host h (x ∷ hosts) =
    if h == x then x ∷ hosts else if ltb h x then h ∷ x ∷ hosts else x ∷ insert_host h hosts

unfoldable pub to_set : List ℕ → List ℕ
unfolding insert_host
to_set [] = []
to_set (h ∷ hosts) = insert_host h (to_set hosts)

module _ {W : Type 0} where
  -- A header chain begins empty.
  abbrev pub new_peer : Work W → HostManager W → ℕ → Peer W
  new_peer work m host = record {
    host = host;
    chain = record {
      failed = false;
      total_work = work.zero_work;
      chain_length = 0;
      block_hashes = [];
      check_points = m.checkpoints;
      banned_hashes = m.banned_hashes;
    };
  }

  -- `height` throws for a host whose answer is not a number: `none`.
  unfoldable pub heights_of : (ℕ → Option ℤ) → List (Peer W) → List (ℕ × ℤ)
  heights_of height [] = []
  heights_of height (p ∷ peers) =
      let rest = heights_of height peers in
      elim (height p.host) [ none ↦ rest | some h ↦ (p.host, h) ∷ rest ]

  -- The empty text is `none`.
  unfoldable pub get_good_host : (ℕ → Option ℤ) → HostManager W → Option ℕ
  unfolding heights_of sort_heights
  get_good_host height m = elim (sort_heights (heights_of height m.curr_peers)) [
    | [] ↦ none
    | h ∷ heights ↦ some h.0
  ]

  -- The loops of getBlockCount and getTotalWork, from the best so far on.
  unfoldable pub best_peer : Work W → (W → W → Bool) → List (Peer W) → ℕ × W → ℕ × W
  unfolding HeaderChain.get_total_work get_chain_length
  best_peer work gt [] best = best
  best_peer work gt (p ∷ peers) best =
      let w = HeaderChain.get_total_work work p.chain in
      best_peer work gt peers (if gt w best.1 then (get_chain_length work p.chain, w) else best)

  unfoldable pub get_block_count : Work W → (W → W → Bool) → HostManager W → ℕ
  unfolding best_peer
  get_block_count work gt m = (best_peer work gt m.curr_peers (0, work.zero_work)).0

  unfoldable pub get_total_work : Work W → (W → W → Bool) → HostManager W → W
  unfolding best_peer
  get_total_work work gt m = (best_peer work gt m.curr_peers (0, work.zero_work)).1

  -- NULL_SHA256_HASH of a host that is no peer; the read before a vector's begin is `none`.
  unfoldable pub hash_of_peer : ℕ → ℕ → List (Peer W) → Option ℕ
  unfolding get_hash
  hash_of_peer host block_id [] = some 0
  hash_of_peer host block_id (p ∷ peers) =
      let rest = hash_of_peer host block_id peers in
      if p.host == host then get_hash p.chain block_id else rest

  unfoldable pub get_block_hash : ℕ → ℕ → HostManager W → Option ℕ
  unfolding hash_of_peer
  get_block_hash host block_id m = hash_of_peer host block_id m.curr_peers

  unfoldable pub get_hosts : ℕ → Bool → HostManager W → List ℕ
  unfolding fresh_hosts
  get_hosts now include_self m =
      let hosts = fresh_hosts now m.host_ping_times in
      if include_self then hosts ++ m.address ∷ [] else hosts

  module _ (characters : ℕ → List ℕ) where
    -- `reachable` tells whether getName returns.
    unfoldable pub add_peer :
        Work W → (ℕ → Bool) → ℕ → ℕ → ℕ → ℕ → ℕ → HostManager W → HostManager W
    unfolding is_in is_js_host insert to_int32
    add_peer work reachable now addr time version network m =
        if not (network == m.network_name)
        then m
        else if ltb version m.min_host_version
        then m
        else if is_in addr m.blacklist
        then m
        else if is_in addr m.hosts
        then record m {
          host_ping_times = insert addr now m.host_ping_times;
          peer_clock_deltas = insert addr (to_int32 ((now + u64 - time) % u64)) m.peer_clock_deltas;
        }
        else if not (is_js_host characters addr) && not (reachable addr)
        then m
        else if not (length m.whitelist == 0) && not (is_in addr m.whitelist)
        then m
        else record m {
          hosts = m.hosts ++ addr ∷ [];
          curr_peers =
              if ltb (length m.curr_peers) random_good_host_count
              then m.curr_peers ++ new_peer work m addr ∷ []
              else m.curr_peers;
        }

    module _ (height : ℕ → ℤ) where
      unfoldable pub sample_fresh_hosts : ℕ → ℕ → HostManager W → List ℕ
      unfolding fresh_hosts known_heights sort_heights to_set is_js_host
      sample_fresh_hosts now count m =
          let hosts =
            known_heights (is_js_host characters) height (fresh_hosts now m.host_ping_times) in
          to_set (map (λ h. h.0) (take count (sort_heights hosts)))

      unfoldable pub sync_headers_with_peers : Work W → ℕ → HostManager W → HostManager W
      unfolding sample_fresh_hosts
      sync_headers_with_peers work now m = elim m.curr_peers [
        | [] ↦ m
        | p ∷ peers ↦ record m {
          curr_peers = map (new_peer work m) (sample_fresh_hosts now random_good_host_count m);
        }
      ]

  -- The threads of refreshHostList for the listed hosts, in the order in which they end; `version` is
  -- what a host names, `none` where it cannot be reached.
  unfoldable pub connect : (ℕ → Option ℕ) → ℕ → List ℕ → HostManager W → HostManager W
  unfolding is_in insert
  connect version now [] m = m
  connect version now (host ∷ listed) m =
      let added = record m {
        hosts = m.hosts ++ host ∷ [];
        host_ping_times = insert host now m.host_ping_times;
      } in
      connect version now listed (elim (version host) [
        | none ↦ m
        | some v ↦
            if ltb v m.min_host_version
            then m
            else if length m.whitelist == 0 || is_in host m.whitelist
            then added
            else m
      ])

  -- The hosts that are neither known nor blocked.
  unfoldable pub unknown_hosts : HostManager W → List ℕ → List ℕ
  unfolding is_in
  unknown_hosts m [] = []
  unknown_hosts m (host ∷ listed) =
      let rest = unknown_hosts m listed in
      if is_in host m.hosts || is_in host m.blacklist then rest else host ∷ rest

  -- `listed` are the hosts that the sources list, of which refreshHostList makes a set.
  unfoldable pub refresh_host_list : (ℕ → Option ℕ) → ℕ → List ℕ → HostManager W → HostManager W
  unfolding connect unknown_hosts to_set
  refresh_host_list version now listed m = connect version now (unknown_hosts m (to_set listed)) m

  unfoldable pub size : HostManager W → ℕ
  size m = length m.hosts
