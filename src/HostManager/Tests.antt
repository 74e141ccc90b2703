-- ===== src/HostManager/Tests.antt =====
-- A node that knows two hosts and has one peer.
use pandanite_node.Common.{ℕ, refl, arith, [], ◌∷◌, Bool, true, false, some, ltb}
use pandanite_node.Common.Int.{pos, negsuc}
use pandanite_node.Blockchain.Tests.{work}
use pandanite_node.HostManager.{HostManager, is_in, add_peer, refresh_host_list}
use pandanite_node.HostManager.Listed.{Listed, add_peer-Listed}
use pandanite_node.HostManager.Refreshing.{refresh_host_list-Listed}
use pandanite_node.HostManager.Peers.{IsOrder}

abbrev hosts : HostManager ℕ
hosts = record {
  curr_peers =
      record {
        host = 7;
        chain = record {
          failed = false;
          total_work = 64;
          chain_length = 1;
          block_hashes = 5 ∷ [];
          check_points = [];
          banned_hashes = [];
        };
      }
      ∷ [];
  address = 1;
  min_host_version = 3;
  network_name = 2;
  host_ping_times = (7, 990) ∷ (8, 995) ∷ [];
  peer_clock_deltas = (7, pos 20) ∷ (8, negsuc 9) ∷ [];
  checkpoints = [];
  banned_hashes = [];
  hosts = 7 ∷ 8 ∷ [];
  blacklist = 6 ∷ [];
  whitelist = [];
}

hosts-Listed : Listed hosts
unfolding is_in
hosts-Listed = record {
  distinct = (refl, (refl, tt));
  allowed = ((refl, refl), ((refl, refl), tt));
}

add_peer-Listed_example : Listed (add_peer (λ _. []) work (λ _. true) 1000 9 999 3 2 hosts)
add_peer-Listed_example =
    add_peer-Listed (λ _. []) work (λ _. true) 1000 9 999 3 2 hosts hosts-Listed

refresh_host_list-Listed_example :
    Listed (refresh_host_list (λ _. some 3) 1000 (6 ∷ 8 ∷ 9 ∷ 9 ∷ []) hosts)
refresh_host_list-Listed_example =
    refresh_host_list-Listed (λ _. some 3) 1000 (6 ∷ 8 ∷ 9 ∷ 9 ∷ []) hosts hosts-Listed

abbrev gt : ℕ → ℕ → Bool
gt a b = ltb b a

gt-IsOrder : IsOrder gt
gt-IsOrder = record {
  gt_irrefl = λ a. ground arith;
  gt_asym = λ a b e. ground arith;
  gt_trans = λ a b c e f. ground arith;
}
