-- ===== src/Blockchain/Syncing/Tests.antt =====
-- A chain that starts again, and one whose last block is taken off; `hosts` has a heavier peer.
use pandanite_node.Common.{true, ℕ, ◌≡◌, refl, [], ◌∷◌, false, none, ltb, ◌-◌, ◌^◌}
use pandanite_node.Common.State.{ok, returns}
use pandanite_node.Blockchain.{BlockChain}
use pandanite_node.Blockchain.Adding.{commit}
use pandanite_node.Blockchain.Tests.{
  chain, longer, third, doubles, work, memory, block, add_third_run,
}
use pandanite_node.HostManager.{HostManager}
use pandanite_node.Blockchain.Syncing.{Removal, init_chain, opened}
use pandanite_node.Blockchain.Syncing.Restart.{init_chain-commit, found_again}
use pandanite_node.Common.{All, arith, ◌+◌}
use pandanite_node.Common.State.{Settles}
use pandanite_node.Executor.Supply.{InRange}
use pandanite_node.Executor.Tests.{before, before-IsBounded, transactions-InRange}
use pandanite_node.Blockchain.Adding.{add_block}
use pandanite_node.Blockchain.Syncing.{pop_block}
use pandanite_node.Blockchain.Syncing.Popping.{Has, pop_block-add_block}
use pandanite_node.Samples.{prims, stale}

abbrev pub removal : Removal ℕ
removal = record { remove_work = λ w difficulty. w - 2 ^ difficulty; gt = λ a b. ltb b a }

abbrev pub hosts : HostManager ℕ
hosts = record {
  curr_peers =
      record {
        host = 7;
        chain = record {
          failed = false;
          total_work = 64;
          chain_length = 2;
          block_hashes = 5 ∷ 6 ∷ [];
          check_points = [];
          banned_hashes = [];
        };
      }
      ∷ [];
  address = 1;
  min_host_version = 3;
  network_name = 2;
  host_ping_times = [];
  peer_clock_deltas = [];
  checkpoints = [];
  banned_hashes = [];
  hosts = [];
  blacklist = [];
  whitelist = [];
}

-- What a new object may hold before its stores are opened.
abbrev unset_chain : BlockChain ℕ
unset_chain = record chain {
  syncing = true;
  num_blocks = 91;
  total_work = 92;
  difficulty = 93;
  last_hash = 94;
}

init_chain-commit_example :
    let c' = (commit stale memory prims work doubles block (chain, none)).1.0 in
    init_chain stale memory prims work doubles 2000 none (opened unset_chain c', none)
    ≡ returns (ok tt) (found_again stale memory prims work doubles block unset_chain c', none)
init_chain-commit_example =
    init_chain-commit stale memory prims work doubles 2000 none block chain unset_chain none refl

-- Removing work is the inverse of adding it where no more work is removed than there is.
abbrev undone : (w difficulty : ℕ) → w + 2 ^ difficulty - 2 ^ difficulty ≡ w
undone w difficulty = omega arith

payments-InRange : All InRange third.transactions
payments-InRange = (transactions-InRange.1.0, (transactions-InRange.0, tt))

pop_block-add_block_example :
    Settles (Has stale memory prims work doubles removal 0 false 2000 none 2 0 before) (
      pop_block stale memory prims work doubles removal 0 false 2000 none
        (add_block stale memory prims work doubles 2000 third (longer, none)).1)
pop_block-add_block_example =
    pop_block-add_block stale memory prims work doubles removal 0 false 2000 none 2000 third longer
      none undone (ground arith) before-IsBounded payments-InRange add_third_run
