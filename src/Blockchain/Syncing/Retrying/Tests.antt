-- ===== src/Blockchain/Syncing/Retrying/Tests.antt =====
-- A node with the genesis block, which asks the same peers in each round.
use pandanite_node.Common.{ℕ, ◌≡◌, zero, suc, refl, List, [], ◌∷◌, none, some, arith, All}
use pandanite_node.Common.Int.{pos}
use pandanite_node.Common.Dict.{lookup}
use pandanite_node.Common.State.{throws, unreadable, exits, EndsIn}
use pandanite_node.Block.{Block}
use pandanite_node.Block
use pandanite_node.BlockStore
use pandanite_node.HostManager.{get_block_count, best_peer}
use pandanite_node.Blockchain.{BlockChain}
use pandanite_node.Blockchain.Tests.{chain, block, doubles, work, memory}
use pandanite_node.Blockchain.Syncing.Tests.{removal, hosts}
use pandanite_node.Blockchain.Syncing.Retrying.{Peers, chain_sync}
use pandanite_node.Blockchain.Syncing.Retrying.Shorter.{Shorter, chain_sync-Shorter}
use pandanite_node.Blockchain.Syncing.Retrying.GivingUp.{IsSilent, chain_sync-exits}
use pandanite_node.Samples.{prims, stale}

abbrev first : Block
first = record block { id = 1; transactions = [] }

-- The genesis block is in the store.
abbrev begun : BlockChain ℕ
begun = record chain {
  block_store = record chain.block_store { headers = (1, Block.serialize first) ∷ [] };
}

first_stored : BlockStore.get_block stale memory 1 begun.block_store ≡ some first
unfolding BlockStore.get_block BlockStore.get_block_header BlockStore.get_block_transactions lookup
    Block.serialize Block.block_from_header
first_stored = refl

-- A peer that claims two blocks, and refuses every request.
abbrev peers : Peers ℕ
peers = record {
  height = λ _. some (pos 2);
  answer = λ host first last. throws unreadable;
  hosts = hosts;
}

peers-IsSilent : IsSilent stale memory prims work doubles removal 0 2000 none peers
unfolding get_block_count best_peer
peers-IsSilent = record {
  error = unreadable;
  ahead = ground arith;
  refuses = λ host first last. refl;
}

-- The same peers in so many rounds.
abbrev same_peers : ℕ → List (Peers ℕ)
same_peers zero = []
same_peers (suc n) = peers ∷ same_peers n

same_peers-IsSilent :
    (n : ℕ) → All (IsSilent stale memory prims work doubles removal 0 2000 none) (same_peers n)
same_peers-IsSilent zero = tt
same_peers-IsSilent (suc n) = (peers-IsSilent, same_peers-IsSilent n)

chain_sync-exits_example :
    chain_sync stale memory prims work doubles removal 0 2000 none
      (same_peers 26)
      ((begun, none), 0)
    ≡ exits
chain_sync-exits_example =
    chain_sync-exits stale memory prims work doubles removal 0 2000 none (same_peers 26)
      (begun, none) 0 first (same_peers-IsSilent 26) refl refl first_stored (ground arith)
      (ground arith)

chain_sync-Shorter_example : EndsIn (Shorter 1) (
    chain_sync stale memory prims work doubles removal 0 2000 none
      (peers ∷ peers ∷ [])
      ((begun, none), 0))
chain_sync-Shorter_example =
    chain_sync-Shorter stale memory prims work doubles removal 0 2000 none 1 (peers ∷ peers ∷ [])
      ((begun, none), 0) (ground arith, ground arith)
