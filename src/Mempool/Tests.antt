-- ===== src/Mempool/Tests.antt =====
-- Runs of the pool, with a chain that verifies the transactions whose nonce is 0.
use pandanite_node.Common.{refl, arith, [], ◌∷◌, ◌==◌, if◌then◌else◌}
use pandanite_node.Common.Dict.{value_at, lookup}
use pandanite_node.Common.State.{pure}
use pandanite_node.Executor.{success, invalid_nonce}
use pandanite_node.Mempool.{MemPool, ChainView, finish_block}
use pandanite_node.Mempool.Pending.{Reserved, pending}
use pandanite_node.Mempool.Finishing.{finish_block-Reserved}
use pandanite_node.Crypto.{wallet_address_from_public_key}
use pandanite_node.Samples.{prims, stale, alice, payment, checksum}

abbrev chain : ChainView (Unit {0})
chain = record {
  get_wallet_value = λ wallet. pure 100;
  verify_transaction = λ t. pure (if t.nonce == 0 then success else invalid_nonce);
}

-- Nothing is in the pool.
abbrev empty : MemPool
empty = record { outgoing = []; queue = []; wallet_nonces = [] }

empty-Reserved : Reserved empty
unfolding value_at lookup pending
empty-Reserved w = refl

-- One payment of Alice waits.
abbrev waiting : MemPool
waiting = record {
  outgoing = (alice, 32) ∷ [];
  queue = payment 30 2 0 ∷ [];
  wallet_nonces = (alice, 1) ∷ [];
}

waiting-Reserved : Reserved waiting
unfolding value_at lookup pending wallet_address_from_public_key checksum
waiting-Reserved w = ground arith

finish_block-Reserved_example : Reserved (finish_block prims stale (payment 30 2 0 ∷ []) waiting)
finish_block-Reserved_example =
    finish_block-Reserved prims stale (payment 30 2 0 ∷ []) waiting (((λ _ w. refl), tt), tt)
      waiting-Reserved
