-- ===== src/Mempool/Threads/Tests.antt =====
-- A pool that a payment enters and a block empties.
use pandanite_node.Common.{◌≡◌, refl, [], ◌∷◌, ◌==◌, if◌then◌else◌, true, false}
use pandanite_node.Common.State.{pure}
use pandanite_node.Executor.{success, invalid_nonce}
use pandanite_node.Transaction.{Transaction, copy}
use pandanite_node.Mempool.{ChainView, finish_block}
use pandanite_node.Mempool.Finishing.{Agrees}
use pandanite_node.Mempool.Threads.{
  Threads, add, finish, sync, started, Reach, start, later, add_request, sync_step,
}
use pandanite_node.Mempool.Threads.Interleaved.{IsCalm, Reach-IsCalm}
use pandanite_node.Samples.{prims, stale, alice, payment}

abbrev view : ChainView (Unit {0})
view = record {
  get_wallet_value = λ wallet. pure 100;
  verify_transaction = λ t. pure (if t.nonce == 0 then success else invalid_nonce);
}

-- Payments of Alice over the same sum.
abbrev IsPayment : Transaction → Type 0
IsPayment t = (t.from ≡ alice) × ((t.amount ≡ 30) × (t.fee ≡ 2)) × (t.is_transaction_fee ≡ false)

IsPayment-copy : (t : Transaction) → IsPayment t → IsPayment (copy stale t)
unfolding copy
IsPayment-copy t h = h

IsPayment-Agrees : (t u : Transaction) → IsPayment t → IsPayment u → Agrees prims stale t u
IsPayment-Agrees t u h h' same w = cc

abbrev first : Threads (Unit {0})
first = sync_step view true (started tt).phase (started tt)

abbrev second : Threads (Unit {0})
second = add_request view prims stale 2000 (payment 30 2 0) first

abbrev third : Threads (Unit {0})
third = record second { pool = finish_block prims stale (payment 30 2 0 ∷ []) second.pool }

reach : Reach prims stale view IsPayment tt third
reach =
    later
      (later (later start (sync (started tt) true))
        (add first 2000 (payment 30 2 0) (refl, (refl, refl), refl)))
      (finish second (payment 30 2 0 ∷ []) ((refl, (refl, refl), refl), tt))

Reach-IsCalm_example : IsCalm IsPayment third
Reach-IsCalm_example =
    Reach-IsCalm prims stale view IsPayment IsPayment-copy IsPayment-Agrees tt third reach
