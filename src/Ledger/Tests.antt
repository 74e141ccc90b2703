-- ===== src/Ledger/Tests.antt =====
-- Runs of the ledger's methods.
use pandanite_node.Common.{◌≡◌, refl, arith, [], ◌∷◌}
use pandanite_node.Common.Dict.{lookup, insert, value_at}
use pandanite_node.Common.State.{ok}
use pandanite_node.Ledger.{Ledger, withdraw, deposit, get_wallet_value, set_wallet_value}
use pandanite_node.Ledger.Methods.{IsBounded, put}

abbrev book : Ledger
book = record { db = (1, 70) ∷ (4, 30) ∷ []; nonces = [] }

book-IsBounded : IsBounded book
unfolding value_at lookup
book-IsBounded w = ground arith

deposit_run : deposit 1 8 book ≡ (ok tt, put 1 78 book)
unfolding deposit get_wallet_value set_wallet_value lookup insert
deposit_run = refl

withdraw_run : withdraw 4 10 book ≡ (ok tt, put 4 20 book)
unfolding withdraw get_wallet_value set_wallet_value lookup insert
withdraw_run = refl
