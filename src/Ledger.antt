-- ===== src/Ledger.antt =====
-- server/ledger.hpp and server/ledger.cpp: the wallets' balances, in a key-value store whose reads
-- and writes succeed, and the wallets' nonces, in memory. Amounts and nonces are uint64_t. A method
-- holds its mutex to its end, so each is one step. Members that no method reads are left out.
pub mod Methods
pub mod Supply
mod Tests
use pandanite_node.Common.{
  ℕ, ◌+◌, ◌-◌, ◌%◌, Bool, true, false, none, some, ltb, ◌||◌, u64, if◌then◌else◌, [],
}
use pandanite_node.Common.Dict.{Dict, lookup, insert, contains, value_at}
use pandanite_node.Common.State.{
  Action, Result, ok, throws, wallet_exists, missing_wallet, insufficient_balance,
  balance_underflow, balance_overflow, pure, throw, throw_if, gets, modify, ◌>>=◌, ◌>>◌,
}

pub record Ledger : Type 0 where
  pub db : Dict ℕ
  pub nonces : Dict ℕ

unfoldable pub has_wallet : ℕ → Ledger → Bool
unfolding contains
has_wallet wallet l = contains wallet l.db

unfoldable pub set_wallet_value : ℕ → ℕ → Action Ledger (Unit {0})
set_wallet_value wallet amount = modify (λ l. record l { db = insert wallet amount l.db })

unfoldable pub create_wallet : ℕ → Action Ledger (Unit {0})
unfolding has_wallet set_wallet_value
create_wallet wallet = do
  throw_if (← gets (has_wallet wallet)) wallet_exists
  set_wallet_value wallet 0

unfoldable pub get_wallet_value : ℕ → Action Ledger ℕ
get_wallet_value wallet l = elim (lookup wallet l.db) [
  | none ↦ (throws missing_wallet, l)
  | some value ↦ (ok value, l)
]

unfoldable pub withdraw : ℕ → ℕ → Action Ledger (Unit {0})
unfolding get_wallet_value set_wallet_value
withdraw wallet amt = do
  value ← get_wallet_value wallet
  throw_if (ltb value amt) insufficient_balance
  throw_if (ltb value ((value + u64 - amt) % u64)) balance_underflow
  set_wallet_value wallet ((value + u64 - amt) % u64)

unfoldable pub deposit : ℕ → ℕ → Action Ledger (Unit {0})
unfolding get_wallet_value set_wallet_value
deposit wallet amt = do
  value ← get_wallet_value wallet
  throw_if (ltb ((value + amt) % u64) value) balance_overflow
  set_wallet_value wallet ((value + amt) % u64)

unfoldable pub revert_send : ℕ → ℕ → Action Ledger (Unit {0})
unfolding get_wallet_value set_wallet_value
revert_send wallet amt = do
  value ← get_wallet_value wallet
  set_wallet_value wallet ((value + amt) % u64)

unfoldable pub revert_deposit : ℕ → ℕ → Action Ledger (Unit {0})
unfolding get_wallet_value set_wallet_value
revert_deposit to amt = do
  value ← get_wallet_value to
  set_wallet_value to ((value + u64 - amt) % u64)

-- `catch (const std::exception& e) { return false; }`
abbrev pub catch_false : Result Bool × Ledger → Bool × Ledger
catch_false (ok b, l) = (b, l)
catch_false (throws e, l) = (false, l)

unfoldable pub atomic_withdraw_if_sufficient : ℕ → ℕ → Ledger → Bool × Ledger
unfolding get_wallet_value set_wallet_value
atomic_withdraw_if_sufficient wallet amt l = catch_false (attempt l)
  where
    attempt : Action Ledger Bool
    attempt = do
      value ← get_wallet_value wallet
      if ltb value amt || ltb value ((value + u64 - amt) % u64)
          then pure false
          else (set_wallet_value wallet ((value + u64 - amt) % u64) >> pure true)

unfoldable pub atomic_deposit_if_valid : ℕ → ℕ → Ledger → Bool × Ledger
unfolding get_wallet_value set_wallet_value
atomic_deposit_if_valid wallet amt l = catch_false (attempt l)
  where
    attempt : Action Ledger Bool
    attempt = do
      value ← get_wallet_value wallet
      if ltb ((value + amt) % u64) value
          then pure false
          else (set_wallet_value wallet ((value + amt) % u64) >> pure true)

-- The nonces stay.
unfoldable pub clear : Ledger → Ledger
clear l = record l { db = [] }

-- getState: the map that it builds has the store's entries.
unfoldable pub get_state : Ledger → Dict ℕ
get_state l = l.db

unfoldable pub get_wallet_nonce : ℕ → Ledger → ℕ
unfolding value_at
get_wallet_nonce wallet l = value_at wallet l.nonces

unfoldable pub increment_wallet_nonce : ℕ → Action Ledger (Unit {0})
unfolding has_wallet create_wallet get_wallet_nonce
increment_wallet_nonce wallet = do
  known ← gets (has_wallet wallet)
  if known then pure tt else create_wallet wallet
  modify (λ l. record l { nonces = insert wallet ((get_wallet_nonce wallet l + 1) % u64) l.nonces })
