-- ===== src/Ledger/Methods.antt =====
-- What the methods of the ledger that move money do, on every branch.
use pandanite_node.Common.{
  ℕ, ◌+◌, ◌-◌, ◌%◌, ◌<◌, ◌≡◌, none, some, Bool, true, false, arith, ltb, u64, if◌then◌else◌,
}
use pandanite_node.Common.Dict.{lookup, insert, lookup-insert, value_at}
use pandanite_node.Common.State.{
  Result, ok, throws, missing_wallet, insufficient_balance, balance_overflow,
}
use pandanite_node.Ledger.{
  Ledger, withdraw, deposit, revert_send, revert_deposit, atomic_withdraw_if_sufficient,
  atomic_deposit_if_valid,
}

-- The balance of a wallet, 0 if the ledger does not know it.
abbrev pub balance : ℕ → Ledger → ℕ
balance wallet l = value_at wallet l.db

-- Every balance is a uint64_t.
abbrev pub IsBounded : Ledger → Type 0
IsBounded l = (wallet : ℕ) → balance wallet l < u64

-- A wallet known with a value.
abbrev pub put : ℕ → ℕ → Ledger → Ledger
put wallet value l = record l { db = insert wallet value l.db }

-- What a method that needs a known wallet returns: the exception if there is none.
abbrev pub at_wallet : ℕ → Ledger → (ℕ → Result (Unit {0}) × Ledger) → Result (Unit {0}) × Ledger
at_wallet wallet l f = elim (lookup wallet l.db) [
  | none ↦ (throws missing_wallet, l)
  | some v ↦ f v
]

-- A withdrawal from a ledger of uint64_t balances throws if the wallet is missing or holds less
-- than the amount, leaving the ledger alone, and else takes exactly the amount off; the exception
-- for an underflow is never thrown.
pub withdraw_lem :
    (wallet amt : ℕ) (l : Ledger)
    → IsBounded l
    → withdraw wallet amt l
      ≡ at_wallet wallet l (λ v.
        if ltb v amt then (throws insufficient_balance, l) else (ok tt, put wallet (v - amt) l))
unfolding withdraw value_at
withdraw_lem wallet amt l h = ground (arith, h wallet)

-- A deposit of a uint64_t throws if the wallet is missing or the sum does not fit a uint64_t,
-- leaving the ledger alone, and else adds exactly the amount.
pub deposit_lem :
    (wallet amt : ℕ) (l : Ledger)
    → IsBounded l
    → amt < u64
    → deposit wallet amt l
      ≡ at_wallet wallet l (λ v.
        if ltb (v + amt) u64 then (ok tt, put wallet (v + amt) l) else (throws balance_overflow, l))
unfolding deposit value_at
deposit_lem wallet amt l h ha = ground (arith, h wallet)

abbrev pub is_ok : Result (Unit {0}) → Bool
is_ok (ok _) = true
is_ok (throws _) = false

-- The atomic withdrawal does exactly what the throwing one does, and answers whether it succeeded.
pub atomic_withdraw-eq-withdraw :
    (wallet amt : ℕ) (l : Ledger)
    → atomic_withdraw_if_sufficient wallet amt l
      ≡ (is_ok (withdraw wallet amt l).0, (withdraw wallet amt l).1)
unfolding atomic_withdraw_if_sufficient withdraw
atomic_withdraw-eq-withdraw wallet amt l = ground arith

-- The atomic deposit does exactly what the throwing one does, and answers whether it succeeded.
pub atomic_deposit-eq-deposit :
    (wallet amt : ℕ) (l : Ledger)
    → atomic_deposit_if_valid wallet amt l
      ≡ (is_ok (deposit wallet amt l).0, (deposit wallet amt l).1)
unfolding atomic_deposit_if_valid deposit
atomic_deposit-eq-deposit wallet amt l = ground arith

-- After a deposit of a uint64_t that succeeded on a ledger of uint64_t balances, revert_deposit
-- gives every wallet the value that it had.
pub revert_deposit-deposit :
    (wallet amt : ℕ) (l : Ledger) {l' : Ledger}
    → IsBounded l
    → amt < u64
    → deposit wallet amt l ≡ (ok tt, l')
    → (w : ℕ) → lookup w (revert_deposit wallet amt l').1.db ≡ lookup w l.db
unfolding deposit revert_deposit value_at
revert_deposit-deposit wallet amt l {l'} h ha e w = ground (
  arith,
  h wallet,
  lookup-insert wallet wallet ((value_at wallet l.db + amt) % u64) l.db,
  lookup-insert w wallet ((value_at wallet l.db + amt) % u64) l.db,
  lookup-insert w wallet (value_at wallet l.db) l'.db,
)

-- After a withdrawal that succeeded on a ledger of uint64_t balances, revert_send gives every wallet
-- the value that it had.
pub revert_send-withdraw :
    (wallet amt : ℕ) (l : Ledger) {l' : Ledger}
    → IsBounded l
    → withdraw wallet amt l ≡ (ok tt, l')
    → (w : ℕ) → lookup w (revert_send wallet amt l').1.db ≡ lookup w l.db
unfolding withdraw revert_send value_at
revert_send-withdraw wallet amt l {l'} h e w = ground (
  arith,
  h wallet,
  lookup-insert wallet wallet (value_at wallet l.db - amt) l.db,
  lookup-insert w wallet (value_at wallet l.db - amt) l.db,
  lookup-insert w wallet (value_at wallet l.db) l'.db,
)
