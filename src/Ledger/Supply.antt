-- ===== src/Ledger/Supply.antt =====
-- The sum of the balances, and what the methods of the ledger do to it.
use pandanite_node.Common.{ℕ, ◌+◌, ◌-◌, ◌<◌, ◌≡◌, arith, u64, Option-cases, inl, inr}
use pandanite_node.Common.Dict.{lookup, value_at, value_at-insert}
use pandanite_node.Common.Dict.Sorted.{IsSorted, insert-IsSorted, sum, sum-insert}
use pandanite_node.Common.State.{Ensures}
use pandanite_node.Ledger.{Ledger}
use pandanite_node.Ledger
use pandanite_node.Ledger.Methods.{balance, IsBounded, put, deposit_lem, withdraw_lem}

-- The sum of all balances.
abbrev pub supply : Ledger → ℕ
supply l = sum l.db

-- A ledger in order whose balances are uint64_t and add up, with what is on its way, to `total`.
pub record Holds (total owed : ℕ) (l : Ledger) : Type 0 where
  pub sorted : IsSorted l.db
  pub bounded : IsBounded l
  pub adds_up : supply l + owed ≡ total

put-Holds :
    (total owed owed' wallet value : ℕ) (l : Ledger)
    → Holds total owed l
    → value < u64
    → value + owed' ≡ balance wallet l + owed
    → Holds total owed' (put wallet value l)
put-Holds total owed owed' wallet value l h small e = record {
  sorted = insert-IsSorted wallet value l.db h.sorted;
  bounded = λ w. ground (arith, h.bounded w, value_at-insert w wallet value l.db);
  adds_up = omega (arith, sum-insert wallet value l.db h.sorted, h.adds_up);
}

module _ (total owed wallet amt : ℕ) where
  pub create-Holds :
      Ensures (Holds total owed) (Ledger.create_wallet wallet) (λ _. Holds total owed)
  unfolding Ledger.create_wallet Ledger.has_wallet value_at
  create-Holds l h = elim (Option-cases (lookup wallet l.db)) [
    | inl e ↦ ground (arith, put-Holds total owed owed wallet 0 l h)
    | inr (v, e) ↦ ground arith
  ]

  pub deposit-Holds :
      amt < u64
      → Ensures (Holds total (owed + amt)) (Ledger.deposit wallet amt) (λ _. Holds total owed)
  unfolding value_at
  deposit-Holds small l h = elim (Option-cases (lookup wallet l.db)) [
    | inl e ↦ ground (arith, deposit_lem wallet amt l h.bounded small)
    | inr (v, e) ↦ ground (
      arith,
      deposit_lem wallet amt l h.bounded small,
      put-Holds total (owed + amt) owed wallet (v + amt) l h,
    )
  ]

  pub withdraw-Holds :
      Ensures (Holds total owed) (Ledger.withdraw wallet amt) (λ _. Holds total (owed + amt))
  unfolding value_at
  withdraw-Holds l h = elim (Option-cases (lookup wallet l.db)) [
    | inl e ↦ ground (arith, withdraw_lem wallet amt l h.bounded)
    | inr (v, e) ↦ ground (
      arith,
      h.bounded wallet,
      withdraw_lem wallet amt l h.bounded,
      put-Holds total owed (owed + amt) wallet (v - amt) l h,
    )
  ]

-- A read keeps the ledger.
pub get_wallet_value-Holds :
    (total owed wallet : ℕ)
    → Ensures (Holds total owed) (Ledger.get_wallet_value wallet) (λ _. Holds total owed)
unfolding Ledger.get_wallet_value
get_wallet_value-Holds total owed wallet l h = ground (arith, h)

-- New money is on its way.
pub mint-Holds : (total amt : ℕ) (l : Ledger) → Holds total 0 l → Holds (total + amt) (0 + amt) l
mint-Holds total amt l h = record {
  sorted = h.sorted;
  bounded = h.bounded;
  adds_up = omega (arith, h.adds_up);
}
