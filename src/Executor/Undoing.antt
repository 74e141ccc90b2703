-- ===== src/Executor/Undoing.antt =====
-- Executor::RollbackBlock after ExecuteBlock: which call of the rollback undoes which call of the
-- execution. `l` is the ledger on the way back, which may know wallets that the one before did not.
pub mod Transfers
pub mod Blocks
pub mod Restored
use pandanite_node.Common.{
  ℕ, ◌+◌, ◌-◌, ◌%◌, ◌<◌, ◌≡◌, Bool, true, false, ◌||◌, some, ◌==◌, if◌then◌else◌, arith, u64, refl,
  Option-cases, inl, inr,
}
use pandanite_node.Common.Dict.{Dict, insert, lookup, lookup-insert, value_at, contains}
use pandanite_node.Common.State.{Action, Result, ok, throws, Returns, resume, ◌>>◌, pure}
use pandanite_node.Transaction.{Transaction}
use pandanite_node.Ledger.{Ledger}
use pandanite_node.Ledger
use pandanite_node.Ledger.Methods.{balance, IsBounded, put}
use pandanite_node.Executor.{
  Exec, ExecutionStatus, success, deposit, withdraw, move_funds, pay_fees, revert_fees,
  rollback_ledger,
}

-- The balances are the same, and each wallet that `base` knows is known.
abbrev pub Mirrors : Ledger → Ledger → Type 0
Mirrors base l =
    (w : ℕ) → (balance w l ≡ balance w base) × (contains w base.db ≡ true → contains w l.db ≡ true)

-- From a ledger that mirrors `after`, the call leads back to one that mirrors `before`.
abbrev pub Undoes : Action Ledger (Unit {0}) → Ledger → Ledger → Type 0
Undoes undo before after =
    (l : Ledger) → Mirrors after l → ((undo l).0 ≡ ok tt) × Mirrors before (undo l).1

-- A step that returns leaves balances that are uint64_t, and is undone.
abbrev pub Undone : Action Ledger (Unit {0}) → Ledger → Exec → Type 0
Undone undo before s = IsBounded s.ledger × Undoes undo before s.ledger

abbrev pub Undoable :
    {A : Type 0} → (A → Type 0) → Action Exec A → Action Ledger (Unit {0}) → Type 0
Undoable C m undo =
    (s : Exec)
    → IsBounded s.ledger
    → Returns (λ a s'. C a → Undone undo s.ledger s') (m s).0 (m s).1

abbrev pub Always : Unit {0} → Type 0
Always _ = Unit

abbrev pub IsSuccess : ExecutionStatus → Type 0
IsSuccess status = status ≡ success

-- `after` is `before` with another balance for one wallet, which it knows.
abbrev MovedAt : ℕ → ℕ → ℕ → Ledger → Ledger → Type 0
MovedAt w wallet value before after =
    (balance w after ≡ (if w == wallet then value else balance w before))
    × (contains w after.db ≡ (w == wallet || contains w before.db))

abbrev Moved : ℕ → ℕ → Ledger → Ledger → Type 0
Moved wallet value before after = (w : ℕ) → MovedAt w wallet value before after

known_after :
    (wallet value : ℕ) (before after l : Ledger)
    → Moved wallet value before after
    → Mirrors after l
    → (v : ℕ) × (lookup wallet l.db ≡ some v) × (v ≡ value)
unfolding contains value_at
known_after wallet value before after l moved m = elim (Option-cases (lookup wallet l.db)) [
  | inl e ↦ absurd (ground (arith, moved wallet, m wallet))
  | inr (v, e) ↦ (v, e, ground (arith, moved wallet, m wallet))
]

revert_deposit-Undoes :
    (to amt : ℕ) (before after : Ledger)
    → amt < u64
    → IsBounded before
    → Moved to ((balance to before + amt) % u64) before after
    → Undoes (Ledger.revert_deposit to amt) before after
unfolding Ledger.revert_deposit contains value_at
revert_deposit-Undoes to amt before after h b moved l m =
    let (v, e, same) = known_after to ((balance to before + amt) % u64) before after l moved m in
    (
      ground (arith, e),
      λ w.
          ground
            (arith, e, same, b to, moved w, m w, lookup-insert w to (value_at to before.db) l.db),
    )

revert_send-Undoes :
    (from amt : ℕ) (before after : Ledger)
    → amt < u64
    → IsBounded before
    → Moved from ((balance from before + u64 - amt) % u64) before after
    → Undoes (Ledger.revert_send from amt) before after
unfolding Ledger.revert_send contains value_at
revert_send-Undoes from amt before after h b moved l m =
    let value = (balance from before + u64 - amt) % u64 in
    let (v, e, same) = known_after from value before after l moved m in
    (
      ground (arith, e),
      λ w. ground (
        arith,
        e,
        same,
        b from,
        moved w,
        m w,
        lookup-insert w from (value_at from before.db) l.db,
      ),
    )

Moved-IsBounded :
    (wallet value : ℕ) (before after : Ledger)
    → Moved wallet value before after
    → value < u64
    → IsBounded before
    → IsBounded after
Moved-IsBounded wallet value before after moved h b w = ground (arith, moved w, b w)

deposit-MovedAt :
    (w to amt : ℕ) (s : Exec)
    → Returns
        (λ a s'. MovedAt w to ((balance to s.ledger + amt) % u64) s.ledger s'.ledger)
        (deposit to amt s).0
        (deposit to amt s).1
unfolding deposit Ledger.deposit Ledger.has_wallet Ledger.create_wallet value_at contains
deposit-MovedAt w to amt s = elim (Option-cases (lookup to s.ledger.db)) [
  | inl e ↦
      let db' : Dict ℕ = insert to 0 s.ledger.db in
      ground (
        arith,
        lookup-insert to to 0 s.ledger.db,
        lookup-insert w to 0 s.ledger.db,
        lookup-insert w to ((0 + amt) % u64) db',
      )
  | inr (v, e) ↦ ground (arith, lookup-insert w to ((v + amt) % u64) s.ledger.db)
]

withdraw-MovedAt :
    (w from amt : ℕ) (s : Exec)
    → Returns
        (λ a s'. MovedAt w from ((balance from s.ledger + u64 - amt) % u64) s.ledger s'.ledger)
        (withdraw from amt s).0
        (withdraw from amt s).1
unfolding withdraw Ledger.withdraw Ledger.has_wallet value_at contains
withdraw-MovedAt w from amt s = elim (Option-cases (lookup from s.ledger.db)) [
  | inl e ↦ ground arith
  | inr (v, e) ↦ ground (arith, lookup-insert w from ((v + u64 - amt) % u64) s.ledger.db)
]

Returns-all :
    {A : Type 0} (P : ℕ → A → Exec → Type 0) (r : Result A) (s : Exec)
    → ((w : ℕ) → Returns (P w) r s)
    → Returns (λ a s. (w : ℕ) → P w a s) r s
Returns-all P (ok a) s h = h
Returns-all P (throws e) s h = tt

Returns-weaken :
    {A : Type 0} (P Q : A → Exec → Type 0) (r : Result A) (s : Exec)
    → ((a : A) (s : Exec) → P a s → Q a s)
    → Returns P r s
    → Returns Q r s
Returns-weaken P Q (ok a) s f h = f a s h
Returns-weaken P Q (throws e) s f h = tt

pub deposit-Undoable :
    (to amt : ℕ) → amt < u64 → Undoable Always (deposit to amt) (Ledger.revert_deposit to amt)
deposit-Undoable to amt h s b =
    let value = (balance to s.ledger + amt) % u64 in
    Returns-weaken _ _ (deposit to amt s).0 (deposit to amt s).1
      (λ a s' moved c. (
        Moved-IsBounded to value s.ledger s'.ledger moved (omega arith) b,
        revert_deposit-Undoes to amt s.ledger s'.ledger h b moved,
      ))
      (Returns-all (λ w a s'. MovedAt w to value s.ledger s'.ledger) (deposit to amt s).0
        (deposit to amt s).1 (λ w. deposit-MovedAt w to amt s))

pub withdraw-Undoable :
    (from amt : ℕ) → amt < u64 → Undoable Always (withdraw from amt) (Ledger.revert_send from amt)
withdraw-Undoable from amt h s b =
    let value = (balance from s.ledger + u64 - amt) % u64 in
    Returns-weaken _ _ (withdraw from amt s).0 (withdraw from amt s).1
      (λ a s' moved c. (
        Moved-IsBounded from value s.ledger s'.ledger moved (omega arith) b,
        revert_send-Undoes from amt s.ledger s'.ledger h b moved,
      ))
      (Returns-all (λ w a s'. MovedAt w from value s.ledger s'.ledger) (withdraw from amt s).0
        (withdraw from amt s).1 (λ w. withdraw-MovedAt w from amt s))

then_back :
    (u : Action Ledger (Unit {0})) (before middle : Ledger) (r : Result (Unit {0})) (l : Ledger)
    → Undoes u before middle
    → (r ≡ ok tt) × Mirrors middle l
    → ((resume (λ _. u) r l).0 ≡ ok tt) × Mirrors before (resume (λ _. u) r l).1
then_back u before middle (ok _) l back h = back l h.1
then_back u before middle (throws e) l back h = cc

-- Two calls are undone in the other order.
pub Undoes-bind :
    (u v : Action Ledger (Unit {0})) (before middle after : Ledger)
    → Undoes u before middle
    → Undoes v middle after
    → Undoes (v >> u) before after
Undoes-bind u v before middle after hu hv l m =
    then_back u before middle (v l).0 (v l).1 hu (hv l m)

module _ {A : Type 0} (C : A → Type 0) where
  pub Returns-bind :
      (u v : Action Ledger (Unit {0})) (before middle : Ledger) (r : Result A) (s : Exec)
      → Undoes u before middle
      → Returns (λ a s'. C a → Undone v middle s') r s
      → Returns (λ a s'. C a → Undone (v >> u) before s') r s
  Returns-bind u v before middle (ok a) s back h =
      λ c. ((h c).0, Undoes-bind u v before middle s.ledger back (h c).1)
  Returns-bind u v before middle (throws e) s back h = tt

  pub Undoable-bind :
      (m : Action Exec (Unit {0})) (k : Action Exec A) (u v : Action Ledger (Unit {0}))
      → Undoable Always m u
      → Undoable C k v
      → Undoable C (m >> k) (v >> u)
  Undoable-bind m k u v hm hk s b = go (m s).0 (m s).1 (hm s b)
    where
      go :
          (r : Result (Unit {0})) (s' : Exec)
          → Returns (λ a s'. Always a → Undone u s.ledger s') r s'
          → Returns
              (λ a s'. C a → Undone (v >> u) s.ledger s')
              (resume (λ _. k) r s').0
              (resume (λ _. k) r s').1
      go (ok a) s' h =
          Returns-bind u v s.ledger s'.ledger (k s').0 (k s').1 (h tt).1 (hk s' (h tt).0)
      go (throws e) s' h = tt
