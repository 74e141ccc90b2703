-- ===== src/Transaction/Expiry.antt =====
-- Transaction::isExpired against the age that it means to test.
use pandanite_node.Common.{ℕ, ◌+◌, ◌-◌, ◌<◌, ◌≡◌, arith, true, ltb, u64, if◌then◌else◌, leb}
use pandanite_node.Transaction.Defs.{Transaction, is_expired}

-- A transaction is expired exactly when it is more than an hour old, or dated in the future (the
-- difference of the two uint64_t then wraps), provided that the clock and the timestamp are
-- uint64_t, and that a future date is less than 2 ^ 64 - 3600 seconds ahead.
pub is_expired_lem :
    (now : ℕ) (t : Transaction)
    → now < u64
    → t.timestamp < u64
    → t.timestamp < now + (u64 - 3600)
    → is_expired now t ≡ (if leb t.timestamp now then ltb (t.timestamp + 3600) now else true)
unfolding is_expired
is_expired_lem now t hn ht hf = ground arith
