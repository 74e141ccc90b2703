-- ===== src/Transaction/Defs.antt =====
-- The class Transaction: its members, its hashes and tests, the copy constructor, comparisons.
use pandanite_node.Common.{
  ℕ, ◌+◌, ◌-◌, ◌%◌, [], ◌++◌, Bool, true, ◌&&◌, ltb, ◌==◌, same, if◌then◌else◌, u64,
}
use pandanite_node.Common.Bytes.{bytes_be, bytes_le}
use pandanite_node.Crypto.{Primitives, check_signature}

pub record Transaction : Type 0 where
  pub signature : ℕ
  pub signing_key : ℕ
  pub timestamp : ℕ
  pub to : ℕ
  pub from : ℕ
  pub amount : ℕ
  pub fee : ℕ
  pub is_transaction_fee : Bool
  pub nonce : ℕ

-- NULL_ADDRESS
abbrev pub null_address : ℕ
null_address = 0

-- TRANSACTION_EXPIRY, in seconds
abbrev pub transaction_expiry : ℕ
transaction_expiry = 3600

-- The copy constructor.
unfoldable pub copy : (Transaction → ℕ) → Transaction → Transaction
copy stale t = record {
  to = t.to;
  from = t.from;
  signature = t.signature;
  amount = t.amount;
  is_transaction_fee = t.is_transaction_fee;
  timestamp = t.timestamp;
  fee = t.fee;
  signing_key = t.signing_key;
  nonce = stale t;
}

-- isExpired: the difference of two uint64_t.
unfoldable pub is_expired : ℕ → Transaction → Bool
is_expired current_time t = ltb transaction_expiry ((current_time + u64 - t.timestamp) % u64)

module _ (prims : Primitives) where
  -- hashContents: the sender is left out of a mining fee's hash.
  unfoldable pub hash_contents : Transaction → ℕ
  hash_contents t = prims.sha256 (
      bytes_be 25 t.to
      ++ ((if t.is_transaction_fee then [] else bytes_be 25 t.from)
          ++ (bytes_le 8 t.fee
              ++ (bytes_le 8 t.amount ++ (bytes_le 8 t.timestamp ++ bytes_le 8 t.nonce)))))

  unfoldable pub get_hash : Transaction → ℕ
  get_hash t = prims.sha256 (
      bytes_be 32 (hash_contents t)
      ++ (if t.is_transaction_fee then [] else bytes_be 64 t.signature))

  -- signatureValid
  unfoldable pub signature_valid : Transaction → Bool
  unfolding check_signature
  signature_valid t =
      if t.is_transaction_fee
      then true
      else check_signature prims (bytes_be 32 (hash_contents t)) t.signature t.signing_key

-- operator==; equal hexadecimal texts are equal arrays
unfoldable pub equal_transactions : Transaction → Transaction → Bool
equal_transactions a b =
    a.timestamp == b.timestamp
    && (a.to == b.to
        && (a.fee == b.fee
            && (a.amount == b.amount
                && (same a.is_transaction_fee b.is_transaction_fee
                    && (if a.is_transaction_fee
                        then true
                        else (a.from == b.from
                            && (a.signature == b.signature && a.signing_key == b.signing_key)))))))
