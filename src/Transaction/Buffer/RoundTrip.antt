-- ===== src/Transaction/Buffer/RoundTrip.antt =====
-- The wire format of a transaction: its size, and reading back what was written.
use pandanite_node.Common.{ℕ, ◌+◌, ◌^◌, ◌<◌, ◌≡◌, List, arith, length, length-append, if◌then◌else◌}
use pandanite_node.Common.Bytes.{
  from_le-bytes_le, from_be-bytes_be, length-bytes_le, length-bytes_be, take-append, drop-append,
}
use pandanite_node.Crypto.{Primitives, wallet_address_from_public_key}
use pandanite_node.Transaction.Defs.{null_address}
use pandanite_node.Transaction.Buffer.{
  TransactionInfo, transaction_info_to_buffer, transaction_info_from_buffer, read_network_uint32,
  read_network_uint64, read_network_n_bytes, write_network_uint32, write_network_uint64,
  write_network_n_bytes, transaction_info_buffer_size,
}

pub read-write_uint32 :
    (x : ℕ) (rest : List ℕ)
    → x < 2 ^ 32
    → read_network_uint32 (write_network_uint32 x rest) ≡ (x, rest)
unfolding read_network_uint32 write_network_uint32
read-write_uint32 x rest h = rw (
  take-append 4 _ rest (length-bytes_le 4 x),
  drop-append 4 _ rest (length-bytes_le 4 x),
  from_le-bytes_le 4 x h,
)

pub read-write_uint64 :
    (x : ℕ) (rest : List ℕ)
    → x < 2 ^ 64
    → read_network_uint64 (write_network_uint64 x rest) ≡ (x, rest)
unfolding read_network_uint64 write_network_uint64
read-write_uint64 x rest h = rw (
  take-append 8 _ rest (length-bytes_le 8 x),
  drop-append 8 _ rest (length-bytes_le 8 x),
  from_le-bytes_le 8 x h,
)

pub read-write_n_bytes :
    (n x : ℕ) (rest : List ℕ)
    → x < 256 ^ n
    → read_network_n_bytes n (write_network_n_bytes n x rest) ≡ (x, rest)
unfolding read_network_n_bytes write_network_n_bytes
read-write_n_bytes n x rest h = rw (
  take-append n _ rest (length-bytes_be n x),
  drop-append n _ rest (length-bytes_be n x),
  from_be-bytes_be n x h,
)

-- The members of a TransactionInfo fit their C++ types.
pub record InRange (t : TransactionInfo) : Type 0 where
  pub signature_bound : t.signature < 256 ^ 64
  pub signing_key_bound : t.signing_key < 256 ^ 32
  pub timestamp_bound : t.timestamp < 2 ^ 64
  pub to_bound : t.to < 256 ^ 25
  pub amount_bound : t.amount < 2 ^ 64
  pub fee_bound : t.fee < 2 ^ 64

-- Reading the buffer that a TransactionInfo was written to gives it back, whatever follows in the
-- buffer, provided that its members fit their types; but the sender is not kept: it is the address
-- of the signing key, or NULL_ADDRESS of a mining fee.
pub from_buffer-to_buffer :
    (prims : Primitives) (t : TransactionInfo) (rest : List ℕ)
    → InRange t
    → transaction_info_from_buffer prims (transaction_info_to_buffer t rest) ≡ record t {
      from =
          if t.is_transaction_fee
          then null_address
          else wallet_address_from_public_key prims t.signing_key;
    }
unfolding transaction_info_from_buffer transaction_info_to_buffer
from_buffer-to_buffer prims t rest r =
    rw
      (
        read-write_n_bytes 64 _ _ r.signature_bound,
        read-write_n_bytes 32 _ _ r.signing_key_bound,
        read-write_uint64 _ _ r.timestamp_bound,
        read-write_n_bytes 25 _ _ r.to_bound,
        read-write_uint64 _ _ r.amount_bound,
        read-write_uint64 _ _ r.fee_bound,
        read-write_uint32 (if t.is_transaction_fee then 1 else 0) rest (ground arith),
      )
      (ground arith)

-- A transaction takes TRANSACTIONINFO_BUFFER_SIZE bytes of the buffer.
pub length-to_buffer :
    (t : TransactionInfo) (rest : List ℕ)
    → length (transaction_info_to_buffer t rest) ≡ transaction_info_buffer_size + length rest
unfolding transaction_info_to_buffer write_network_uint32 write_network_uint64 write_network_n_bytes
length-to_buffer t rest = simp (length-append, length-bytes_le, length-bytes_be) (omega arith)
