-- ===== src/Transaction/Buffer.antt =====
-- TransactionInfo and its wire format: core/transaction.cpp over the readers and writers of
-- core/helpers.cpp. A writer appends to the bytes that stand after its place in the buffer; a
-- reader returns what it read and the rest of the buffer.
pub mod RoundTrip
use pandanite_node.Common.{
  ℕ, ◌+◌, List, [], ◌∷◌, ◌++◌, Bool, true, false, ltb, if◌then◌else◌, take, drop, u32,
}
use pandanite_node.Common.Bytes.{bytes_be, bytes_le, from_be, from_le}
use pandanite_node.Crypto.{Primitives, wallet_address_from_public_key}
use pandanite_node.Transaction.Defs.{Transaction, null_address}

pub record TransactionInfo : Type 0 where
  pub signature : ℕ
  pub signing_key : ℕ
  pub timestamp : ℕ
  pub to : ℕ
  pub from : ℕ
  pub amount : ℕ
  pub fee : ℕ
  pub is_transaction_fee : Bool

-- TRANSACTIONINFO_BUFFER_SIZE
abbrev pub transaction_info_buffer_size : ℕ
transaction_info_buffer_size = 149

-- Transaction::serialize
unfoldable pub serialize : Transaction → TransactionInfo
serialize t = record {
  signature = t.signature;
  signing_key = t.signing_key;
  timestamp = t.timestamp;
  to = t.to;
  from = t.from;
  amount = t.amount;
  fee = t.fee;
  is_transaction_fee = t.is_transaction_fee;
}

-- Transaction::Transaction(const TransactionInfo&): `old` is the memory that it is built in,
-- which keeps its nonce, and its sender if the transaction is a mining fee.
unfoldable pub transaction_from_info : Transaction → TransactionInfo → Transaction
transaction_from_info old t = record {
  to = t.to;
  from = if t.is_transaction_fee then old.from else t.from;
  signature = t.signature;
  signing_key = t.signing_key;
  amount = t.amount;
  is_transaction_fee = t.is_transaction_fee;
  timestamp = t.timestamp;
  fee = t.fee;
  nonce = old.nonce;
}

-- readNetworkUint32 and its like: the value, and the buffer behind it.
unfoldable pub read_network_uint32 : List ℕ → ℕ × List ℕ
read_network_uint32 buffer = (from_le (take 4 buffer), drop 4 buffer)

unfoldable pub read_network_uint64 : List ℕ → ℕ × List ℕ
read_network_uint64 buffer = (from_le (take 8 buffer), drop 8 buffer)

-- readNetworkSHA256, readNetworkPublicWalletAddress and readNetworkNBytes, by the array's size
unfoldable pub read_network_n_bytes : ℕ → List ℕ → ℕ × List ℕ
read_network_n_bytes n buffer = (from_be (take n buffer), drop n buffer)

unfoldable pub write_network_uint32 : ℕ → List ℕ → List ℕ
write_network_uint32 x rest = bytes_le 4 x ++ rest

unfoldable pub write_network_uint64 : ℕ → List ℕ → List ℕ
write_network_uint64 x rest = bytes_le 8 x ++ rest

unfoldable pub write_network_n_bytes : ℕ → ℕ → List ℕ → List ℕ
write_network_n_bytes n x rest = bytes_be n x ++ rest

-- transactionInfoToBuffer
unfoldable pub transaction_info_to_buffer : TransactionInfo → List ℕ → List ℕ
transaction_info_to_buffer t rest =
    let flag : ℕ = if t.is_transaction_fee then 1 else 0 in
    write_network_n_bytes 64 t.signature (
      write_network_n_bytes 32 t.signing_key (
        write_network_uint64 t.timestamp (
          write_network_n_bytes 25 t.to (
            write_network_uint64 t.amount
              (write_network_uint64 t.fee (write_network_uint32 flag rest))))))

-- transactionInfoFromBuffer: the sender is not in the buffer, it is computed from the key.
unfoldable pub transaction_info_from_buffer : Primitives → List ℕ → TransactionInfo
transaction_info_from_buffer prims buffer =
    let (signature, b1) = read_network_n_bytes 64 buffer in
    let (signing_key, b2) = read_network_n_bytes 32 b1 in
    let (timestamp, b3) = read_network_uint64 b2 in
    let (to, b4) = read_network_n_bytes 25 b3 in
    let (amount, b5) = read_network_uint64 b4 in
    let (fee, b6) = read_network_uint64 b5 in
    let (flag, b7) = read_network_uint32 b6 in
    let is_transaction_fee = ltb 0 flag in
    record {
      signature = signature;
      signing_key = signing_key;
      timestamp = timestamp;
      to = to;
      from =
          if is_transaction_fee
          then null_address
          else wallet_address_from_public_key prims signing_key;
      amount = amount;
      fee = fee;
      is_transaction_fee = is_transaction_fee;
    }
