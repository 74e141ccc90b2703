-- ===== src/Transaction/Tests.antt =====
-- A transaction on the wire, and its age.
use pandanite_node.Common.{◌≡◌, arith, [], ◌∷◌, false, if◌then◌else◌}
use pandanite_node.Crypto.{wallet_address_from_public_key}
use pandanite_node.Transaction.Defs.{null_address}
use pandanite_node.Transaction.Buffer.{
  TransactionInfo, transaction_info_to_buffer, transaction_info_from_buffer,
}
use pandanite_node.Transaction.Buffer.RoundTrip.{from_buffer-to_buffer}
use pandanite_node.Samples.{prims}

abbrev info : TransactionInfo
info = record {
  signature = 5;
  signing_key = 3;
  timestamp = 1000;
  to = 77;
  from = 88;
  amount = 30;
  fee = 2;
  is_transaction_fee = false;
}

from_buffer-to_buffer_example :
    transaction_info_from_buffer prims (transaction_info_to_buffer info (9 ∷ [])) ≡ record info {
      from =
          if info.is_transaction_fee
          then null_address
          else wallet_address_from_public_key prims info.signing_key;
    }
from_buffer-to_buffer_example = from_buffer-to_buffer prims info (9 ∷ []) (record {
  signature_bound = ground arith;
  signing_key_bound = ground arith;
  timestamp_bound = ground arith;
  to_bound = ground arith;
  amount_bound = ground arith;
  fee_bound = ground arith;
})
