-- ===== src/Executor/Status.antt =====
-- ExecutionStatus of server/executor.hpp and executionStatusAsString of server/executor.cpp.
use Prim.Native.String.{String}

pub data ExecutionStatus : Type 0 where
  sender_does_not_exist balance_too_low invalid_signature invalid_nonce : ExecutionStatus
  extra_mining_fee incorrect_mining_fee invalid_block_id no_mining_fee : ExecutionStatus
  invalid_difficulty invalid_transaction_nonce invalid_transaction_timestamp : ExecutionStatus
  block_timestamp_too_old block_timestamp_in_future unknown_error queue_full : ExecutionStatus
  header_hash_invalid expired_transaction already_in_queue block_id_too_large : ExecutionStatus
  invalid_merkle_root invalid_lastblock_hash invalid_transaction_count : ExecutionStatus
  transaction_fee_too_low wallet_signature_mismatch is_syncing success : ExecutionStatus
  insufficient_funds : ExecutionStatus

unfoldable pub execution_status_as_string : ExecutionStatus → String
execution_status_as_string sender_does_not_exist = "SENDER_DOES_NOT_EXIST"
execution_status_as_string balance_too_low = "BALANCE_TOO_LOW"
execution_status_as_string invalid_signature = "INVALID_SIGNATURE"
execution_status_as_string invalid_nonce = "INVALID_NONCE"
execution_status_as_string extra_mining_fee = "EXTRA_MINING_FEE"
execution_status_as_string incorrect_mining_fee = "INCORRECT_MINING_FEE"
execution_status_as_string invalid_block_id = "INVALID_BLOCK_ID"
execution_status_as_string no_mining_fee = "NO_MINING_FEE"
execution_status_as_string invalid_difficulty = "INVALID_DIFFICULTY"
execution_status_as_string invalid_transaction_nonce = "INVALID_TRANSACTION_NONCE"
execution_status_as_string invalid_transaction_timestamp = "INVALID_TRANSACTION_TIMESTAMP"
execution_status_as_string block_timestamp_too_old = "BLOCK_TIMESTAMP_TOO_OLD"
execution_status_as_string block_timestamp_in_future = "BLOCK_TIMESTAMP_IN_FUTURE"
execution_status_as_string unknown_error = "UNKNOWN_ERROR"
execution_status_as_string queue_full = "QUEUE_FULL"
execution_status_as_string header_hash_invalid = "HEADER_HASH_INVALID"
execution_status_as_string expired_transaction = "EXPIRED_TRANSACTION"
execution_status_as_string already_in_queue = "ALREADY_IN_QUEUE"
execution_status_as_string block_id_too_large = "BLOCK_ID_TOO_LARGE"
execution_status_as_string invalid_merkle_root = "INVALID_MERKLE_ROOT"
execution_status_as_string invalid_lastblock_hash = "INVALID_LASTBLOCK_HASH"
execution_status_as_string invalid_transaction_count = "INVALID_TRANSACTION_COUNT"
execution_status_as_string transaction_fee_too_low = "TRANSACTION_FEE_TOO_LOW"
execution_status_as_string wallet_signature_mismatch = "WALLET_SIGNATURE_MISMATCH"
execution_status_as_string is_syncing = "IS_SYNCING"
execution_status_as_string success = "SUCCESS"
execution_status_as_string insufficient_funds = "INSUFFICIENT_FUNDS"
