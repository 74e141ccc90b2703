-- ===== src/Executor/Names.antt =====
-- The texts of the statuses.
use pandanite_node.Common.{◌≡◌, refl, sym, ap, ◌∙◌, if◌then◌else◌, List, [], ◌∷◌}
use Prim.Native.String.{String}
use text.Mathlib.Text.{◌==◌}
use pandanite_node.Executor.Status.{
  ExecutionStatus, execution_status_as_string, sender_does_not_exist, balance_too_low,
  invalid_signature, invalid_nonce, extra_mining_fee, incorrect_mining_fee, invalid_block_id,
  no_mining_fee, invalid_difficulty, invalid_transaction_nonce, invalid_transaction_timestamp,
  block_timestamp_too_old, block_timestamp_in_future, unknown_error, queue_full,
  header_hash_invalid, expired_transaction, already_in_queue, block_id_too_large,
  invalid_merkle_root, invalid_lastblock_hash, invalid_transaction_count, transaction_fee_too_low,
  wallet_signature_mismatch, is_syncing, success, insufficient_funds,
}

abbrev statuses : List ExecutionStatus
statuses =
    sender_does_not_exist ∷ balance_too_low ∷ invalid_signature ∷ invalid_nonce ∷ extra_mining_fee
    ∷ incorrect_mining_fee ∷ invalid_block_id ∷ no_mining_fee ∷ invalid_difficulty
    ∷ invalid_transaction_nonce ∷ invalid_transaction_timestamp ∷ block_timestamp_too_old
    ∷ block_timestamp_in_future ∷ unknown_error ∷ queue_full ∷ header_hash_invalid
    ∷ expired_transaction ∷ already_in_queue ∷ block_id_too_large ∷ invalid_merkle_root
    ∷ invalid_lastblock_hash ∷ invalid_transaction_count ∷ transaction_fee_too_low
    ∷ wallet_signature_mismatch ∷ is_syncing ∷ success ∷ insufficient_funds ∷ []

-- The first status of a list with this text.
find_status : String → List ExecutionStatus → ExecutionStatus
find_status name [] = unknown_error
find_status name (s ∷ rest) =
    if execution_status_as_string s == name then s else find_status name rest

status_of_string : String → ExecutionStatus
unfolding find_status execution_status_as_string
status_of_string name = find_status name statuses

status_of_string_lem : (s : ExecutionStatus) → status_of_string (execution_status_as_string s) ≡ s
unfolding status_of_string
status_of_string_lem sender_does_not_exist = refl
status_of_string_lem balance_too_low = refl
status_of_string_lem invalid_signature = refl
status_of_string_lem invalid_nonce = refl
status_of_string_lem extra_mining_fee = refl
status_of_string_lem incorrect_mining_fee = refl
status_of_string_lem invalid_block_id = refl
status_of_string_lem no_mining_fee = refl
status_of_string_lem invalid_difficulty = refl
status_of_string_lem invalid_transaction_nonce = refl
status_of_string_lem invalid_transaction_timestamp = refl
status_of_string_lem block_timestamp_too_old = refl
status_of_string_lem block_timestamp_in_future = refl
status_of_string_lem unknown_error = refl
status_of_string_lem queue_full = refl
status_of_string_lem header_hash_invalid = refl
status_of_string_lem expired_transaction = refl
status_of_string_lem already_in_queue = refl
status_of_string_lem block_id_too_large = refl
status_of_string_lem invalid_merkle_root = refl
status_of_string_lem invalid_lastblock_hash = refl
status_of_string_lem invalid_transaction_count = refl
status_of_string_lem transaction_fee_too_low = refl
status_of_string_lem wallet_signature_mismatch = refl
status_of_string_lem is_syncing = refl
status_of_string_lem success = refl
status_of_string_lem insufficient_funds = refl

-- Two statuses with the same text are one: a client can tell every status from its text.
pub execution_status_as_string-injective :
    (a b : ExecutionStatus) → execution_status_as_string a ≡ execution_status_as_string b → a ≡ b
execution_status_as_string-injective a b e =
    sym (status_of_string_lem a) ∙ (ap status_of_string e ∙ status_of_string_lem b)
