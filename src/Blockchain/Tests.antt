-- ===== src/Blockchain/Tests.antt =====
-- Verifying a payment that the sender can afford, and adding a block.
use pandanite_node.Common.{ℕ, ◌<◌, ◌≢◌, arith, sym, subst, [], none, false}
use pandanite_node.Common.Bytes.{bytes_be, from_be}
use pandanite_node.Common.Dict.{lookup, value_at}
use pandanite_node.Common.State.{ok}
use pandanite_node.Crypto.{wallet_address_from_public_key}
use pandanite_node.Transaction.{copy}
use pandanite_node.Ledger.Methods.{balance}
use pandanite_node.Executor.{success}
use pandanite_node.Executor.Tests.{before, before-IsBounded, execute_transaction_run}
use pandanite_node.Blockchain.{BlockChain, verify_transaction}
use pandanite_node.Blockchain.Verification.{verify_transaction-refused}
use pandanite_node.Common.{◌≡◌, ◌∷◌, ◌+◌, ◌*◌, ◌/◌, ◌^◌, ltb, refl, some, true}
use pandanite_node.Common.Bytes.{bytes_le}
use pandanite_node.Crypto.{concat_hashes, verify_hash, check_leading_zero_bits, leading_bytes}
use pandanite_node.Transaction.{Transaction, get_hash, hash_contents}
use pandanite_node.Transaction.Buffer.{TransactionInfo}
use pandanite_node.Block.{Block, verify_nonce}
use pandanite_node.MerkleTree.{set_items, sort_items, insert_item, root_of, combine, fringe}
use pandanite_node.MiningFee.{Doubles, get_current_mining_fee}
use pandanite_node.MiningFee.Schedule.{get_current_mining_fee_lem}
use pandanite_node.HeaderChain.{Work}
use pandanite_node.Executor.Tests.{transactions, execute_block_run, execute_third_block_run}
use pandanite_node.Blockchain.{update_difficulty}
use pandanite_node.Blockchain.Adding.{
  add_block, header_status, is_too_old, after_age, execute_sorted, after_block, commit, put_block,
}
use pandanite_node.Blockchain.Adding.Extending.{Extends, add_block-Extends}
use pandanite_node.Samples.{mining_fee}
use pandanite_node.Samples.{prims, stale, alice, payment, checksum}

abbrev pub chain : BlockChain ℕ
chain = record {
  syncing = false;
  num_blocks = 1;
  total_work = 0;
  difficulty = 16;
  last_hash = 0;
  ledger = before;
  txdb = [];
  block_store = record {
    block_count = none;
    total_work = none;
    headers = [];
    transactions = [];
    wallet_transactions = [];
  };
  invalid_transactions = [];
}

verify_transaction-refused_example :
    (verify_transaction stale prims (payment 30 2 0) chain).0 ≢ ok success
unfolding copy value_at lookup wallet_address_from_public_key checksum from_be bytes_be
verify_transaction-refused_example =
    verify_transaction-refused stale prims (payment 30 2 0) chain alice before-IsBounded
      (subst (λ r. balance alice r.1.ledger < 100) (sym execute_transaction_run) (ground arith))

-- Numbers of coins in the place of doubles.
abbrev pub doubles : Doubles ℕ
doubles = record {
  zero_supply = 0;
  initial_amount = 50;
  amount_offset = 0;
  two_thirds_of = λ x. x * 2 / 3;
  plus = λ x y. x + y;
  times = λ n x. n * x;
  pdn = λ x. x;
}

abbrev pub work : Work ℕ
work = record {
  zero_work = 0;
  add_work = λ w difficulty. w + 2 ^ difficulty;
  is_positive = λ w. ltb 0 w;
}

abbrev pub memory : TransactionInfo → Transaction
memory t = mining_fee 0

-- The block lists the transactions in another order than they are executed in.
abbrev pub block : Block
block = record {
  id = 2;
  timestamp = 1000;
  difficulty = 16;
  transactions = payment 30 2 0 ∷ mining_fee 50 ∷ [];
  last_block_hash = 0;
  merkle_root = 43012;
  nonce = 77;
}

set_items_run : set_items prims stale block.transactions ≡ (transactions, some 43012)
unfolding set_items sort_items insert_item root_of combine fringe get_hash hash_contents copy
    concat_hashes checksum bytes_be bytes_le from_be wallet_address_from_public_key
set_items_run = refl

mining_fee_run : get_current_mining_fee doubles 2 ≡ 50
mining_fee_run = get_current_mining_fee_lem doubles 2 (ground arith)

verify_nonce_run : verify_nonce prims block ≡ true
unfolding verify_nonce verify_hash check_leading_zero_bits leading_bytes bytes_be concat_hashes
verify_nonce_run = refl

-- The same block on a longer chain.
abbrev pub longer : BlockChain ℕ
longer = record chain { num_blocks = 2 }

abbrev pub third : Block
third = record block { id = 3 }

third_fee_run : get_current_mining_fee doubles 3 ≡ 50
third_fee_run = get_current_mining_fee_lem doubles 3 (ground arith)

verify_third_run : verify_nonce prims third ≡ true
unfolding verify_nonce verify_hash check_leading_zero_bits leading_bytes bytes_be concat_hashes
verify_third_run = refl

pub add_third_run :
    (add_block stale memory prims work doubles 2000 third (longer, none)).0 ≡ ok success
unfolding add_block header_status is_too_old after_age execute_sorted after_block commit put_block
    update_difficulty
add_third_run =
    ground (arith, set_items_run, third_fee_run, verify_third_run, execute_third_block_run)

pub add_block_run :
    (add_block stale memory prims work doubles 2000 block (chain, none)).0 ≡ ok success
unfolding add_block header_status is_too_old after_age execute_sorted after_block commit put_block
    update_difficulty
add_block_run = ground (arith, set_items_run, mining_fee_run, verify_nonce_run, execute_block_run)

add_block-Extends_example :
    Extends stale memory prims work doubles block chain
      (add_block stale memory prims work doubles 2000 block (chain, none)).1.0
add_block-Extends_example =
    add_block-Extends stale memory prims work doubles 2000 block chain none add_block_run
