-- ===== src/RequestManager/Statistics.antt =====
-- server/request_manager.cpp: getMineStatus, getNetworkHashrate, and the calls that answer with the JSON of
-- blocks and transactions. getMineStatus builds its block of the JSON of a block.
pub mod Mining
pub mod Hashrate
use Prim.Native.String.{String}
use pandanite_node.Common.{
  ℕ, zero, suc, ◌+◌, ◌-◌, ◌/◌, ◌%◌, List, [], ◌∷◌, Bool, ltb, ◌==◌, if◌then◌else◌, map, u32, u64,
}
use pandanite_node.Common.Int.{ℤ, pos, negsuc, ◌-ℤ◌}
use pandanite_node.Common.State.{Result, ok, throws, Outcome, returns, exits}
use pandanite_node.Common.Results.{◌>>=◌}
use pandanite_node.Helpers.{uint64_to_string}
use pandanite_node.Crypto.{Primitives, wallet_address_to_string}
use pandanite_node.Transaction.{Transaction, copy}
use pandanite_node.Transaction.Buffer.{TransactionInfo}
use pandanite_node.Transaction.Json.{to_json}
use pandanite_node.Block.{Block, BlockHeader}
use pandanite_node.Block.Json.{block_to_json, block_from_json}
use pandanite_node.Blockchain.{BlockChain, get_block, get_block_header, to_int32}
use pandanite_node.Json.{Json}

-- What the loop of getMineStatus adds up; `miner_address` is uninitialised before a mining fee.
pub record MineStatus : Type 0 where
  pub miner_address : ℕ
  pub mint_fee : ℕ
  pub tx_fees : ℕ

unfoldable pub count_fees : List Transaction → MineStatus → MineStatus
count_fees [] s = s
count_fees (t ∷ ts) s = count_fees ts (
    if t.is_transaction_fee
    then record s { miner_address = t.to; mint_fee = t.amount }
    else record s { tx_fees = (s.tx_fees + t.fee) % u64 })

module _ (json : Json) (prims : Primitives) (stale : Transaction → ℕ)
    (memory : TransactionInfo → Transaction) (old : json.Value → Transaction) where
  open json use {Value, null, number, text, array, set}

  abbrev pub mine_status_json : MineStatus → ℕ → Value
  mine_status_json s timestamp =
      set
        (set
          (set (set null "minerWallet" (text (wallet_address_to_string s.miner_address))) "mintFee"
            (number s.mint_fee))
          "txFees" (number s.tx_fees))
        "timestamp" (text (uint64_to_string timestamp))

  module _ {W : Type 0} where
    unfoldable pub get_mine_status : ℕ → ℕ → BlockChain W → Result Value
    unfolding count_fees
    get_mine_status unset block_id c = (get_block stale memory block_id c).0 >>= λ found.
        (block_from_json json prims stale old (block_to_json json prims stale found) >>= λ b. ok (
          mine_status_json
            (count_fees b.transactions
              (record { miner_address = unset; mint_fee = 0; tx_fees = 0 }))
            b.timestamp))

    -- RequestManager::getBlock
    unfoldable pub get_block_json : ℕ → BlockChain W → Result Value
    get_block_json block_id c =
        (get_block stale memory block_id c).0 >>= λ b. ok (block_to_json json prims stale b)

  -- getTransactionQueue and getTransactionsForWallet, for the transactions that the pool or the chain
  -- returns; the second copies each.
  unfoldable pub get_transaction_queue : List Transaction → Value
  get_transaction_queue ts = array (map (to_json json prims) ts)

  unfoldable pub get_transactions_for_wallet : Result (List Transaction) → Result Value
  get_transactions_for_wallet found =
      found >>= λ ts. ok (array (map (λ t. to_json json prims (copy stale t)) ts))

-- The variables of the loop of getNetworkHashrate. Times are uint64_t, converted to int.
pub record Window : Type 0 where
  pub total_work : ℕ
  pub start : ℤ
  pub end : ℤ

-- An int, converted to uint64_t.
unfoldable pub to_uint64 : ℤ → ℕ
to_uint64 (pos n) = n % u64
to_uint64 (negsuc n) = u64 - 1 - n % u64

-- `add_power` is `totalWork += pow(2, difficulty)` on doubles.
module _ {W : Type 0} (add_power : ℕ → ℕ → ℕ) where
  unfoldable pub read_window : ℕ → ℕ → ℕ → ℕ → Window → BlockChain W → Result Window
  unfolding to_int32
  read_window block_start block_end block_id zero w c = ok w
  read_window block_start block_end block_id (suc n) w c =
      (get_block_header block_id c).0 >>= λ header.
      read_window block_start block_end (block_id + 1) n
        (record {
          start = if block_id == block_start then to_int32 header.timestamp else w.start;
          end = if block_id == block_end then to_int32 header.timestamp else w.end;
          total_work = add_power w.total_work header.difficulty;
        })
        c

  -- A division by zero ends the process.
  abbrev pub rate : Result Window → BlockChain W → Outcome (BlockChain W) ℕ
  rate (throws e) c = returns (throws e) c
  rate (ok w) c =
      let elapsed = to_uint64 (w.end -ℤ w.start) in
      if elapsed == 0 then exits else returns (ok (w.total_work / elapsed)) c

  unfoldable pub get_network_hashrate : BlockChain W → Outcome (BlockChain W) ℕ
  unfolding read_window
  get_network_hashrate c =
      let block_start = if ltb c.num_blocks 52 then 2 else c.num_blocks - 50 in
      rate
        (read_window block_start c.num_blocks block_start (c.num_blocks + 1 - block_start)
          (record { total_work = 0; start = pos 0; end = pos 0 }) c)
        c
