-- ===== src/Server/Queries.antt =====
-- server/server.cpp: the handlers of GET requests that answer with JSON. A handler gets the texts of its
-- query, empty where a parameter is missing, and calls the manager; what it throws is caught, and then
-- some handlers send an empty text, and some send nothing.
pub mod Numbers
mod Tests
use Prim.Native.String.{String}
use pandanite_node.Common.{
  ℕ, ◌%◌, List, Bool, true, false, ◌||◌, leb, ltb, ◌==◌, Option, none, some, length, if◌then◌else◌,
  u32,
}
use pandanite_node.Common.Int.{ℤ, pos, negsuc}
use pandanite_node.Common.State.{Result, ok, throws}
use pandanite_node.Common.Results.{◌>>=◌}
use pandanite_node.Helpers.{uint64_to_string, stoi}
use pandanite_node.Crypto.{Primitives, string_to_wallet_address}
use pandanite_node.Transaction.{Transaction}
use pandanite_node.Transaction.Buffer.{TransactionInfo}
use pandanite_node.Blockchain.{BlockChain}
use pandanite_node.Blockchain.Wallets
use pandanite_node.RequestManager.{get_ledger}
use pandanite_node.RequestManager.Statistics.{
  get_block_json, get_mine_status, get_transactions_for_wallet,
}
use pandanite_node.Json.{Json, object_of}

-- What is sent: JSON, an empty text, or nothing, so that the response is never ended.
pub data Answer (V : Type 0) : Type 0 where
  sent : V → Answer V
  empty silent : Answer V

-- The handlers that send an empty text for an exception, and those that send nothing.
abbrev pub or_empty : {V : Type 0} → Result V → Answer V
or_empty (ok v) = sent v
or_empty (throws e) = empty

abbrev pub or_silent : {V : Type 0} → Result V → Answer V
or_silent (ok v) = sent v
or_silent (throws e) = silent

module _ (json : Json) where
  open json use {Value, null, number, set}

  abbrev pub no_query : Value
  no_query = object_of json "error" "No query parameters specified"

  abbrev pub invalid_block_answer : Value
  invalid_block_answer = object_of json "error" "Invalid Block"

  -- `blockId <= 0 || blockId > count`, and the call of the manager for the others.
  abbrev pub numbered : (ℕ → Result Value) → ℤ → ℤ → Result Value
  numbered call (pos id) (pos count) =
      if leb id 0 || ltb count id then ok invalid_block_answer else call id
  numbered call id count = ok invalid_block_answer

  -- The number of blocks goes through a text.
  unfoldable pub ask_block : (ℕ → Result Value) → List ℕ → ℕ → Result Value
  ask_block call text num_blocks =
      stoi text >>= λ id. (stoi (uint64_to_string num_blocks) >>= λ count. numbered call id count)

  -- RequestManager::getLedger as JSON.
  abbrev pub ledger_json : Option (Result ℕ) → Result Value
  ledger_json none = ok (object_of json "error" "Wallet not found")
  ledger_json (some balance) = balance >>= λ value. ok (set null "balance" (number value))

  abbrev pub ask_ledger : {W : Type 0} → List ℕ → BlockChain W → Result Value
  ask_ledger wallet c = string_to_wallet_address wallet >>= λ w. ledger_json (get_ledger w c)

  -- /ledger, and the route with the wallet in the path.
  unfoldable pub ledger_handler : {W : Type 0} → List ℕ → BlockChain W → Answer Value
  unfolding get_ledger
  ledger_handler query c =
      if length query == 0 then sent no_query else or_silent (ask_ledger query c)

  unfoldable pub ledger_handler_deprecated : {W : Type 0} → List ℕ → BlockChain W → Answer Value
  unfolding get_ledger
  ledger_handler_deprecated parameter c = or_silent (ask_ledger parameter c)

  module _ {W : Type 0} (prims : Primitives) (stale : Transaction → ℕ)
      (memory : TransactionInfo → Transaction) (old : Value → Transaction) where
    -- /block and /mine_status; the routes with the number in the path do not test for an empty text.
    unfoldable pub block_handler : List ℕ → BlockChain W → Answer Value
    block_handler query c =
        if length query == 0
        then sent no_query
        else or_empty
            (ask_block (λ id. get_block_json json prims stale memory old id c) query c.num_blocks)

    unfoldable pub block_handler_deprecated : List ℕ → BlockChain W → Answer Value
    block_handler_deprecated parameter c =
        or_empty
          (ask_block (λ id. get_block_json json prims stale memory old id c) parameter c.num_blocks)

    unfoldable pub mine_status_handler : ℕ → List ℕ → BlockChain W → Answer Value
    mine_status_handler unset query c =
        if length query == 0
        then sent no_query
        else or_empty (
            ask_block (λ id. get_mine_status json prims stale memory old unset id c) query
              c.num_blocks)

    unfoldable pub mine_status_handler_deprecated : ℕ → List ℕ → BlockChain W → Answer Value
    mine_status_handler_deprecated unset parameter c = or_empty (
        ask_block (λ id. get_mine_status json prims stale memory old unset id c) parameter
          c.num_blocks)

    -- /wallet_transactions
    unfoldable pub wallet_handler : List ℕ → BlockChain W → Answer Value
    unfolding get_transactions_for_wallet
    wallet_handler query c =
        if length query == 0
        then sent no_query
        else or_silent (
            string_to_wallet_address query >>= λ w.
            get_transactions_for_wallet json prims stale memory old
              (Wallets.get_transactions_for_wallet stale prims memory w c))
