-- ===== src/Server/Queries/Numbers.antt =====
-- The answers to requests for a block by its number, and for a wallet.
use pandanite_node.Common.{
  ℕ, ◌^◌, ◌<◌, ◌≡◌, ◌≢◌, List, Bool, true, false, ◌||◌, leb, ltb, length, if◌then◌else◌, refl,
  arith,
}
use pandanite_node.Common.State.{Result, ok}
use pandanite_node.Common.Results.{◌>>=◌}
use pandanite_node.Helpers.{uint64_to_string}
use pandanite_node.Helpers.Decimal.{stoi-uint64_to_string, uint64_to_string-ne}
use pandanite_node.Crypto.{Primitives, string_to_wallet_address}
use pandanite_node.Transaction.{Transaction}
use pandanite_node.Transaction.Buffer.{TransactionInfo}
use pandanite_node.Block.Json.{block_to_json}
use pandanite_node.Blockchain.{BlockChain, get_block}
use pandanite_node.RequestManager.Statistics.{get_block_json}
use pandanite_node.Json.{Json}
use pandanite_node.Server.Queries.{
  sent, silent, or_empty, ask_block, invalid_block_answer, block_handler, ledger_handler,
}

module _ (json : Json) where
  ask_block_lem :
      (call : ℕ → Result json.Value) (id num_blocks : ℕ)
      → id < 2 ^ 31
      → num_blocks < 2 ^ 31
      → ask_block json call (uint64_to_string id) num_blocks
        ≡ (if leb id 0 || ltb num_blocks id then ok (invalid_block_answer json) else call id)
  unfolding ask_block
  ask_block_lem call id num_blocks h hn =
      rw (stoi-uint64_to_string id h, stoi-uint64_to_string num_blocks hn) refl

  pushed :
      (test : Bool) (found : Result json.Value)
      → or_empty (if test then ok (invalid_block_answer json) else found)
        ≡ (if test then sent (invalid_block_answer json) else or_empty found)
  pushed true found = refl
  pushed false found = refl

  module _ {W : Type 0} (prims : Primitives) (stale : Transaction → ℕ)
      (memory : TransactionInfo → Transaction) (old : json.Value → Transaction) where
    -- What /block answers to a number that is written in decimal: an error for 0 and for a number above
    -- that of the blocks, the JSON of the block that the chain has under it, and an empty text where
    -- reading the block throws. The numbers are below 2 ^ 31.
    pub block_handler_lem :
        (id : ℕ) (c : BlockChain W)
        → id < 2 ^ 31
        → c.num_blocks < 2 ^ 31
        → block_handler json prims stale memory old (uint64_to_string id) c ≡ (
            if leb id 0 || ltb c.num_blocks id
            then sent (invalid_block_answer json)
            else or_empty
                ((get_block stale memory id c).0 >>= λ b. ok (block_to_json json prims stale b)))
    unfolding block_handler get_block_json
    block_handler_lem id c h hn =
        let test = leb id 0 || ltb c.num_blocks id in
        let found = get_block_json json prims stale memory old id c in
        rw
          (
            uint64_to_string-ne id,
            ask_block_lem (λ i. get_block_json json prims stale memory old i c) id c.num_blocks h
                hn,
          )
          (pushed test found)

  -- A wallet that is not spelled by 50 characters is never answered: the exception is caught, and the
  -- response is not ended.
  pub ledger_handler-silent :
      {W : Type 0} (query : List ℕ) (c : BlockChain W)
      → length query ≢ 0
      → length query ≢ 50
      → ledger_handler json query c ≡ silent
  unfolding ledger_handler string_to_wallet_address
  ledger_handler-silent query c some_text wrong = ground arith
