-- ===== src/HeaderChain.antt =====
-- core/header_chain.cpp: the header chain of a peer. What the peer answers enters as arguments
-- (`none` where the request throws), and so does the arithmetic of the Bigint library on work.
pub mod Verified
pub mod Hashes
mod Tests
use pandanite_node.Common.{
  ℕ, zero, suc, ◌+◌, ◌-◌, ◌%◌, ◌^◌, u64, List, [], ◌∷◌, ◌++◌, Bool, true, false, not, ◌&&◌, ◌||◌,
  ◌==◌, ltb, leb, Option, none, some, if◌then◌else◌, length, last_or, get_elem?, min,
}
use pandanite_node.Common.Dict.{Dict, lookup}
use pandanite_node.Crypto.{Primitives}
use pandanite_node.Transaction.{Transaction}
use pandanite_node.Block.{Block, BlockHeader, block_from_header, verify_nonce}
use pandanite_node.Block

-- BLOCK_HEADERS_PER_FETCH
abbrev pub block_headers_per_fetch : ℕ
block_headers_per_fetch = 2000

pub record HeaderChain (W : Type 0) : Type 0 where
  pub failed : Bool
  pub total_work : W
  pub chain_length : ℕ
  pub block_hashes : List ℕ
  pub check_points : Dict ℕ
  pub banned_hashes : Dict ℕ

-- addWork of core/crypto.cpp, and the work that a chain begins with.
pub record Work (W : Type 0) : Type 0 where
  pub zero_work : W
  pub add_work : W → ℕ → W
  pub is_positive : W → Bool

-- HeaderChain::getHash: NULL_SHA256_HASH from the vector's size on; before its begin (blockId 0)
-- the read is undefined, `none`.
unfoldable pub get_hash : {W : Type 0} → HeaderChain W → ℕ → Option ℕ
get_hash c block_id =
    if leb (length c.block_hashes) block_id
    then some 0
    else elim block_id [ zero ↦ none | suc i ↦ get_elem? c.block_hashes i ]

-- The counter of the loop, an int, as it is compared with a uint64_t. An int that overflows, which C++
-- leaves undefined, goes on with the lowest number.
unfoldable pub to_counter : ℕ → ℕ
to_counter n = let low = n % 2 ^ 32 in if ltb low (2 ^ 31) then low else u64 - 2 ^ 32 + low

module _ {W : Type 0} (work : Work W) where
  unfoldable pub reset : HeaderChain W → HeaderChain W
  reset c = record c {
    failed = false;
    total_work = work.zero_work;
    chain_length = 0;
    block_hashes = [];
  }

  unfoldable pub valid : HeaderChain W → Bool
  valid c = not c.failed && work.is_positive c.total_work

  unfoldable pub get_total_work : HeaderChain W → W
  get_total_work c = if c.failed then work.zero_work else c.total_work

  unfoldable pub get_chain_length : HeaderChain W → ℕ
  get_chain_length c = if c.failed then 0 else c.chain_length

  -- The end of `load`: `this->failed = true; this->reset();`, or `this->failed = false;`.
  unfoldable pub finish_load : HeaderChain W → Option (HeaderChain W) → HeaderChain W
  unfolding reset
  finish_load c none = reset (record c { failed = true })
  finish_load c (some c') = record c' { failed = false }

  module _ (prims : Primitives) where
    -- The tests of a header, in the order of the code; the block is built of it and no transaction.
    is_banned : HeaderChain W → ℕ → ℕ → Bool
    is_banned c curr hash = elim (lookup curr c.banned_hashes) [ none ↦ false | some h ↦ hash == h ]

    misses_checkpoint : HeaderChain W → ℕ → ℕ → Bool
    misses_checkpoint c curr hash = elim (lookup curr c.check_points) [
      | none ↦ false
      | some h ↦ not (hash == h)
    ]

    abbrev pub header_block : BlockHeader → Block
    header_block b = block_from_header (λ t. t.nonce) b []

    unfoldable pub is_refused : HeaderChain W → BlockHeader → Bool
    unfolding is_banned misses_checkpoint
    is_refused c b =
        let block = header_block b in
        let hash = Block.get_hash prims block in
        is_banned c b.id hash
        || (misses_checkpoint c b.id hash
            || (not (verify_nonce prims block)
                || not (block.last_block_hash == last_or 0 c.block_hashes)))

    -- `lastHash` is the last of the hashes, and `numBlocks` their number, throughout.
    unfoldable pub push_header : HeaderChain W → BlockHeader → HeaderChain W
    push_header c b =
        let block = header_block b in
        record c {
          block_hashes = c.block_hashes ++ Block.get_hash prims block ∷ [];
          total_work = work.add_work c.total_work block.difficulty;
          chain_length = length c.block_hashes + 1;
        }

    -- The inner loop; `none` is `failure = true`.
    unfoldable pub load_headers : HeaderChain W → List BlockHeader → Option (HeaderChain W)
    load_headers c [] = some c
    load_headers c (b ∷ headers) =
        let rest = load_headers (push_header c b) headers in if is_refused c b then none else rest

    module _ (read_raw_headers : ℕ → ℕ → Option (List BlockHeader)) where
      -- The outer loop, for at most `rounds` requests; `none` is a failure or an exception.
      unfoldable pub load_rounds : ℕ → ℕ → ℕ → HeaderChain W → Option (HeaderChain W)
      unfolding to_counter
      load_rounds zero i target c = some c
      load_rounds (suc rounds) i target c = elim (leb i target) [
        | false ↦ some c
        | true ↦ elim (read_raw_headers i (min target (i + block_headers_per_fetch - 1))) [
          | none ↦ none
          | some headers ↦ elim (load_headers c headers) [
            | none ↦ none
            | some c' ↦ load_rounds rounds (to_counter (i + block_headers_per_fetch)) target c'
          ]
        ]
      ]

      -- HeaderChain::load, for what getCurrentBlockCount answers. As many rounds as the target are
      -- enough for a target below 2 ^ 64 - 2 ^ 31: the counter begins above 0 and rises, or overflows
      -- to a number above the target.
      unfoldable pub load : Option ℕ → HeaderChain W → HeaderChain W
      unfolding finish_load
      load none c = record c { failed = true }
      load (some target) c =
          finish_load c (load_rounds target (to_counter (length c.block_hashes + 1)) target c)
