-- ===== src/Blockchain/Syncing/Restart.antt =====
-- server/blockchain.cpp: what a node that starts again finds of the chain in its stores.
use pandanite_node.Common.{
  ℕ, zero, suc, ◌+◌, ◌-◌, ◌≡◌, false, none, some, Option, refl, sym, ap, ◌∙◌, subst, arith, map,
}
use pandanite_node.Common.State.{ok, returns, Keeps, Keeps-bind}
use pandanite_node.Crypto.{Primitives}
use pandanite_node.Transaction.{Transaction, copy}
use pandanite_node.Transaction.Buffer.{TransactionInfo, serialize, transaction_from_info}
use pandanite_node.Block.{Block, block_from_header}
use pandanite_node.Block
use pandanite_node.BlockStore.{BlockStore, set_block, set_block_count, set_total_work}
use pandanite_node.BlockStore
use pandanite_node.BlockStore.Reading.{get_block_header-set_block, get_block_transactions-set_block}
use pandanite_node.Mempool.{MemPool}
use pandanite_node.MiningFee.{Doubles}
use pandanite_node.HeaderChain.{Work}
use pandanite_node.Blockchain.{
  BlockChain, difficulty_lookback, get_block, adjust_difficulty, update_difficulty,
}
use pandanite_node.Blockchain.Adding.{put_block, commit}
use pandanite_node.Blockchain.Adding.Extending.{get_block-state}
use pandanite_node.Blockchain.Syncing.{init_chain, opened}

module _ {W D : Type 0} (stale : Transaction → ℕ) (memory : TransactionInfo → Transaction)
    (prims : Primitives) (work : Work W) (doubles : Doubles D) where
  -- All of a chain but its difficulty.
  abbrev pub Others : BlockChain W → BlockChain W → Type 0
  Others c c' = record c' { difficulty = 0 } ≡ record c { difficulty = 0 }

  adjust_difficulty-Others : (c : BlockChain W) → Keeps (Others c) (adjust_difficulty stale memory)
  unfolding adjust_difficulty
  adjust_difficulty-Others c x same =
      Keeps-bind {B = Unit {0}} (Others c)
        (get_block stale memory (x.num_blocks - difficulty_lookback)) _
        (λ x same.
          subst (Others c) (sym (get_block-state stale memory prims work doubles _ x)) same)
        (λ first.
          Keeps-bind {B = Unit {0}} (Others c) (get_block stale memory x.num_blocks) _
            (λ x same.
              subst (Others c) (sym (get_block-state stale memory prims work doubles _ x)) same)
            (λ last x same. same))
        x same

  pub update_difficulty-Others : (c : BlockChain W) → Others c (update_difficulty stale memory c).1
  unfolding update_difficulty
  update_difficulty-Others c = ground (arith, adjust_difficulty-Others c c refl)

  -- The block that the store gives back for the chain's top.
  abbrev pub read_back : Block → Block
  read_back b =
      block_from_header stale (Block.serialize b)
        (map (λ t. copy stale (transaction_from_info (memory t) t)) (map serialize b.transactions))

  read_transactions-same :
      (id idx n : ℕ) (s s' : BlockStore W)
      → s'.transactions ≡ s.transactions
      → BlockStore.read_transactions id idx n s' ≡ BlockStore.read_transactions id idx n s
  unfolding BlockStore.read_transactions
  read_transactions-same id idx zero s s' e = refl
  read_transactions-same id idx (suc n) s s' e =
      ground (arith, e, read_transactions-same id (idx + 1) n s s' e)

  get_block-found :
      (id : ℕ) (b : Block) (s : BlockStore W)
      → BlockStore.get_block_header id s ≡ some (Block.serialize b)
      → BlockStore.get_block_transactions (Block.serialize b) s
        ≡ some (map serialize b.transactions)
      → BlockStore.get_block stale memory id s ≡ some (read_back b)
  unfolding BlockStore.get_block
  get_block-found id b s header transactions = ground (arith, header, transactions)

  pub get_block-put_block :
      (b : Block) (c : BlockChain W)
      → BlockStore.get_block stale memory b.id
          (put_block stale memory prims work doubles b c).block_store
        ≡ some (read_back b)
  unfolding put_block BlockStore.get_block_header BlockStore.get_block_transactions set_block_count
      set_total_work
  get_block-put_block b c =
      get_block-found b.id b (put_block stale memory prims work doubles b c).block_store
        (get_block_header-set_block prims b c.block_store)
        (read_transactions-same _ 0 _ (set_block prims b c.block_store) _ refl
          ∙ get_block_transactions-set_block prims b c.block_store)

  -- What the last block leaves in the chain `c`, in an object that has opened the same stores.
  abbrev pub found_again : Block → BlockChain W → BlockChain W → BlockChain W
  found_again b new c = record (opened new c) {
    syncing = false;
    num_blocks = c.num_blocks;
    total_work = c.total_work;
    last_hash = c.last_hash;
    difficulty = b.difficulty;
  }

  init_chain-put_block :
      (time difficulty : ℕ) (genesis : Option Block) (b : Block) (c new : BlockChain W)
      → b.id ≡ c.num_blocks + 1
      → let x = record (put_block stale memory prims work doubles b c) {
        difficulty = difficulty;
      } in
        init_chain stale memory prims work doubles time genesis (opened new x, none)
        ≡ returns (ok tt) (found_again b new x, none)
  unfolding init_chain put_block BlockStore.get_block_count BlockStore.get_total_work
      set_block_count set_total_work Block.get_hash Block.serialize block_from_header
  init_chain-put_block time difficulty genesis b c new next =
      let found =
        subst
          (λ n.
            BlockStore.get_block stale memory n
              (put_block stale memory prims work doubles b c).block_store
            ≡ some (read_back b))
          next (get_block-put_block b c) in
      rw found refl

  -- A node that starts again after a block was added opens the stores in a new object, whatever its
  -- members hold, and finds the length of the chain, its work and its last hash as they were; the
  -- difficulty is that of the last block, and an adjustment that followed the block is lost. The block
  -- had the next id.
  pub init_chain-commit :
      (time : ℕ) (genesis : Option Block) (b : Block) (c new : BlockChain W) (p : Option MemPool)
      → b.id ≡ c.num_blocks + 1
      → let c' = (commit stale memory prims work doubles b (c, p)).1.0 in
        init_chain stale memory prims work doubles time genesis (opened new c', none)
        ≡ returns (ok tt) (found_again b new c', none)
  unfolding commit
  init_chain-commit time genesis b c new p next =
      let put = put_block stale memory prims work doubles b c in
      let c' = (update_difficulty stale memory put).1 in
      subst
        (λ x.
          init_chain stale memory prims work doubles time genesis (opened new x, none)
          ≡ returns (ok tt) (found_again b new x, none))
        (ap {A = BlockChain W} (λ x. record x { difficulty = c'.difficulty })
          (sym (update_difficulty-Others put)))
        (init_chain-put_block time c'.difficulty genesis b c new next)
