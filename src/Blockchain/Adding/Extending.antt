-- ===== src/Blockchain/Adding/Extending.antt =====
-- What BlockChain::addBlock has tested of a block that it accepts, and what it leaves.
use pandanite_node.Common.{
  ℕ, ◌+◌, ◌≡◌, ◌≢◌, true, false, none, some, Option, List, refl, sym, subst, arith, ◌-◌,
  Option-cases, Bool-cases, inl, inr, ◌==◌, Bool, [],
}
use pandanite_node.Common.State.{Result, ok, throws, Keeps, Keeps-bind}
use pandanite_node.Crypto.{Primitives}
use pandanite_node.Transaction.{Transaction}
use pandanite_node.Transaction.Buffer.{TransactionInfo}
use pandanite_node.Block.{Block, verify_nonce}
use pandanite_node.Block
use pandanite_node.Executor.{Exec, ExecutionStatus, success, rollback}
use pandanite_node.Executor.Block.{execute_block}
use pandanite_node.Mempool.{MemPool}
use pandanite_node.MerkleTree.{set_items}
use pandanite_node.MiningFee.{Doubles, get_current_mining_fee}
use pandanite_node.HeaderChain.{Work}
use pandanite_node.Blockchain.{
  difficulty_lookback, BlockChain, get_block, adjust_difficulty, update_difficulty,
}
use pandanite_node.Blockchain.Adding.{
  header_status, put_block, commit, after_block, execute_sorted, after_age, add_block, is_too_old,
  answer,
}

ok_injective : {a b : ExecutionStatus} → ◌≡◌ {A = Result ExecutionStatus} (ok a) (ok b) → a ≡ b
ok_injective e = cc

module _ {W D : Type 0} (stale : Transaction → ℕ) (memory : TransactionInfo → Transaction)
    (prims : Primitives) (work : Work W) (doubles : Doubles D) where
  -- The block continues the chain `c`, and `c'` has it as its top.
  pub record Extends (b : Block) (c c' : BlockChain W) : Type 0 where
    pub next : b.id ≡ c.num_blocks + 1
    pub linked : b.last_block_hash ≡ c.last_hash
    pub worked : verify_nonce prims b ≡ true
    pub rooted : (set_items prims stale b.transactions).1 ≡ some b.merkle_root
    pub counted : c'.num_blocks ≡ c.num_blocks + 1
    pub on_top : c'.last_hash ≡ Block.get_hash prims b
    pub added_up : c'.total_work ≡ work.add_work c.total_work b.difficulty

  pub answer_other :
      (status : ExecutionStatus)
      → status ≢ success
      → (r : Result (Unit {0})) → answer status r ≢ ok success
  answer_other status ne (throws e) h = cc
  answer_other status ne (ok _) h = ne (ok_injective h)

  pub get_block-state : (i : ℕ) (c : BlockChain W) → (get_block stale memory i c).1 ≡ c
  unfolding get_block
  get_block-state i c = ground arith

  -- The members that the top of the chain determines.
  abbrev Top : ℕ → ℕ → W → BlockChain W → Type 0
  Top n h w c = (c.num_blocks ≡ n) × ((c.last_hash ≡ h) × (c.total_work ≡ w))

  adjust_difficulty-Top : (n h : ℕ) (w : W) → Keeps (Top n h w) (adjust_difficulty stale memory)
  unfolding adjust_difficulty
  adjust_difficulty-Top n h w c top =
      Keeps-bind {B = Unit {0}} (Top n h w)
        (get_block stale memory (c.num_blocks - difficulty_lookback)) _
        (λ c top. subst (Top n h w) (sym (get_block-state _ c)) top)
        (λ first.
          Keeps-bind {B = Unit {0}} (Top n h w) (get_block stale memory c.num_blocks) _
            (λ c top. subst (Top n h w) (sym (get_block-state _ c)) top) (λ last c top. top))
        c top

  pub update_difficulty-Top :
      (n h : ℕ) (w : W) (c : BlockChain W)
      → Top n h w c
      → Top n h w (update_difficulty stale memory c).1
  unfolding update_difficulty
  update_difficulty-Top n h w c top = ground (arith, top, adjust_difficulty-Top n h w c top)

  pub header_status-other :
      (network_time : ℕ) (b : Block) (c : BlockChain W)
      → header_status stale memory prims network_time b c ≢ some success
  unfolding header_status
  header_status-other network_time b c = λ e. ground (arith, e)

  pub header_status-passed :
      (network_time : ℕ) (b : Block) (c : BlockChain W)
      → header_status stale memory prims network_time b c ≡ none
      → (b.id ≡ c.num_blocks + 1)
        × ((b.last_block_hash ≡ c.last_hash) × (verify_nonce prims b ≡ true))
  unfolding header_status
  header_status-passed network_time b c e = ground (arith, e)

  commit-Top :
      (b : Block) (c : BlockChain W) (p : Option MemPool)
      → Top
          (c.num_blocks + 1)
          (Block.get_hash prims b)
          (work.add_work c.total_work b.difficulty)
          (commit stale memory prims work doubles b (c, p)).1.0
  unfolding commit put_block
  commit-Top b c p =
      update_difficulty-Top _ _ _ (put_block stale memory prims work doubles b c)
        (refl, (refl, refl))

  after_block-Top :
      (b : Block) (r : Result ExecutionStatus) (s : Exec) (c : BlockChain W) (p : Option MemPool)
      → (after_block stale memory prims work doubles b r s (c, p)).0 ≡ ok success
      → Top
          (c.num_blocks + 1)
          (Block.get_hash prims b)
          (work.add_work c.total_work b.difficulty)
          (after_block stale memory prims work doubles b r s (c, p)).1.0
  unfolding after_block
  after_block-Top b (throws e) s c p h = cc
  after_block-Top b (ok success) s c p h =
      commit-Top b (record c { ledger = s.ledger; invalid_transactions = s.invalid_transactions }) p
  after_block-Top b (ok status) s c p h =
      absurd (answer_other status (λ e. cc) (rollback s.deltas s.ledger).0 h)

  execute_sorted-Top :
      (b : Block) (sorted : List Transaction) (root : ℕ) (c : BlockChain W) (p : Option MemPool)
      → (execute_sorted stale memory prims work doubles b sorted (some root) (c, p)).0 ≡ ok success
      → (b.merkle_root ≡ root)
        × Top
            (c.num_blocks + 1)
            (Block.get_hash prims b)
            (work.add_work c.total_work b.difficulty)
            (execute_sorted stale memory prims work doubles b sorted (some root) (c, p)).1.0
  unfolding execute_sorted Block.get_hash
  execute_sorted-Top b sorted root c p h =
      let (r, s) =
        execute_block prims stale b.id sorted c.txdb (get_current_mining_fee doubles b.id) (record {
          ledger = c.ledger;
          deltas = [];
          invalid_transactions = c.invalid_transactions;
        }) in
      elim (Bool-cases (b.merkle_root == root)) [
        | inr wrong ↦ ground (arith, h, wrong)
        | inl right ↦
            ground (arith, h, right, after_block-Top (record b { transactions = sorted }) r s c p)
      ]

  after_age-Top :
      (b : Block) (r : Result Bool) (c : BlockChain W) (p : Option MemPool)
      → (after_age stale memory prims work doubles b r (c, p)).0 ≡ ok success
      → ((set_items prims stale b.transactions).1 ≡ some b.merkle_root)
        × Top
            (c.num_blocks + 1)
            (Block.get_hash prims b)
            (work.add_work c.total_work b.difficulty)
            (after_age stale memory prims work doubles b r (c, p)).1.0
  unfolding after_age execute_sorted
  after_age-Top b (throws e) c p h = cc
  after_age-Top b (ok true) c p h = cc
  after_age-Top b (ok false) c p h = elim (Option-cases (set_items prims stale b.transactions).1) [
    | inl empty ↦ ground (arith, h, empty)
    | inr (root, e) ↦
        ground (arith, h, e, execute_sorted-Top b (set_items prims stale b.transactions).0 root c p)
  ]

  pub add_block-passed :
      (network_time : ℕ) (b : Block) (c : BlockChain W) (p : Option MemPool)
      → header_status stale memory prims network_time b c ≡ none
      → add_block stale memory prims work doubles network_time b (c, p)
        ≡ after_age stale memory prims work doubles b (is_too_old stale memory prims b c).0 (c, p)
  unfolding add_block
  add_block-passed network_time b c p e = ground (arith, e)

  -- A block that addBlock accepts has the next id, links to the chain's last hash, has a nonce that
  -- verifyNonce accepts from its cache, and the Merkle root that setItems computes of copies of its
  -- transactions; afterwards the chain is one block longer, its last hash is the block's, and the block's
  -- work has been added to its total.
  pub add_block-Extends :
      (network_time : ℕ) (b : Block) (c : BlockChain W) (p : Option MemPool)
      → (add_block stale memory prims work doubles network_time b (c, p)).0 ≡ ok success
      → Extends b c (add_block stale memory prims work doubles network_time b (c, p)).1.0
  unfolding add_block
  add_block-Extends network_time b c p h =
      elim (Option-cases (header_status stale memory prims network_time b c)) [
        | inr (status, e) ↦ absurd (header_status-other network_time b c (ground (arith, h, e)))
        | inl e ↦
            let passed = header_status-passed network_time b c e in
            let done = add_block-passed network_time b c p e in
            let top =
              after_age-Top b (is_too_old stale memory prims b c).0 c p
                (subst (λ r. r.0 ≡ ok success) done h) in
            subst (λ r. Extends b c r.1.0) (sym done)
              (record {
                next = passed.0;
                linked = passed.1.0;
                worked = passed.1.1;
                rooted = top.0;
                counted = top.1.0;
                on_top = top.1.1.0;
                added_up = top.1.1.1;
              })
      ]
