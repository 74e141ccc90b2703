-- ===== src/HeaderChain/Verified.antt =====
-- What a header chain has verified of the headers that it keeps, and how a load ends.
use pandanite_node.Common.{
  ℕ, zero, suc, ◌+◌, ◌≡◌, ◌≢◌, ◌↔◌, refl, subst, List, [], ◌∷◌, ◌++◌, true, false, Option, none,
  some, length, length-append, last_or, arith, Bool-cases, Option-cases, inl, inr, leb, min, ◌-◌,
}
use pandanite_node.Common.Dict.{Dict, lookup}
use pandanite_node.Crypto.{Primitives}
use pandanite_node.Block.{Block, BlockHeader, verify_nonce}
use pandanite_node.Block
use pandanite_node.HeaderChain.{
  HeaderChain, Work, header_block, is_refused, push_header, load_headers, load_rounds, load,
  finish_load, block_headers_per_fetch, to_counter,
}

module _ {W : Type 0} (work : Work W) (prims : Primitives) (banned checkpoints : Dict ℕ) where
  -- The hashes of headers that link to one another from the null hash on, each with a nonce that
  -- verifyNonce accepts, none banned and each as its checkpoint wants it; and the sum of their work.
  pub data Links : List ℕ → W → Type 0 where
    empty : Links [] work.zero_work
    link :
        {hashes : List ℕ} {w : W}
        → Links hashes w
        → (b : BlockHeader) → verify_nonce prims (header_block work prims b) ≡ true
        → b.last_block_hash ≡ last_or 0 hashes
        → ((h : ℕ)
            → lookup b.id banned ≡ some h
            → Block.get_hash prims (header_block work prims b) ≢ h)
        → ((h : ℕ)
            → lookup b.id checkpoints ≡ some h
            → Block.get_hash prims (header_block work prims b) ≡ h)
        → Links
            (hashes ++ Block.get_hash prims (header_block work prims b) ∷ [])
            (work.add_work w b.difficulty)

  pub record Verified (c : HeaderChain W) : Type 0 where
    pub same_banned : c.banned_hashes ≡ banned
    pub same_checkpoints : c.check_points ≡ checkpoints
    pub linked : Links c.block_hashes c.total_work
    pub counted : c.chain_length ≡ length c.block_hashes

  push_header-Verified :
      (c : HeaderChain W) (b : BlockHeader)
      → Verified c
      → is_refused work prims c b ≡ false
      → Verified (push_header work prims c b)
  unfolding is_refused push_header Block.block_from_header
  push_header-Verified c b v e = record {
    same_banned = v.same_banned;
    same_checkpoints = v.same_checkpoints;
    linked =
        link v.linked b (ground (arith, e)) (ground (arith, e))
          (λ h l. ground (arith, e, v.same_banned)) (λ h l. ground (arith, e, v.same_checkpoints));
    counted = omega (
      arith,
      length-append c.block_hashes (Block.get_hash prims (header_block work prims b) ∷ []),
    );
  }

  abbrev IfVerified : Option (HeaderChain W) → Type 0
  IfVerified none = Unit
  IfVerified (some c) = Verified c

  load_headers-Verified :
      (c : HeaderChain W) (headers : List BlockHeader)
      → Verified c
      → IfVerified (load_headers work prims c headers)
  unfolding load_headers
  load_headers-Verified c [] v = v
  load_headers-Verified c (b ∷ headers) v = elim (Bool-cases (is_refused work prims c b)) [
    | inl refused ↦ rw refused tt
    | inr taken ↦ rw taken (
        load_headers-Verified (push_header work prims c b) headers
          (push_header-Verified c b v taken))
  ]

  finish_load-Verified :
      (c : HeaderChain W) (r : Option (HeaderChain W))
      → Verified c
      → IfVerified r
      → Verified (finish_load work c r)
  unfolding finish_load
  finish_load-Verified c none v h = record {
    same_banned = v.same_banned;
    same_checkpoints = v.same_checkpoints;
    linked = empty;
    counted = refl;
  }
  finish_load-Verified c (some c') v h = record {
    same_banned = h.same_banned;
    same_checkpoints = h.same_checkpoints;
    linked = h.linked;
    counted = h.counted;
  }

  module _ (read_raw_headers : ℕ → ℕ → Option (List BlockHeader)) where
    load_rounds-Verified :
        (rounds i target : ℕ) (c : HeaderChain W)
        → Verified c
        → IfVerified (load_rounds work prims read_raw_headers rounds i target c)
    unfolding load_rounds
    load_rounds-Verified zero i target c v = v
    load_rounds-Verified (suc rounds) i target c v = elim (Bool-cases (leb i target)) [
      | inr done ↦ ground (arith, done, v)
      | inl more ↦
          elim (Option-cases (read_raw_headers i (min target (i + block_headers_per_fetch - 1)))) [
            | inl thrown ↦ ground (arith, more, thrown)
            | inr (headers, got) ↦ elim (Option-cases (load_headers work prims c headers)) [
              | inl failure ↦ ground (arith, more, got, failure)
              | inr (c', loaded) ↦ ground (
                arith,
                more,
                got,
                loaded,
                load_rounds-Verified rounds (to_counter (i + block_headers_per_fetch)) target c'
                    (subst IfVerified loaded (load_headers-Verified c headers v)),
              )
            ]
          ]
    ]

    -- Loading keeps a header chain verified, whatever the peer answers: its hashes are those of
    -- headers that link to one another from the null hash on, with nonces that verifyNonce accepts from
    -- its cache, none banned and each as its checkpoint wants it, its total work is the sum of theirs,
    -- and its length their number.
    pub load-Verified :
        (count : Option ℕ) (c : HeaderChain W)
        → Verified c
        → Verified (load work prims read_raw_headers count c)
    unfolding load
    load-Verified none c v = record {
      same_banned = v.same_banned;
      same_checkpoints = v.same_checkpoints;
      linked = v.linked;
      counted = v.counted;
    }
    load-Verified (some target) c v =
        finish_load-Verified c
          (load_rounds work prims read_raw_headers target (to_counter (length c.block_hashes + 1))
            target c)
          v (load_rounds-Verified target (to_counter (length c.block_hashes + 1)) target c v)

module _ {W : Type 0} (work : Work W) (prims : Primitives)
    (read_raw_headers : ℕ → ℕ → Option (List BlockHeader)) where
  finish_load-failed :
      (c : HeaderChain W) (r : Option (HeaderChain W)) → (finish_load work c r).failed ≡ false
  unfolding finish_load
  finish_load-failed c none = refl
  finish_load-failed c (some c') = refl

  -- After a load the chain is marked as failed exactly when the peer's block count could not be
  -- had: a peer that served a bad header is not marked.
  pub load-failed :
      (count : Option ℕ) (c : HeaderChain W)
      → ((load work prims read_raw_headers count c).failed ≡ true) ↔ (count ≡ none)
  unfolding load
  load-failed none c = ((λ _. refl), (λ _. refl))
  load-failed (some target) c = (
    λ e. cc (
        finish_load-failed c (
          load_rounds work prims read_raw_headers target (to_counter (length c.block_hashes + 1))
            target c)),
    λ e. cc,
  )
