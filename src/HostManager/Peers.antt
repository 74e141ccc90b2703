-- ===== src/HostManager/Peers.antt =====
-- core/host_manager.cpp: the best peer, by the work of its header chain.
use pandanite_node.Common.{
  ℕ, List, [], ◌∷◌, Bool, true, false, if◌then◌else◌, ◌≡◌, ◌⊎◌, inl, inr, All, refl,
}
use pandanite_node.HeaderChain.{Work, get_total_work, get_chain_length}
use pandanite_node.HostManager.{HostManager, Peer, best_peer, get_block_count}
use pandanite_node.HostManager

-- What the comparison of the Bigint library promises, of which `gt` is the greater-than.
pub record IsOrder {W : Type 0} (gt : W → W → Bool) : Type 0 where
  pub gt_irrefl : (a : W) → gt a a ≡ false
  pub gt_asym : (a b : W) → gt a b ≡ true → gt b a ≡ false
  pub gt_trans : (a b c : W) → gt a b ≡ false → gt b c ≡ false → gt a c ≡ false

module _ {W : Type 0} (work : Work W) (gt : W → W → Bool) where
  -- A length and a work that are those of one of the peers; no peer has more work than `w`.
  abbrev pub IsPeer : ℕ × W → List (Peer W) → Type 0
  IsPeer best [] = ⊥
  IsPeer best (p ∷ peers) =
      (best ≡ (get_chain_length work p.chain, get_total_work work p.chain)) ⊎ IsPeer best peers

  abbrev pub HasNoMore : W → List (Peer W) → Type 0
  HasNoMore w = All (λ p. gt (get_total_work work p.chain) w ≡ false)

  abbrev own : Peer W → ℕ × W
  own p = (get_chain_length work p.chain, get_total_work work p.chain)

  module _ (order : IsOrder gt) where
    -- A round of the loop keeps the greater of the two works.
    round :
        (p : Peer W) (best : ℕ × W) (more : Bool)
        → gt (own p).1 best.1 ≡ more
        → (gt best.1 (if more then own p else best).1 ≡ false)
          × (gt (own p).1 (if more then own p else best).1 ≡ false)
    round p best true e = (order.gt_asym (own p).1 best.1 e, order.gt_irrefl (own p).1)
    round p best false e = (order.gt_irrefl best.1, e)

    best_peer-HasNoMore :
        (peers : List (Peer W)) (best : ℕ × W)
        → (gt best.1 (best_peer work gt peers best).1 ≡ false)
          × HasNoMore (best_peer work gt peers best).1 peers
    unfolding best_peer
    best_peer-HasNoMore [] best = (order.gt_irrefl best.1, tt)
    best_peer-HasNoMore (p ∷ peers) best =
        let next = if gt (own p).1 best.1 then own p else best in
        let result = (best_peer work gt peers next).1 in
        let facts = round p best (gt (own p).1 best.1) refl in
        let rest = best_peer-HasNoMore peers next in
        (
          order.gt_trans best.1 next.1 result facts.0 rest.0,
          (order.gt_trans (own p).1 next.1 result facts.1 rest.0, rest.1),
        )

  -- The best is what the loop began with, or a peer's.
  IsPeer-next :
      (p : Peer W) (peers : List (Peer W)) (best result : ℕ × W) (more : Bool)
      → (result ≡ (if more then own p else best)) ⊎ IsPeer result peers
      → (result ≡ best) ⊎ IsPeer result (p ∷ peers)
  IsPeer-next p peers best result more (inr is) = inr (inr is)
  IsPeer-next p peers best result true (inl e) = inr (inl e)
  IsPeer-next p peers best result false (inl e) = inl e

  best_peer-IsPeer :
      (peers : List (Peer W)) (best : ℕ × W)
      → (best_peer work gt peers best ≡ best) ⊎ IsPeer (best_peer work gt peers best) peers
  unfolding best_peer
  best_peer-IsPeer [] best = inl refl
  best_peer-IsPeer (p ∷ peers) best =
      let more = gt (own p).1 best.1 in
      let next = if more then own p else best in
      IsPeer-next p peers best (best_peer work gt peers next) more (best_peer-IsPeer peers next)

  -- The block count, and the total work.
  abbrev pub best : HostManager W → ℕ × W
  best m = (get_block_count work gt m, HostManager.get_total_work work gt m)

  -- No peer has more work than the total work, and the block count goes with it: both are those of one
  -- peer, or zero where there is none with work. The comparison of works is an order.
  pub get_block_count-get_total_work :
      (m : HostManager W)
      → IsOrder gt
      → HasNoMore (HostManager.get_total_work work gt m) m.curr_peers
        × ((best m ≡ (0, work.zero_work)) ⊎ IsPeer (best m) m.curr_peers)
  unfolding get_block_count HostManager.get_total_work
  get_block_count-get_total_work m order = (
    (best_peer-HasNoMore order m.curr_peers (0, work.zero_work)).1,
    best_peer-IsPeer m.curr_peers (0, work.zero_work),
  )
