-- ===== src/RequestManager/Statistics/Hashrate.antt =====
-- getNetworkHashrate on a short chain, and where the times of its window meet.
use pandanite_node.Common.{
  ℕ, zero, suc, ◌+◌, ◌-◌, ◌≤◌, ◌≡◌, true, ltb, ◌==◌, if◌then◌else◌, refl, arith, sym, subst,
}
use pandanite_node.Common.Int.{ℤ, pos, negsuc, ◌-ℤ◌}
use pandanite_node.Common.State.{ok, exits}
use pandanite_node.Block.{BlockHeader}
use pandanite_node.Blockchain.{BlockChain, get_block_header, to_int32}
use pandanite_node.RequestManager.Statistics.{
  Window, to_uint64, read_window, rate, get_network_hashrate,
}

no_time : (a : ℤ) → to_uint64 (a -ℤ a) ≡ 0
unfolding to_uint64 ◌-ℤ◌
no_time (pos n) = ground arith
no_time (negsuc n) = ground arith

abbrev empty : Window
empty = record { total_work = 0; start = pos 0; end = pos 0 }

module _ {W : Type 0} (add_power : ℕ → ℕ → ℕ) where
  rate-exits : (w : Window) (c : BlockChain W) → w.start ≡ w.end → rate add_power (ok w) c ≡ exits
  rate-exits w c e = rw (e, no_time w.end) refl

  short_window :
      (c : BlockChain W) (header : BlockHeader) (count rounds : ℕ)
      → (rounds ≡ 1 → (get_block_header 2 c).0 ≡ ok header)
      → rounds ≤ 1
      → (rounds ≡ 1 → count ≡ 2)
      → rate add_power (read_window add_power 2 count 2 rounds empty c) c ≡ exits
  unfolding read_window
  short_window c header count zero found h one = rate-exits empty c refl
  short_window c header count (suc zero) found h one = rw (found refl) (
      rate-exits
        (record {
          total_work = add_power 0 header.difficulty;
          start = to_int32 header.timestamp;
          end = if 2 == count then to_int32 header.timestamp else pos 0;
        })
        c (ground (arith, one refl)))
  short_window c header count (suc (suc rounds)) found h one = absurd (omega arith)

  -- Asked for the hash rate, a node whose chain has no more than two blocks divides by zero; if it has a
  -- second block, it can read its header.
  pub get_network_hashrate-exits :
      (c : BlockChain W) (header : BlockHeader)
      → c.num_blocks ≤ 2
      → (c.num_blocks ≡ 2 → (get_block_header 2 c).0 ≡ ok header)
      → get_network_hashrate add_power c ≡ exits
  unfolding get_network_hashrate
  get_network_hashrate-exits c header short found =
      let test : ltb c.num_blocks 52 ≡ true = ground arith in
      subst
        (λ b.
          let first : ℕ = if b then 2 else c.num_blocks - 50 in
          rate add_power
            (read_window add_power first c.num_blocks first (c.num_blocks + 1 - first) empty c) c
          ≡ exits)
        (sym test)
        (short_window c header c.num_blocks (c.num_blocks + 1 - 2)
          (λ one. found (omega (arith, one))) (omega arith) (λ one. omega (arith, one)))
