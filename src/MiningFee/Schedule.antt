-- ===== src/MiningFee/Schedule.antt =====
-- The schedule of the mining fee.
use pandanite_node.Common.{
  ℕ, zero, suc, ◌+◌, ◌-◌, ◌*◌, ◌/◌, ◌%◌, ◌≤◌, ◌<◌, ◌≡◌, refl, ap, arith, u32, u64,
}
use pandanite_node.MiningFee.{
  Doubles, reduced_amount, get_current_mining_fee, period, get_supply, supply_from,
}

module _ {D : Type 0} (doubles : Doubles D) where
  -- The amount after so many reductions.
  abbrev pub reductions : ℕ → D → D
  reductions zero amount = amount
  reductions (suc n) amount = reductions n (doubles.two_thirds_of amount)

  reduced_amount_lem :
      (fuel logical_block n rest : ℕ) (amount : D)
      → logical_block ≡ n * period + rest
      → rest < period
      → logical_block ≤ fuel
      → reduced_amount doubles fuel logical_block amount ≡ reductions n amount
  unfolding reduced_amount
  reduced_amount_lem zero l zero rest amount e small enough = refl
  reduced_amount_lem zero l (suc n) rest amount e small enough = absurd (omega arith)
  reduced_amount_lem (suc fuel) l zero rest amount e small enough = ground arith
  reduced_amount_lem (suc fuel) l (suc n) rest amount e small enough = ground (
    arith,
    reduced_amount_lem fuel (l - period) n rest (doubles.two_thirds_of amount) (omega arith) small
        (omega arith),
  )

  -- The mining fee of a block is the amount of 50 coins after one reduction to two thirds for every
  -- 666666 blocks of the chain that is pushed ahead by the 150930 blocks of the earlier forks.
  pub get_current_mining_fee_lem :
      (block_id : ℕ)
      → block_id + 150930 < u64
      → get_current_mining_fee doubles block_id
        ≡ doubles.pdn (reductions ((block_id + 150930) / period) doubles.initial_amount) % u32
  unfolding get_current_mining_fee
  get_current_mining_fee_lem block_id h =
      let l = (block_id + 125180 + 7750 + 18000) % u64 in
      ap (λ amount. doubles.pdn amount % u32)
        (reduced_amount_lem l l ((block_id + 150930) / period) ((block_id + 150930) % period)
          doubles.initial_amount (omega arith) (omega arith) (omega arith))

  -- The supply of a number of whole periods, each with its own amount, behind a supply so far.
  abbrev pub minted_in : ℕ → D → D → D
  minted_in zero amount supply = supply
  minted_in (suc n) amount supply =
      minted_in n (doubles.two_thirds_of amount) (doubles.plus supply (doubles.times period amount))

  supply_from_lem :
      (fuel blocks n rest : ℕ) (amount supply : D)
      → blocks ≡ n * period + rest
      → rest < period
      → blocks < fuel
      → supply_from doubles fuel blocks amount supply
        ≡ doubles.plus (minted_in n amount supply) (doubles.times rest (reductions n amount))
  unfolding supply_from
  supply_from_lem zero blocks n rest amount supply e small enough = absurd (omega arith)
  supply_from_lem (suc fuel) blocks zero rest amount supply e small enough =
      let same : blocks ≡ rest = omega arith in ground (arith, same)
  supply_from_lem (suc fuel) blocks (suc n) rest amount supply e small enough = ground (
    arith,
    supply_from_lem fuel (blocks - period) n rest (doubles.two_thirds_of amount)
        (doubles.plus supply (doubles.times period amount)) (omega arith) small (omega arith),
  )

  -- The supply is that of the whole periods of 666666 blocks from the first block on, plus the
  -- blocks of the running period at its amount, plus the coins of the earlier forks. The periods
  -- are counted from block 0, where those of the mining fee are pushed ahead by 150930 blocks.
  pub get_supply_lem :
      (num_blocks : ℕ)
      → get_supply doubles num_blocks
        ≡ doubles.plus
            (doubles.plus
              (minted_in (num_blocks / period) doubles.initial_amount doubles.zero_supply)
              (doubles.times
                (num_blocks % period)
                (reductions (num_blocks / period) doubles.initial_amount)))
            doubles.amount_offset
  unfolding get_supply
  get_supply_lem num_blocks =
      ap (λ supply. doubles.plus supply doubles.amount_offset)
        (supply_from_lem (suc num_blocks) num_blocks (num_blocks / period) (num_blocks % period)
          doubles.initial_amount doubles.zero_supply (omega arith) (omega arith) (omega arith))
