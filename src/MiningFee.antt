-- ===== src/MiningFee.antt =====
-- getCurrentMiningFee and getSupply of server/blockchain.cpp. Arithmetic on doubles enters as the
-- fields of `Doubles`.
pub mod Schedule
mod Tests
use pandanite_node.Common.{ℕ, zero, suc, ◌+◌, ◌-◌, ◌%◌, leb, if◌then◌else◌, u32, u64}

-- A double's constants and operations in the source's spelling; PDN of core/helpers.cpp casts to
-- an amount.
pub record Doubles (D : Type 0) : Type 0 where
  pub zero_supply : D
  pub initial_amount : D
  pub amount_offset : D
  pub two_thirds_of : D → D
  pub plus : D → D → D
  pub times : ℕ → D → D
  pub pdn : D → ℕ

-- The blocks between two reductions.
abbrev pub period : ℕ
period = 666666

module _ {D : Type 0} (doubles : Doubles D) where
  -- `while (logicalBlock >= 666666)`, with fuel
  unfoldable pub reduced_amount : ℕ → ℕ → D → D
  reduced_amount zero logical_block amount = amount
  reduced_amount (suc fuel) logical_block amount =
      let rest = reduced_amount fuel (logical_block - period) (doubles.two_thirds_of amount) in
      if leb period logical_block then rest else amount

  -- The chain is pushed ahead by the lengths of earlier forks. Each round takes at least one block
  -- off, so the logical block is enough fuel. The amount is returned as a uint32_t.
  unfoldable pub get_current_mining_fee : ℕ → ℕ
  unfolding reduced_amount
  get_current_mining_fee block_id =
      let logical_block = (block_id + 125180 + 7750 + 18000) % u64 in
      doubles.pdn (reduced_amount logical_block logical_block doubles.initial_amount) % u32

  -- The loop of getSupply, with fuel: `supply += 666666 * amount`.
  unfoldable pub supply_from : ℕ → ℕ → D → D → D
  supply_from zero blocks amount supply = supply
  supply_from (suc fuel) blocks amount supply =
      let rest =
        supply_from fuel (blocks - period) (doubles.two_thirds_of amount)
          (doubles.plus supply (doubles.times period amount)) in
      if leb period blocks then rest else doubles.plus supply (doubles.times blocks amount)

  unfoldable pub get_supply : ℕ → D
  unfolding supply_from
  get_supply num_blocks =
      doubles.plus
        (supply_from (suc num_blocks) num_blocks doubles.initial_amount doubles.zero_supply)
        doubles.amount_offset
