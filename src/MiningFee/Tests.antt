-- ===== src/MiningFee/Tests.antt =====
-- The schedule of the mining fee, with numbers of ten thousandths of a coin in the place of doubles.
use pandanite_node.Common.{ℕ, ◌+◌, ◌*◌, ◌/◌, ◌%◌, ◌≡◌, arith, u32}
use pandanite_node.MiningFee.{Doubles, get_current_mining_fee}
use pandanite_node.MiningFee.Schedule.{reductions, get_current_mining_fee_lem}

abbrev doubles : Doubles ℕ
doubles = record {
  zero_supply = 0;
  initial_amount = 500000;
  amount_offset = 0;
  two_thirds_of = λ x. x * 2 / 3;
  plus = λ x y. x + y;
  times = λ n x. n * x;
  pdn = λ x. x;
}

-- Block 515736 is the first of the second period.
get_current_mining_fee_lem_example :
    get_current_mining_fee doubles 515736 ≡ doubles.pdn (reductions doubles 1 500000) % u32
get_current_mining_fee_lem_example = get_current_mining_fee_lem doubles 515736 (ground arith)
