-- ===== src/Fee.antt =====
-- Fees of a block (src/BachiCoin/lib_blockchain/blockchain_config.py).
pub mod Bounds
use bachi_coin.Prelude.{
  ℕ, ◌+◌, ◌-◌, ◌*◌, ◌/◌, max, Bool, true, false, Option, none, some, List, [], ◌∷◌, ltb, ◌==◌,
  if◌then◌else◌, ℤ, pos, ◌+ℤ◌,
}
use bachi_coin.Tx.{Tx}

abbrev pub min_base_fee : ℕ
min_base_fee = 1000000000

abbrev pub elasticity_multiplier : ℕ
elasticity_multiplier = 2

abbrev pub base_fee_max_change_denominator : ℕ
base_fee_max_change_denominator = 8

abbrev pub gas_target_of : ℕ → ℕ
gas_target_of gas_limit = gas_limit / elasticity_multiplier

-- `parent_base_fee * gas_used_delta // gas_target // 8`
unfoldable pub fee_delta : ℕ → ℕ → ℕ → ℕ
fee_delta base_fee delta target = base_fee * delta / target / base_fee_max_change_denominator

-- `calculate_next_base_fee`. `none` is the division by a gas target of 0, which is reached only
-- where the target differs from the gas used.
unfoldable pub calculate_next_base_fee : ℕ → ℕ → ℕ → Option ℕ
unfolding fee_delta
calculate_next_base_fee gas_used gas_limit base_fee =
    let target = gas_target_of gas_limit in
    if gas_used == target
    then some base_fee
    else if target == 0
    then none
    else if ltb target gas_used
    then some (base_fee + max (fee_delta base_fee (gas_used - target) target) 1)
    else some (max (base_fee - fee_delta base_fee (target - gas_used) target) min_base_fee)

-- `calculate_gas_used`: a transaction with no `gas_used` counts 21000. Here `none` is a missing
-- key: a None stored under it is not modelled.
unfoldable pub calculate_gas_used : List Tx → ℕ
calculate_gas_used [] = 0
calculate_gas_used (tx ∷ txs) =
    elim tx.gas_used [ none ↦ 21000 | some n ↦ n ] + calculate_gas_used txs

-- `calculate_total_fees`, with exact sums.
unfoldable pub calculate_total_fees : List Tx → ℤ
calculate_total_fees [] = pos 0
calculate_total_fees (tx ∷ txs) = tx.total_fee +ℤ calculate_total_fees txs
