-- ===== src/Fee/Bounds.antt =====
-- How far the base fee moves from one block to the next, and in which direction.
use native.Mathlib.Nat.{div-le_of_le-mul}
use bachi_coin.Prelude.{
  ℕ, ◌+◌, ◌-◌, ◌*◌, ◌/◌, ◌≤◌, ◌<◌, max, ◌≡◌, some, arith, ltb, ◌==◌, Bool-cases, inl, inr,
}
use bachi_coin.Fee.{gas_target_of, fee_delta, calculate_next_base_fee, min_base_fee}

-- A delta of at most the target moves the fee by at most an eighth.
fee_delta-le :
    (base_fee delta target : ℕ) → delta ≤ target → fee_delta base_fee delta target * 8 ≤ base_fee
unfolding fee_delta
fee_delta-le base_fee delta target h =
    let product : base_fee * delta ≤ target * base_fee = grind arith in
    omega (arith, div-le_of_le-mul target product)

-- What the next base fee is held against the last one.
pub record NextFee (gas_used gas_limit base_fee next : ℕ) : Type 0 where
  -- one eighth up at most, or one wei
  pub up : next ≤ base_fee + max (base_fee / 8) 1
  -- one eighth down at most
  pub down : base_fee ≤ next + base_fee / 8
  -- above the target the fee rises
  pub rises : gas_target_of gas_limit < gas_used → base_fee < next
  -- below it, it does not
  pub falls : gas_used < gas_target_of gas_limit → next ≤ max base_fee min_base_fee
  pub floor : min_base_fee ≤ next

module _ (gas_used gas_limit base_fee : ℕ) where
  same-eq :
      gas_used ≡ gas_target_of gas_limit
      → calculate_next_base_fee gas_used gas_limit base_fee ≡ some base_fee
  unfolding calculate_next_base_fee
  same-eq e = ground (arith, e)

  up-eq :
      0 < gas_target_of gas_limit
      → gas_target_of gas_limit < gas_used
      → calculate_next_base_fee gas_used gas_limit base_fee
        ≡ some (
            base_fee
            + max
                (fee_delta base_fee (gas_used - gas_target_of gas_limit) (gas_target_of gas_limit))
                1)
  unfolding calculate_next_base_fee
  up-eq p e = ground arith

  down-eq :
      gas_used < gas_target_of gas_limit
      → calculate_next_base_fee gas_used gas_limit base_fee
        ≡ some (
            max
              (base_fee
                - fee_delta base_fee (gas_target_of gas_limit - gas_used) (gas_target_of gas_limit))
              min_base_fee)
  unfolding calculate_next_base_fee
  down-eq e = ground arith

  -- For a block whose gas target is above zero and that used at most twice the target, and a base
  -- fee of at least the minimum, there is a next base fee: it is at most an eighth, or one wei,
  -- above the last one and at most an eighth below it; it rises when more gas than the target was
  -- used, falls or stays when less was, and is never below the minimum.
  pub calculate_next_base_fee-NextFee :
      0 < gas_target_of gas_limit
      → gas_used ≤ gas_target_of gas_limit * 2
      → min_base_fee ≤ base_fee
      → (next : ℕ) × (calculate_next_base_fee gas_used gas_limit base_fee ≡ some next)
        × NextFee gas_used gas_limit base_fee next
  calculate_next_base_fee-NextFee p q m =
      let g = gas_target_of gas_limit in
      elim (Bool-cases (gas_used == g)) [
        | inl same ↦ (
          base_fee,
          same-eq (ground arith),
          record {
            up = omega arith;
            down = omega arith;
            rises = λ h. ground arith;
            falls = λ h. omega arith;
            floor = omega arith;
          },
        )
        | inr other ↦ elim (Bool-cases (ltb g gas_used)) [
          | inl above ↦
              let d = fee_delta-le base_fee (gas_used - g) g (omega arith) in
              (
                base_fee + max (fee_delta base_fee (gas_used - g) g) 1,
                up-eq p (ground arith),
                record {
                  up = omega arith;
                  down = omega arith;
                  rises = λ h. omega arith;
                  falls = λ h. ground arith;
                  floor = omega arith;
                },
              )
          | inr below ↦
              let d = fee_delta-le base_fee (g - gas_used) g (omega arith) in
              (
                max (base_fee - fee_delta base_fee (g - gas_used) g) min_base_fee,
                down-eq (ground arith),
                record {
                  up = omega arith;
                  down = omega arith;
                  rises = λ h. ground arith;
                  falls = λ h. omega arith;
                  floor = omega arith;
                },
              )
        ]
      ]
