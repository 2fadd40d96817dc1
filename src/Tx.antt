-- ===== src/Tx.antt =====
-- Transactions (src/BachiCoin/lib_transaction/tx_config.py) with the fields that the modelled code
-- reads. Amounts are decimals in units of the eighth place, as `_to_decimal` reads them; fees per
-- gas are floats in gwei in the source and whole wei here, so that their sums and comparisons are
-- exact. A `none` is a missing key or `None`.
use bachi_coin.Prelude.{ℕ, ◌+◌, ◌*◌, ◌/◌, Option, ℤ, pos, negsuc, ◌+ℤ◌, ◌-ℤ◌, ltb_ℤ, if◌then◌else◌}
use bachi_coin.Dict.{Key}

-- The values of the enum `TxType`, and any other text.
pub data TxType : Type 0 where
  transfer mint burn pool stake unstake reward slash contract_call contract_deploy : TxType
  governance unknown : TxType

pub record Tx : Type 0 where
  -- 0 is a missing hash
  pub tx_hash : Key
  pub tx_type : TxType
  pub from_address : Option Key
  pub to_address : Option Key
  pub nonce : Option ℕ
  pub amount : ℤ
  pub total_fee : ℤ
  pub max_fee_per_gas : ℤ
  pub max_priority_fee_per_gas : ℤ
  pub gas_limit : ℕ
  pub gas_used : Option ℕ
  pub signature : Option Key

abbrev pub min_ℤ : ℤ → ℤ → ℤ
min_ℤ a b = if ltb_ℤ b a then b else a

-- `TxConfig.calculate_effective_gas_price`
unfoldable pub calculate_effective_gas_price : ℤ → ℤ → ℤ → ℤ
calculate_effective_gas_price max_fee max_priority base_fee =
    min_ℤ max_priority (max_fee -ℤ base_fee) +ℤ base_fee

-- Wei to units of the eighth place, to the nearest one. A tie goes up here; a fee in whole tenths of
-- a gwei and gas in hundreds give none.
abbrev to_units : ℕ → ℕ
to_units n = (n + 5000000000) / 10000000000

-- `TxConfig.calculate_total_fee`
unfoldable pub calculate_total_fee : ℕ → ℤ → ℤ
calculate_total_fee gas_used (pos price) = pos (to_units (gas_used * price))
calculate_total_fee gas_used (negsuc n) = pos 0 -ℤ pos (to_units (gas_used * (n + 1)))

-- The values of the enum `Priority`, and any other text.
pub data Priority : Type 0 where
  slow standard fast urgent other : Priority

pub record Fees : Type 0 where
  pub max_fee_per_gas : ℤ
  pub max_priority_fee_per_gas : ℤ

abbrev pub gwei : ℕ → ℤ
gwei n = pos (n * 1000000000)

-- `TxConfig.FEE_DEFAULTS`, where an unknown priority has the entry of "standard".
unfoldable pub fee_defaults : Priority → Fees
fee_defaults Priority.slow = record { max_fee_per_gas = gwei 20; max_priority_fee_per_gas = gwei 1 }
fee_defaults Priority.fast = record { max_fee_per_gas = gwei 80; max_priority_fee_per_gas = gwei 5 }
fee_defaults Priority.urgent = record {
  max_fee_per_gas = gwei 200;
  max_priority_fee_per_gas = gwei 10;
}
fee_defaults _ = record { max_fee_per_gas = gwei 40; max_priority_fee_per_gas = gwei 2 }
