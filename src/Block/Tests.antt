-- ===== src/Block/Tests.antt =====
-- The calculations on concrete headers with the mainnet parameters, and the theorems applied to them.
use moola_fix.Common.{
  ℕ, ◌+◌, ◌/◌, ◌≤◌, ◌<◌, ◌≡◌, ◌↔◌, refl, true, none, max, ok, err, arith, ltb, ◌==◌, if◌then◌else◌,
}
use moola_fix.Block.Header.{
  Header, GasConfig, PowConfig, byzantium, division_by_zero, div, calc_next_base_fee,
  validate_gas_limit, clamped, factor, bomb_number, bomb, canonical_difficulty,
}
use moola_fix.Block.Header.BaseFee.{target, calc_next_base_fee_bounds}
use moola_fix.Block.Header.GasLimit.{distance, compared, validate_gas_limit_iff}
use moola_fix.Block.Header.Difficulty.{at_time, canonical_difficulty_antitone}

abbrev gas_config : GasConfig
gas_config = record {
  elasticity_multiplier = 2;
  base_fee_max_change_denominator = 8;
  gas_limit_bound_divisor = 1024;
  min_gas_limit = 5000;
}

abbrev pow_config : PowConfig
pow_config = record {
  minimum_difficulty = 131072;
  difficulty_bound_divisor = 2048;
  difficulty_bomb_delay = 3000000;
  duration_limit = 13;
}

abbrev parent : Header
parent = record {
  number = 4000000;
  timestamp = 1000;
  difficulty = 2048000;
  gas_limit = 30000000;
  gas_used = 20000000;
  base_fee_per_gas = 800;
  no_uncles = true;
}

abbrev child : Header
child = record (parent) { number = 4000001; timestamp = 1010 }

base_fee_test : calc_next_base_fee gas_config true parent ≡ ok 833
unfolding calc_next_base_fee div
base_fee_test = refl

no_limit_test :
    calc_next_base_fee gas_config true (record (parent) { gas_limit = 0 }) ≡ err division_by_zero
unfolding calc_next_base_fee div
no_limit_test = refl

gas_limit_test : validate_gas_limit gas_config none child parent ≡ ok true
unfolding validate_gas_limit div
gas_limit_test = refl

difficulty_test : canonical_difficulty pow_config true true byzantium child parent ≡ ok 2048256
unfolding canonical_difficulty div factor clamped bomb bomb_number
difficulty_test = refl

calc_next_base_fee_bounds_example :
    (fee : ℕ) × (calc_next_base_fee gas_config true parent ≡ ok fee)
    × (if target gas_config parent == parent.gas_used
        then fee ≡ parent.base_fee_per_gas
        else if ltb (target gas_config parent) parent.gas_used
        then (parent.base_fee_per_gas < fee)
          × (fee ≤ parent.base_fee_per_gas + max (parent.base_fee_per_gas / 8) 1)
        else (fee ≤ parent.base_fee_per_gas)
          × (parent.base_fee_per_gas ≤ fee + parent.base_fee_per_gas / 8))
calc_next_base_fee_bounds_example =
    calc_next_base_fee_bounds gas_config parent (omega arith) (omega arith) (omega arith)
      (omega arith)

validate_gas_limit_example : (validate_gas_limit gas_config none child parent ≡ ok true) ↔ (
    (gas_config.min_gas_limit ≤ child.gas_limit)
    × (distance child.gas_limit (compared gas_config none child parent)
        < compared gas_config none child parent / gas_config.gas_limit_bound_divisor))
validate_gas_limit_example = validate_gas_limit_iff gas_config none child parent (omega arith)

canonical_difficulty_example :
    (d d' : ℕ) × (canonical_difficulty pow_config true true byzantium child parent ≡ ok d)
    × (canonical_difficulty pow_config true true byzantium (at_time 1020 child) parent ≡ ok d')
    × (pow_config.minimum_difficulty ≤ d')
    × (d' ≤ d)
canonical_difficulty_example =
    canonical_difficulty_antitone pow_config byzantium child parent 1020 (omega arith) (omega arith)
