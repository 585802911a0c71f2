-- ===== src/Evm/Gas.antt =====
-- Helpers of packages/vm/src/evm/opcodes/util.ts: the charge for memory, the gas of a call, and slices
-- of data.
pub mod MemoryCost
pub mod Slice
pub mod CallOutput
mod Tests
use moola_fix.Common.{
  ℕ, ◌+◌, ◌-◌, ◌*◌, ◌/◌, ◌%◌, Bool, List, slice, length, leb, ltb, ◌==◌, if◌then◌else◌,
}
use moola_fix.Util.Padding.{set_length_right}

-- `divCeil` of two numbers that are not negative, the second not zero.
unfoldable pub div_ceil : ℕ → ℕ → ℕ
div_ceil a b = if a % b == 0 then a / b else a / b + 1

-- `getDataSlice`
unfoldable pub get_data_slice : List ℕ → ℕ → ℕ → List ℕ
get_data_slice bytes offset len =
    let start = if ltb (length bytes) offset then length bytes else offset in
    let end = if ltb (length bytes) (start + len) then length bytes else start + len in
    set_length_right (slice bytes start end) len

-- `maxCallGas`; `tangerine` is the answer of `gteHardfork('tangerineWhistle')`.
unfoldable pub max_call_gas : ℕ → ℕ → Bool → ℕ
max_call_gas gas_limit gas_left tangerine =
    let gas_allowed = gas_left - gas_left / 64 in
    if tangerine then if ltb gas_allowed gas_limit then gas_allowed else gas_limit else gas_limit

-- The gas prices of memory.
pub record MemoryPrices : Type 0 where
  pub memory : ℕ
  pub quad_coeff_div : ℕ

-- The fields of the run state that the charge for memory uses.
pub record MemoryMeter : Type 0 where
  pub memory_word_count : ℕ
  pub highest_mem_cost : ℕ

-- `subMemUsage`: the charge, and the run state behind it.
unfoldable pub sub_mem_usage : MemoryPrices → ℕ → ℕ → MemoryMeter → ℕ × MemoryMeter
unfolding div_ceil
sub_mem_usage p offset len m =
    let words = div_ceil (offset + len) 32 in
    let cost = words * p.memory + words * words / p.quad_coeff_div in
    if len == 0
    then (0, m)
    else if leb words m.memory_word_count
    then (0, m)
    else if ltb m.highest_mem_cost cost
    then (cost - m.highest_mem_cost, record { memory_word_count = words; highest_mem_cost = cost })
    else (cost, record m { memory_word_count = words })
