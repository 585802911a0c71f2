-- ===== src/Block/Header.antt =====
-- The calculations of packages/block/src/header.ts. What the code asks of `_common` is an argument: the
-- parameters of the hardfork as records, and the answers on consensus and hardforks.
pub mod BaseFee
pub mod GasLimit
pub mod Difficulty
use moola_fix.Common.{
  ℕ, ◌+◌, ◌-◌, ◌*◌, ◌/◌, ◌^◌, max, Bool, false, not, ◌&&◌, Option, none, some, Result, ok, err,
  ◌>>=◌, ◌>>◌, throw_if, leb, ltb, ◌==◌, if◌then◌else◌,
}

pub data HeaderError : Type 0 where
  eip1559_not_active not_proof_of_work not_ethash : HeaderError
  -- The assertion of bn.js on a division by zero.
  division_by_zero : HeaderError

-- `a.div(b)` of two numbers that are not negative.
unfoldable pub div : ℕ → ℕ → Result HeaderError ℕ
div a b = throw_if (b == 0) division_by_zero >> ok (a / b)

-- The fields of a header that the calculations read.
pub record Header : Type 0 where
  pub number : ℕ
  pub timestamp : ℕ
  pub difficulty : ℕ
  pub gas_limit : ℕ
  pub gas_used : ℕ
  pub base_fee_per_gas : ℕ
  -- Whether `uncleHash` is the hash of the empty list.
  pub no_uncles : Bool

pub record GasConfig : Type 0 where
  pub elasticity_multiplier : ℕ
  pub base_fee_max_change_denominator : ℕ
  pub gas_limit_bound_divisor : ℕ
  pub min_gas_limit : ℕ

-- `calcNextBaseFee`
unfoldable pub calc_next_base_fee : GasConfig → Bool → Header → Result HeaderError ℕ
unfolding div
calc_next_base_fee c eip1559 h = do
  throw_if (not eip1559) eip1559_not_active
  parent_gas_target ← div h.gas_limit c.elasticity_multiplier
  let rise = (do
    let gas_used_delta = h.gas_used - parent_gas_target
    per_target ← div (h.base_fee_per_gas * gas_used_delta) parent_gas_target
    calculated_delta ← div per_target c.base_fee_max_change_denominator
    ok (max calculated_delta 1 + h.base_fee_per_gas))
  let fall = (do
    let gas_used_delta = parent_gas_target - h.gas_used
    per_target ← div (h.base_fee_per_gas * gas_used_delta) parent_gas_target
    calculated_delta ← div per_target c.base_fee_max_change_denominator
    -- The difference of naturals is the greater of the difference and 0.
    ok (h.base_fee_per_gas - calculated_delta))
  if parent_gas_target == h.gas_used
      then ok h.base_fee_per_gas
      else if ltb parent_gas_target h.gas_used
      then rise
      else fall

-- `londonHardforkBlock && this.number.eq(londonHardforkBlock)`
abbrev pub is_london : Option ℕ → Header → Bool
is_london none h = false
is_london (some block) h = h.number == block

-- `validateGasLimit`; `london` is the block of the London hardfork, where there is one. The lower
-- bound is not negative, since a quotient is not greater than what is divided.
unfoldable pub validate_gas_limit : GasConfig → Option ℕ → Header → Header → Result HeaderError Bool
unfolding div
validate_gas_limit c london h parent = do
  let parent_gas_limit =
      if is_london london h then parent.gas_limit * c.elasticity_multiplier else parent.gas_limit
  a ← div parent_gas_limit c.gas_limit_bound_divisor
  ok (
      ltb h.gas_limit (parent_gas_limit + a)
      && ltb (parent_gas_limit - a) h.gas_limit
      && leb c.min_gas_limit h.gas_limit)

-- What the difficulty depends on a hardfork for.
pub data Era : Type 0 where
  frontier homestead byzantium : Era

pub record PowConfig : Type 0 where
  pub minimum_difficulty : ℕ
  pub difficulty_bound_divisor : ℕ
  pub difficulty_bomb_delay : ℕ
  pub duration_limit : ℕ

-- A number that may be negative, as what is added less what is taken off.
pub record Balance : Type 0 where
  pub added : ℕ
  pub taken : ℕ

-- `ts.sub(parentTs).idivn(n).ineg().iaddn(addend)`, which divides towards zero, and the greater of
-- it and -99.
unfoldable pub clamped : ℕ → ℕ → ℕ → ℕ → Balance
clamped n addend ts parent_ts =
    let added = addend + (parent_ts - ts) / n in
    let taken = (ts - parent_ts) / n in
    if ltb (added + 99) taken
    then record { added = 0; taken = 99 }
    else record { added = added; taken = taken }

-- The factor of the offset: `a` since Homestead, and 1 or -1 before.
unfoldable pub factor : PowConfig → Era → Header → Header → Balance
unfolding clamped
factor c era h parent = elim era [
  | byzantium ↦ clamped 9 (if parent.no_uncles then 1 else 2) h.timestamp parent.timestamp
  | homestead ↦ clamped 10 1 h.timestamp parent.timestamp
  | frontier ↦
      if ltb h.timestamp (parent.timestamp + c.duration_limit)
      then record { added = 1; taken = 0 }
      else record { added = 0; taken = 1 }
]

-- `num`, the number that the bomb depends on.
unfoldable pub bomb_number : PowConfig → Era → ℕ → ℕ
bomb_number c era number = elim era [
  | byzantium ↦ number - c.difficulty_bomb_delay
  | homestead ↦ number
  | frontier ↦ number
]

-- What the difficulty bomb adds, from block 200000 on.
unfoldable pub bomb : PowConfig → Era → ℕ → ℕ
unfolding bomb_number
bomb c era number =
    let num = bomb_number c era number in if leb 2 (num / 100000) then 2 ^ (num / 100000 - 2) else 0

-- `canonicalDifficulty`; `pow` and `ethash` are the answers on the consensus.
unfoldable pub canonical_difficulty :
    PowConfig → Bool → Bool → Era → Header → Header → Result HeaderError ℕ
unfolding div factor bomb
canonical_difficulty c pow ethash era h parent = do
  throw_if (not pow) not_proof_of_work
  throw_if (not ethash) not_ethash
  offset ← div parent.difficulty c.difficulty_bound_divisor
  let a = factor c era h parent
  let added = parent.difficulty + offset * a.added + bomb c era h.number
  let taken = offset * a.taken
  ok (if ltb added (taken + c.minimum_difficulty) then c.minimum_difficulty else added - taken)
