-- ===== src/Evm/Sstore.antt =====
-- The charges and refunds of SSTORE: packages/vm/src/evm/opcodes/EIP1283.ts, EIP2200.ts, the SSTORE
-- part of EIP2929.ts, and `updateSstoreGas` of opcodes/util.ts. `gas.ts` brings each storage value
-- into the form of `setLengthLeftStorage`, empty for zero and 32 bytes otherwise; here it is the
-- number that it stands for, so an empty buffer is 0 and equal buffers are equal numbers.
pub mod Net
mod Tests
use moola_fix.Common.{
  ℕ, ◌+◌, ◌-◌, Bool, true, false, not, ◌&&◌, ◌||◌, leb, ltb, ◌==◌, if◌then◌else◌,
}
use moola_fix.Evm.Error.{out_of_gas}
use moola_fix.Evm.Meter.{
  Metered, pure, trap, ◌>>=◌, ◌>>◌, when, get_gas_left, refund_gas, sub_refund,
}

-- The values of `common.param('gasPrices', …)` that the charges use, under each set of rules.
pub record NetPrices : Type 0 where
  pub noop : ℕ
  pub init : ℕ
  pub clean : ℕ
  pub dirty : ℕ
  pub clear_refund : ℕ
  pub reset_refund : ℕ
  pub reset_clear_refund : ℕ

-- `updateSstoreGas`, the rules before Constantinople and in Petersburg.
pub record PlainPrices : Type 0 where
  pub sstore_set : ℕ
  pub sstore_reset : ℕ
  pub sstore_refund : ℕ

unfoldable pub update_sstore_gas : PlainPrices → ℕ → ℕ → Metered ℕ
unfolding refund_gas
update_sstore_gas p current value =
    if (value == 0 && current == 0) || (ltb 0 value && ltb 0 current)
    then pure p.sstore_reset
    else if value == 0 && ltb 0 current
    then (refund_gas p.sstore_refund >> pure p.sstore_reset)
    else pure p.sstore_set

-- `updateSstoreGasEIP1283`
unfoldable pub update_sstore_gas_eip1283 : NetPrices → ℕ → ℕ → ℕ → Metered ℕ
unfolding refund_gas sub_refund
update_sstore_gas_eip1283 p current original value =
    if current == value
    then pure p.noop
    else if original == current
    then if original == 0
      then pure p.init
      else (when (value == 0) (refund_gas p.clear_refund) >> pure p.clean)
    else do
      when (not (original == 0)) (
          if current == 0
          then sub_refund p.clear_refund
          else when (value == 0) (refund_gas p.clear_refund))
      when (original == value)
          (if original == 0 then refund_gas p.reset_clear_refund else refund_gas p.reset_refund)
      pure p.dirty

-- The parameters of EIP-2200, and those of EIP-2929 that lower them for a warm slot.
pub record SstorePrices : Type 0 where
  pub sentry : ℕ
  pub net : NetPrices
  pub eip2929 : Bool
  pub warm_read : ℕ
  pub cold_sload : ℕ
  pub sstore_reset : ℕ

pub data CostName : Type 0 where
  noop init_refund clean_refund : CostName

-- `adjustSstoreGasEIP2929`, for prices whose differences are not negative, as those of every hardfork
-- with EIP-2929 are; `warm` is the answer of `isWarmedStorage` for the slot.
unfoldable pub adjust_sstore_gas_eip2929 : SstorePrices → Bool → ℕ → CostName → ℕ
adjust_sstore_gas_eip2929 p warm default_cost cost_name =
    if not p.eip2929
    then default_cost
    else if warm
    then elim cost_name [
      | noop ↦ p.warm_read
      | init_refund ↦ p.net.init - p.warm_read
      | clean_refund ↦ p.sstore_reset - p.cold_sload - p.warm_read
    ]
    else default_cost

-- `updateSstoreGasEIP2200`
unfoldable pub update_sstore_gas_eip2200 : SstorePrices → Bool → ℕ → ℕ → ℕ → Metered ℕ
unfolding refund_gas sub_refund adjust_sstore_gas_eip2929
update_sstore_gas_eip2200 p warm current original value = do
  gas_left ← get_gas_left
  if leb gas_left p.sentry
      then trap out_of_gas
      else if current == value
      then pure (adjust_sstore_gas_eip2929 p warm p.net.noop noop)
      else if original == current
      then if original == 0
        then pure p.net.init
        else (when (value == 0) (refund_gas p.net.clear_refund) >> pure p.net.clean)
      else do
        when (ltb 0 original) (
            if current == 0
            then sub_refund p.net.clear_refund
            else when (value == 0) (refund_gas p.net.clear_refund))
        when (original == value) (
            if original == 0
            then refund_gas (adjust_sstore_gas_eip2929 p warm p.net.reset_clear_refund init_refund)
            else refund_gas (adjust_sstore_gas_eip2929 p warm p.net.reset_refund clean_refund))
        pure p.net.dirty
