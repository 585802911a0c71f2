-- ===== src/Evm/Meter.antt =====
-- The gas counters of packages/vm/src/evm/eei.ts and the way a handler ends: it returns or traps, and
-- what it has written to the counters stays written either way.
use moola_fix.Common.{ℕ, ◌+◌, ◌-◌, Bool, true, false, Result, ok, err, ltb, if◌then◌else◌}
use moola_fix.Evm.Error.{VmError, out_of_gas, refund_exhausted}

-- `gas_left` is the counter `_gasLeft` of the EEI, `refund` the counter `_refund` of the EVM.
pub record Meter : Type 0 where
  pub gas_left : ℕ
  pub refund : ℕ

abbrev pub Metered : Type 0 → Type 0
Metered A = Meter → Result VmError A × Meter

module _ {A : Type 0} where
  abbrev pub pure : A → Metered A
  pure a m = (ok a, m)

  abbrev pub trap : VmError → Metered A
  trap e m = (err e, m)

infixl 5 ◌>>=◌ ◌>>◌
abbrev pub ◌>>=◌ : {A B : Type 0} → Metered A → (A → Metered B) → Metered B
◌>>=◌ f k m = let (r, m') = f m in elim r [ ok a ↦ k a m' | err e ↦ (err e, m') ]

abbrev pub ◌>>◌ : {B : Type 0} → Metered (Unit {0}) → Metered B → Metered B
f >> k = f >>= λ _. k

-- `if (c) { … }`
abbrev pub when : Bool → Metered (Unit {0}) → Metered (Unit {0})
when true f = f
when false f = pure tt

-- `getGasLeft`
abbrev pub get_gas_left : Metered ℕ
get_gas_left m = (ok m.gas_left, m)

-- `useGas`: a charge beyond what is left empties the counter and traps.
unfoldable pub use_gas : ℕ → Metered (Unit {0})
use_gas amount m =
    if ltb m.gas_left amount
    then (err out_of_gas, record m { gas_left = 0 })
    else (ok tt, record m { gas_left = m.gas_left - amount })

-- `refundGas`
unfoldable pub refund_gas : ℕ → Metered (Unit {0})
refund_gas amount m = (ok tt, record m { refund = m.refund + amount })

-- `subRefund`: a reduction below zero empties the counter and traps.
unfoldable pub sub_refund : ℕ → Metered (Unit {0})
sub_refund amount m =
    if ltb m.refund amount
    then (err refund_exhausted, record m { refund = 0 })
    else (ok tt, record m { refund = m.refund - amount })

-- `addStipend`
unfoldable pub add_stipend : ℕ → Metered (Unit {0})
add_stipend amount m = (ok tt, record m { gas_left = m.gas_left + amount })
