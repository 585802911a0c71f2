-- ===== src/Block/Header/BaseFee.antt =====
-- How far the base fee moves in one block.
use native.Mathlib.Nat.{mul-le-mul_left, div-le_of_le-mul, mul_comm}
use moola_fix.Common.{
  div_mono, ℕ, ◌+◌, ◌-◌, ◌*◌, ◌/◌, ◌≤◌, ◌<◌, ◌≡◌, refl, subst, true, max, ok, ltb, ◌==◌,
  if◌then◌else◌, arith, inl, inr, Bool-cases,
}
use moola_fix.Block.Header.{Header, GasConfig, div, calc_next_base_fee}

pub div_lem : (a b : ℕ) → 0 < b → div a b ≡ ok (a / b)
unfolding div
div_lem a b h = ground arith

-- A share of the fee: with at most the target as the difference, it is at most the whole fee.
share-le : (fee delta target : ℕ) → delta ≤ target → fee * delta / target ≤ fee
share-le fee delta target h =
    div-le_of_le-mul target
      (subst (λ n. fee * delta ≤ n) (mul_comm fee target) (mul-le-mul_left fee h))

-- `parentGasTarget`
abbrev pub target : GasConfig → Header → ℕ
target c h = h.gas_limit / c.elasticity_multiplier

-- The change of the fee that the gas used asks for.
abbrev pub change : GasConfig → Header → ℕ → ℕ
change c h delta =
    h.base_fee_per_gas
    * delta
    / (h.gas_limit / c.elasticity_multiplier)
    / c.base_fee_max_change_denominator

change-le :
    (c : GasConfig) (h : Header) (delta : ℕ)
    → 0 < c.base_fee_max_change_denominator
    → delta ≤ target c h
    → change c h delta ≤ h.base_fee_per_gas / c.base_fee_max_change_denominator
change-le c h delta pos le =
    div_mono _ h.base_fee_per_gas c.base_fee_max_change_denominator pos
      (share-le h.base_fee_per_gas delta (target c h) le)

-- With EIP-1559 active, a gas target and a denominator that are not zero, and at most twice the
-- target used, there is a next base fee. It is the same where the target is met, higher where more
-- is used, and not higher where less is used; and it differs from the fee by at most the fee over
-- the denominator, or 1 where that is more and the fee rises.
pub calc_next_base_fee_bounds :
    (c : GasConfig) (h : Header)
    → 0 < c.elasticity_multiplier
    → 0 < c.base_fee_max_change_denominator
    → 0 < target c h
    → h.gas_used ≤ target c h + target c h
    → (fee : ℕ) × (calc_next_base_fee c true h ≡ ok fee)
      × (if target c h == h.gas_used
          then fee ≡ h.base_fee_per_gas
          else if ltb (target c h) h.gas_used
          then (h.base_fee_per_gas < fee)
            × (fee
                ≤ h.base_fee_per_gas
                  + max (h.base_fee_per_gas / c.base_fee_max_change_denominator) 1)
          else (fee ≤ h.base_fee_per_gas)
            × (h.base_fee_per_gas ≤ fee + h.base_fee_per_gas / c.base_fee_max_change_denominator))
unfolding calc_next_base_fee
calc_next_base_fee_bounds c h e d t used =
    let den = c.base_fee_max_change_denominator in
    elim (Bool-cases (target c h == h.gas_used)) [
      | inl met ↦
          rw (div_lem h.gas_limit c.elasticity_multiplier e, met) (h.base_fee_per_gas, refl, refl)
      | inr other ↦ elim (Bool-cases (ltb (target c h) h.gas_used)) [
        | inl above ↦
            let delta = h.gas_used - target c h in
            let bound : change c h delta ≤ h.base_fee_per_gas / den =
              change-le c h delta d (omega arith) in
            rw
              (
                div_lem h.gas_limit c.elasticity_multiplier e,
                other,
                above,
                div_lem (h.base_fee_per_gas * delta) (target c h) t,
                div_lem (h.base_fee_per_gas * delta / target c h) den d,
              )
              (
                max (change c h delta) 1 + h.base_fee_per_gas,
                refl,
                (omega arith, omega (arith, bound)),
              )
        | inr below ↦
            let delta = target c h - h.gas_used in
            let bound : change c h delta ≤ h.base_fee_per_gas / den =
              change-le c h delta d (omega arith) in
            rw
              (
                div_lem h.gas_limit c.elasticity_multiplier e,
                other,
                below,
                div_lem (h.base_fee_per_gas * delta) (target c h) t,
                div_lem (h.base_fee_per_gas * delta / target c h) den d,
              )
              (h.base_fee_per_gas - change c h delta, refl, (omega arith, omega (arith, bound)))
      ]
    ]
