-- ===== src/Block/Header/GasLimit.antt =====
-- How far the gas limit moves in one block.
use native.Mathlib.Nat.{div-le_self}
use moola_fix.Common.{
  ℕ, ◌+◌, ◌-◌, ◌*◌, ◌/◌, ◌≤◌, ◌<◌, ◌≡◌, ◌↔◌, ◌>>=◌, ◌&&◌, ltb, leb, true, Option, ok, arith,
  if◌then◌else◌,
}
use moola_fix.Block.Header.{Header, GasConfig, div, is_london, validate_gas_limit}

abbrev pub distance : ℕ → ℕ → ℕ
distance a b = (a - b) + (b - a)

-- The limit that a header is compared with: that of its parent, times the multiplier on the block of
-- the London hardfork.
abbrev pub compared : GasConfig → Option ℕ → Header → Header → ℕ
compared c london h parent =
    if is_london london h then parent.gas_limit * c.elasticity_multiplier else parent.gas_limit

-- With a divisor that is not zero, a gas limit is valid exactly where it is not below the minimum and
-- differs from the limit it is compared with by less than that limit over the divisor.
pub validate_gas_limit_iff :
    (c : GasConfig) (london : Option ℕ) (h parent : Header)
    → 0 < c.gas_limit_bound_divisor
    → (validate_gas_limit c london h parent ≡ ok true) ↔ (
        (c.min_gas_limit ≤ h.gas_limit)
        × (distance h.gas_limit (compared c london h parent)
            < compared c london h parent / c.gas_limit_bound_divisor))
unfolding validate_gas_limit div
validate_gas_limit_iff c london h parent pos =
    within (compared c london h parent)
      (div-le_self (compared c london h parent) c.gas_limit_bound_divisor)
  where
    within :
        (limit : ℕ)
        → limit / c.gas_limit_bound_divisor ≤ limit
        → ((div limit c.gas_limit_bound_divisor >>= λ a. ok (
              ltb h.gas_limit (limit + a)
              && ltb (limit - a) h.gas_limit
              && leb c.min_gas_limit h.gas_limit))
            ≡ ok true)
          ↔ ((c.min_gas_limit ≤ h.gas_limit)
              × (distance h.gas_limit limit < limit / c.gas_limit_bound_divisor))
    within limit share = ground (arith, share)
