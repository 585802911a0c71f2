-- ===== src/Block/Header/Difficulty.antt =====
-- How the difficulty depends on the timestamp.
use native.Mathlib.Nat.{mul-le-mul_left}
use moola_fix.Common.{
  ℕ, ◌+◌, ◌-◌, ◌*◌, ◌/◌, ◌≤◌, ◌<◌, ◌≡◌, refl, true, ok, arith, ltb, if◌then◌else◌,
}
use moola_fix.Block.Header.BaseFee.{div_lem}
use moola_fix.Block.Header.{
  Header, PowConfig, Era, frontier, homestead, byzantium, clamped, factor, bomb,
  canonical_difficulty,
}

-- The same header with another timestamp.
abbrev pub at_time : ℕ → Header → Header
at_time ts h = record h { timestamp = ts }

-- The factor of a later block is not greater.
factor_antitone :
    (c : PowConfig) (era : Era) (h parent : Header) (ts : ℕ)
    → h.timestamp ≤ ts
    → (factor c era (at_time ts h) parent).added + (factor c era h parent).taken
      ≤ (factor c era h parent).added + (factor c era (at_time ts h) parent).taken
unfolding factor clamped
factor_antitone c frontier h parent ts later = ground arith
factor_antitone c homestead h parent ts later = ground arith
factor_antitone c byzantium h parent ts later = ground arith

-- A multiple of such a factor is not greater either.
multiple_antitone :
    (offset a t a' t' : ℕ) → a' + t ≤ a + t' → offset * a' + offset * t ≤ offset * a + offset * t'
multiple_antitone offset a t a' t' h = grind (arith, mul-le-mul_left offset h)

-- The last step, for the same difficulty of the parent and the same bomb.
result : ℕ → ℕ → ℕ → ℕ
result minimum added taken = if ltb added (taken + minimum) then minimum else added - taken

result_antitone :
    (minimum parent_difficulty extra a t a' t' : ℕ)
    → a' + t ≤ a + t'
    → (minimum ≤ result minimum (parent_difficulty + a' + extra) t')
      × (result minimum (parent_difficulty + a' + extra) t'
          ≤ result minimum (parent_difficulty + a + extra) t)
unfolding result
result_antitone minimum parent_difficulty extra a t a' t' h = ground arith

-- On a proof of work chain with Ethash, and with a divisor that is not zero, a header has a canonical
-- difficulty at every timestamp; it is never below the minimum, and for a later timestamp it is not
-- greater.
pub canonical_difficulty_antitone :
    (c : PowConfig) (era : Era) (h parent : Header) (ts : ℕ)
    → 0 < c.difficulty_bound_divisor
    → h.timestamp ≤ ts
    → (d d' : ℕ) × (canonical_difficulty c true true era h parent ≡ ok d)
      × (canonical_difficulty c true true era (at_time ts h) parent ≡ ok d')
      × (c.minimum_difficulty ≤ d')
      × (d' ≤ d)
unfolding canonical_difficulty result
canonical_difficulty_antitone c era h parent ts pos later =
    let offset = parent.difficulty / c.difficulty_bound_divisor in
    let a = factor c era h parent in
    let b = factor c era (at_time ts h) parent in
    let extra = bomb c era h.number in
    let ordered =
      result_antitone c.minimum_difficulty parent.difficulty extra (offset * a.added)
        (offset * a.taken) (offset * b.added) (offset * b.taken)
        (multiple_antitone offset a.added a.taken b.added b.taken
          (factor_antitone c era h parent ts later)) in
    rw (div_lem parent.difficulty c.difficulty_bound_divisor pos) (
      result c.minimum_difficulty (parent.difficulty + offset * a.added + extra) (offset * a.taken),
      result c.minimum_difficulty (parent.difficulty + offset * b.added + extra) (offset * b.taken),
      refl,
      refl,
      ordered.0,
      ordered.1,
    )
