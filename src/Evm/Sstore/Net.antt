-- ===== src/Evm/Sstore/Net.antt =====
-- Net metering: what a sequence of writes to one slot costs in all.
use moola_fix.Common.{
  ℕ, ◌+◌, ◌-◌, ◌≤◌, ◌<◌, ◌≡◌, ◌*◌, true, not, ◌&&◌, List, [], ◌∷◌, Result, ok, err, ◌==◌,
  if◌then◌else◌, arith, inl, inr, Bool-cases, length,
}
use moola_fix.Evm.Error.{VmError}
use moola_fix.Evm.Meter.{Meter, Metered, pure, ◌>>=◌}
use moola_fix.Evm.Sstore.{
  NetPrices, SstorePrices, update_sstore_gas_eip1283, update_sstore_gas_eip2200,
}

-- What one dearer write of a slot pays ahead of the dirty price, and gets back on its reset.
pub record IsBalanced (p : NetPrices) : Type 0 where
  pub noop_lem : p.noop ≡ p.dirty
  pub init_lem : p.init ≡ p.dirty + p.reset_clear_refund
  pub clean_lem : p.clean ≡ p.dirty + p.reset_refund

-- The surcharge that a slot with this original and current value has paid.
abbrev pub surcharge : NetPrices → ℕ → ℕ → ℕ
surcharge p original current =
    if original == current
    then 0
    else if original == 0
    then p.reset_clear_refund
    else p.reset_refund

-- The refund that a cleared slot has earned.
abbrev pub clearing : NetPrices → ℕ → ℕ → ℕ
clearing p original current = if current == 0 && not (original == 0) then p.clear_refund else 0

-- What one write does to the counters: it never traps, leaves the gas counter alone, keeps the
-- refund above what the slot has earned, and charges the dirty price, plus the change of the
-- surcharge, less what it adds to the refund.
abbrev pub Nets : NetPrices → ℕ → ℕ → ℕ → Meter → Result VmError ℕ × Meter → Type 0
Nets p original current value m (ok gas, m') =
    (m'.gas_left ≡ m.gas_left)
    × (clearing p original value ≤ m'.refund)
    × (gas + m.refund + surcharge p original current + clearing p original value
        ≡ p.dirty + m'.refund + surcharge p original value + clearing p original current)
Nets p original current value m (err _, _) = ⊥

-- With prices in balance and a refund counter that holds what the slot has earned, a write under
-- EIP-1283 does not trap, leaves the gas counter alone and the refund above what the slot has then
-- earned, and charges the dirty price, plus the change of the surcharge, less what it adds to the
-- refund.
pub update_sstore_gas_eip1283-Nets :
    (p : NetPrices) (original current value : ℕ) (m : Meter)
    → IsBalanced p
    → clearing p original current ≤ m.refund
    → Nets p original current value m (update_sstore_gas_eip1283 p current original value m)
unfolding update_sstore_gas_eip1283
update_sstore_gas_eip1283-Nets p original current value m b h = ground arith

-- What `adjustSstoreGasEIP2929` makes of the prices for a warm slot.
abbrev pub effective : SstorePrices → NetPrices
effective p = record (p.net) {
  noop = if p.eip2929 then p.warm_read else p.net.noop;
  reset_clear_refund = if p.eip2929 then p.net.init - p.warm_read else p.net.reset_clear_refund;
  reset_refund =
      if p.eip2929 then p.sstore_reset - p.cold_sload - p.warm_read else p.net.reset_refund;
}

-- With more gas left than the sentry, prices that are in balance with EIP-2929 taken into account and
-- a refund counter that holds what the slot has earned, a write to a warm slot under EIP-2200 does not
-- trap, leaves the gas counter alone and the refund above what the slot has then earned, and charges
-- the dirty price, plus the change of the surcharge, less what it adds to the refund.
pub update_sstore_gas_eip2200-Nets :
    (p : SstorePrices) (original current value : ℕ) (m : Meter)
    → IsBalanced (effective p)
    → p.sentry < m.gas_left
    → clearing p.net original current ≤ m.refund
    → Nets
        (effective p)
        original
        current
        value
        m
        (update_sstore_gas_eip2200 p true current original value m)
unfolding update_sstore_gas_eip2200
update_sstore_gas_eip2200-Nets p original current value m b left h = elim (Bool-cases p.eip2929) [
  | inl berlin ↦ ground arith
  | inr istanbul ↦ ground arith
]

-- The charges of writing these values to one slot in turn.
unfoldable pub write_all : NetPrices → ℕ → ℕ → List ℕ → Metered ℕ
write_all p original current [] = pure 0
write_all p original current (value ∷ values) = do
  gas ← update_sstore_gas_eip1283 p current original value
  rest ← write_all p original value values
  pure (gas + rest)

abbrev pub last_or : ℕ → List ℕ → ℕ
last_or current [] = current
last_or current (value ∷ values) = last_or value values

-- What a sequence of writes does to the counters.
abbrev pub NetsAll : NetPrices → ℕ → ℕ → List ℕ → Meter → Result VmError ℕ × Meter → Type 0
NetsAll p original current values m (ok gas, m') =
    (m'.gas_left ≡ m.gas_left)
    × (clearing p original (last_or current values) ≤ m'.refund)
    × (gas + m.refund + surcharge p original current + clearing p original (last_or current values)
        ≡ p.dirty * length values
          + m'.refund
          + surcharge p original (last_or current values)
          + clearing p original current)
NetsAll p original current values m (err _, _) = ⊥

module _ (p : NetPrices) (original current value : ℕ) (values : List ℕ) (m : Meter) where
  -- The counters after the first write and then after the others.
  NetsAll-rest :
      (gas : ℕ) (m' : Meter) (r : Result VmError ℕ × Meter)
      → Nets p original current value m (ok gas, m')
      → NetsAll p original value values m' r
      → NetsAll p original current (value ∷ values) m (((λ _. r) >>= λ rest. pure (gas + rest)) m')
  NetsAll-rest gas m' (ok rest, m'') h hs = omega (arith, h.0, h.1, h.2, hs.0, hs.1, hs.2)
  NetsAll-rest gas m' (err e, m'') h hs = hs

  NetsAll-cons :
      (r : Result VmError ℕ × Meter)
      → Nets p original current value m r
      → ((m' : Meter)
          → clearing p original value ≤ m'.refund
          → NetsAll p original value values m' (write_all p original value values m'))
      → NetsAll p original current
          (value ∷ values)
          m
          (((λ _. r) >>= λ gas. write_all p original value values >>= λ rest. pure (gas + rest)) m)
  NetsAll-cons (ok gas, m') h others =
      NetsAll-rest gas m' (write_all p original value values m') h (others m' h.1)
  NetsAll-cons (err e, m') h others = h

-- Net metering under EIP-1283, with prices in balance and a refund counter that holds what the slot
-- has earned: no sequence of writes to one slot exhausts the refund counter, and what it costs, less
-- what it adds to the refund, is the dirty price for each write and a sum that depends on the
-- original, the first and the last value alone.
pub write_all-NetsAll :
    (p : NetPrices) (original current : ℕ) (values : List ℕ) (m : Meter)
    → IsBalanced p
    → clearing p original current ≤ m.refund
    → NetsAll p original current values m (write_all p original current values m)
unfolding write_all
write_all-NetsAll p original current [] m b h = ground arith
write_all-NetsAll p original current (value ∷ values) m b h =
    NetsAll-cons p original current value values m
      (update_sstore_gas_eip1283 p current original value m)
      (update_sstore_gas_eip1283-Nets p original current value m b h)
      (λ m' h'. write_all-NetsAll p original value values m' b h')
