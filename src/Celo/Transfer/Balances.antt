-- ===== src/Celo/Transfer/Balances.antt =====
-- What the transfer precompile does to the balances.
use moola_fix.Common.{ℕ, ◌+◌, ◌-◌, ◌≤◌, ◌<◌, ◌≡◌, ◌≢◌, List, [], arith, slice, ◌==◌, if◌then◌else◌}
use moola_fix.Common.Bytes.{from_be}
use moola_fix.Util.Padding.{set_length_right}
use moola_fix.Celo.Transfer.{Accounts, Difference, funds, celo_transfer}

-- The arguments as the precompile reads them: three words of 32 bytes.
abbrev pub sender : List ℕ → ℕ
sender bytes = from_be (slice (set_length_right bytes 96) 12 32)

abbrev pub receiver : List ℕ → ℕ
receiver bytes = from_be (slice (set_length_right bytes 96) 44 64)

abbrev pub amount_of : List ℕ → ℕ
amount_of bytes = from_be (slice (set_length_right bytes 96) 64 96)

module _ (stored : Difference → ℕ) (stored_funds : (n : ℕ) → stored (funds n) ≡ n) where
  -- Where a balance that is not negative is stored as it is and the sender holds the amount, the
  -- balance of each account changes by what it sends and
  -- receives, also where sender and receiver are one, and nothing else in any account changes.
  pub transfer_moves :
      (bytes : List ℕ) (accounts : Accounts) (a : ℕ)
      → amount_of bytes ≤ (accounts (sender bytes)).balance
      → (((celo_transfer stored bytes accounts).1 a).balance
            + (if a == sender bytes then amount_of bytes else 0)
          ≡ (accounts a).balance + (if a == receiver bytes then amount_of bytes else 0))
        × (((celo_transfer stored bytes accounts).1 a).others ≡ (accounts a).others)
  unfolding celo_transfer
  transfer_moves bytes accounts a covered =
      ground (arith, stored_funds ((accounts (sender bytes)).balance - amount_of bytes))

-- The precompile does not test what the sender holds: for every way in which a negative balance may
-- be stored, a call without funds returns as any other, and another account is credited in full.
pub transfer_unfunded :
    (stored : Difference → ℕ) (bytes : List ℕ) (accounts : Accounts)
    → sender bytes ≢ receiver bytes
    → (accounts (sender bytes)).balance < amount_of bytes
    → ((celo_transfer stored bytes accounts).0.gas_used ≡ 0)
      × ((celo_transfer stored bytes accounts).0.return_value ≡ [])
      × (((celo_transfer stored bytes accounts).1 (receiver bytes)).balance
          ≡ (accounts (receiver bytes)).balance + amount_of bytes)
unfolding celo_transfer
transfer_unfunded stored bytes accounts two short = ground arith
