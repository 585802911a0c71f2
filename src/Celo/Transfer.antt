-- ===== src/Celo/Transfer.antt =====
-- packages/vm/src/evm/precompiles/fd-celo-transfer.ts: the precompile at address fd, which moves
-- balance between two accounts. An address is the number of its 20 bytes.
pub mod Balances
use moola_fix.Common.{
  ℕ, ◌+◌, ◌-◌, List, [], Option, none, some, slice, ltb, leb, ◌==◌, if◌then◌else◌,
}
use moola_fix.Common.Bytes.{from_be}
use moola_fix.Util.Padding.{set_length_right}

-- An account, as far as the precompile reads it; `others` stands for the fields that it copies.
pub record Account : Type 0 where
  pub balance : ℕ
  pub others : ℕ

-- What the state manager answers for each address.
abbrev pub Accounts : Type 0
Accounts = ℕ → Account

abbrev pub put_account : ℕ → Account → Accounts → Accounts
put_account address account accounts a = if a == address then account else accounts a

-- A balance may fall below zero in `balance.isub(amount)`; `debt n` stands for -n - 1.
pub data Difference : Type 0 where
  funds : ℕ → Difference
  debt : ℕ → Difference

abbrev pub isub : ℕ → ℕ → Difference
isub a b = if leb b a then funds (a - b) else debt (b - a - 1)

pub record ExecResult : Type 0 where
  pub gas_used : ℕ
  pub return_value : List ℕ

module _ (stored : Difference → ℕ) where
  -- The precompile. `stored` is the balance that `getAccount` reads back after `putAccount` has
  -- serialized an account; bn.js defines it for the negative numbers.
  unfoldable pub celo_transfer : List ℕ → Accounts → ExecResult × Accounts
  celo_transfer opts_data accounts =
      let bytes = set_length_right opts_data 96 in
      let from_address = from_be (slice bytes 12 32) in
      let to_address = from_be (slice bytes 44 64) in
      let amount = from_be (slice bytes 64 96) in
      let from_account = accounts from_address in
      let debited =
        put_account from_address
          (record from_account { balance = stored (isub from_account.balance amount) }) accounts in
      let to_account = debited to_address in
      let credited =
        put_account to_address (record to_account { balance = to_account.balance + amount })
          debited in
      (record { gas_used = 0; return_value = [] }, credited)
