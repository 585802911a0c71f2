-- ===== src/Celo/Tests.antt =====
-- The two precompiles on concrete calls, and their theorems applied to them.
use moola_fix.Common.{
  ℕ, ◌≡◌, ◌≢◌, refl, ◌∷◌, [], ◌++◌, List, ◌+◌, ◌==◌, if◌then◌else◌, arith, replicate, ◌≤◌, ◌<◌,
}
use moola_fix.Common.Bytes.{from_be, from_be_acc}
use moola_fix.Util.Padding.{zeros, set_length, set_length_right}
use moola_fix.Celo.Transfer.{Accounts, Difference, funds, debt, celo_transfer}
use moola_fix.Celo.Transfer.Balances.{
  sender, receiver, amount_of, transfer_moves, transfer_unfunded,
}

-- Accounts 1 and 2 hold 100 and 50.
abbrev two_accounts : Accounts
two_accounts a =
    if a == 1
    then record { balance = 100; others = 11 }
    else if a == 2
    then record { balance = 50; others = 22 }
    else record { balance = 0; others = 0 }

-- A call that moves an amount below 256 from account 1 to account 2.
abbrev call : ℕ → List ℕ
call amount = replicate 31 0 ++ 1 ∷ replicate 31 0 ++ 2 ∷ replicate 31 0 ++ amount ∷ []

-- A balance is stored as its absolute value.
abbrev absolute : Difference → ℕ
absolute (funds n) = n
absolute (debt n) = n + 1

arguments_test : (sender (call 30) ≡ 1) × (receiver (call 30) ≡ 2) × (amount_of (call 30) ≡ 30)
unfolding from_be from_be_acc set_length_right set_length zeros
arguments_test = (refl, refl, refl)

covered : amount_of (call 30) ≤ (two_accounts (sender (call 30))).balance
unfolding from_be from_be_acc set_length_right set_length zeros
covered = omega arith

transfer_moves_example :
    (((celo_transfer absolute (call 30) two_accounts).1 2).balance
        + (if 2 == sender (call 30) then amount_of (call 30) else 0)
      ≡ (two_accounts 2).balance + (if 2 == receiver (call 30) then amount_of (call 30) else 0))
    × (((celo_transfer absolute (call 30) two_accounts).1 2).others ≡ (two_accounts 2).others)
transfer_moves_example = transfer_moves absolute (λ n. refl) (call 30) two_accounts 2 covered

two_parties : sender (call 200) ≢ receiver (call 200)
unfolding from_be from_be_acc set_length_right set_length zeros
two_parties h = omega (arith, h)

uncovered : (two_accounts (sender (call 200))).balance < amount_of (call 200)
unfolding from_be from_be_acc set_length_right set_length zeros
uncovered = omega arith

transfer_unfunded_example :
    ((celo_transfer absolute (call 200) two_accounts).0.gas_used ≡ 0)
    × ((celo_transfer absolute (call 200) two_accounts).0.return_value ≡ [])
    × (((celo_transfer absolute (call 200) two_accounts).1 (receiver (call 200))).balance
        ≡ (two_accounts (receiver (call 200))).balance + amount_of (call 200))
transfer_unfunded_example = transfer_unfunded absolute (call 200) two_accounts two_parties uncovered
