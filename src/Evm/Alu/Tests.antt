-- ===== src/Evm/Alu/Tests.antt =====
-- The arithmetic opcodes on concrete words and stacks, and the theorems applied to them.
use moola_fix.Common.{ℕ, ◌<◌, ◌↔◌, ◌-◌, ◌≤◌, ◌≡◌, refl, [], ◌∷◌, ok, err, arith}
use moola_fix.Evm.Error.{stack_underflow}
use moola_fix.Evm.Stack.{Stack, max_integer}
use moola_fix.Evm.Stack.View.{top_first}
use moola_fix.Evm.Stack.Invariant.{IsValid}
use moola_fix.Evm.Alu.{
  two_pow256, from_twos, to_twos, signed_lt, signed_div, signed_mod, add, sub, sdiv, smod, slt, shl,
  binary, run_binary, add_mod, run_ternary,
}
use moola_fix.Evm.Alu.Words.{binary-word}
use moola_fix.Evm.Alu.Handlers.{run_binary_lem, operands_missing_iff}

-- -8 as a word.
abbrev minus_eight : ℕ
minus_eight = two_pow256 - 8

-- The items 5, 7 and 3, the top first.
abbrev operands : Stack
operands = record { store = 3 ∷ 7 ∷ 5 ∷ []; max_height = 3 }

operands-IsValid : IsValid operands
operands-IsValid = record {
  bounded = omega arith;
  words = (omega arith, (omega arith, (omega arith, tt)));
}

sdiv_test : binary sdiv minus_eight 3 ≡ two_pow256 - 2
unfolding binary from_twos to_twos signed_div
sdiv_test = refl

smod_test : binary smod minus_eight 3 ≡ two_pow256 - 2
unfolding binary from_twos to_twos signed_mod
smod_test = refl

slt_test : binary slt minus_eight 3 ≡ 1
unfolding binary from_twos signed_lt
slt_test = refl

shl_test :
    binary shl 255 3 ≡ 57896044618658097711785492504343953926634992332820282019728792003956564819968
unfolding binary
shl_test = refl

binary-word_example : binary sdiv minus_eight 3 ≤ max_integer
binary-word_example = binary-word sdiv minus_eight 3 (omega arith) (omega arith)

run_binary_example :
    (t : Stack) × (run_binary sub operands ≡ ok t)
    × (top_first t ≡ binary sub 5 7 ∷ 3 ∷ [])
    × IsValid t
run_binary_example = run_binary_lem sub operands 5 7 (3 ∷ []) operands-IsValid refl

-- One item is too few.
operands_missing_iff_example :
    ((run_binary add (record { store = 1 ∷ []; max_height = 3 }) ≡ err stack_underflow)
      ↔ ((1 < 2) × (stack_underflow ≡ stack_underflow)))
    × ((run_ternary add_mod (record { store = 1 ∷ []; max_height = 3 }) ≡ err stack_underflow)
        ↔ ((1 < 3) × (stack_underflow ≡ stack_underflow)))
operands_missing_iff_example =
    operands_missing_iff add add_mod (record { store = 1 ∷ []; max_height = 3 }) stack_underflow
      (record { bounded = omega arith; words = (omega arith, tt) })
