-- ===== src/Evm/Stack/Tests.antt =====
-- The stack of stack.ts on concrete stacks, and its theorems applied to them.
use moola_fix.Common.{◌≡◌, refl, ◌∷◌, [], ok, err, arith}
use moola_fix.Evm.Error.{stack_underflow, stack_overflow}
use moola_fix.Evm.Stack.{Stack, new_stack, push, pop, peek, swap, dup}
use moola_fix.Evm.Stack.Invariant.{IsValid}

abbrev three : Stack
three = record { store = 10 ∷ 20 ∷ 30 ∷ []; max_height = 4 }

abbrev full : Stack
full = record { store = 1 ∷ 2 ∷ []; max_height = 2 }

three-IsValid : IsValid three
three-IsValid = record {
  bounded = omega arith;
  words = (omega arith, (omega arith, (omega arith, tt)));
}

full-IsValid : IsValid full
full-IsValid = record { bounded = omega arith; words = (omega arith, (omega arith, tt)) }

push-full_test : push 5 full ≡ err stack_overflow
unfolding push
push-full_test = refl

pop-empty_test : pop (new_stack 1024) ≡ err stack_underflow
unfolding pop new_stack
pop-empty_test = refl

swap_test : swap 2 three ≡ ok (record { store = 30 ∷ 20 ∷ 10 ∷ []; max_height = 4 })
unfolding swap
swap_test = refl

dup_test : dup 3 three ≡ ok (record { store = 10 ∷ 20 ∷ 30 ∷ 10 ∷ []; max_height = 4 })
unfolding dup push
dup_test = refl

peek_test : peek 2 three ≡ ok (30 ∷ 20 ∷ [])
unfolding peek
peek_test = refl
