-- ===== src/Evm/Stack.antt =====
-- packages/vm/src/evm/stack.ts: the operand stack. `store` is the array `_store`, whose last item is
-- the top; a `BN` on the stack is a natural number.
pub mod View
pub mod Invariant
mod Tests
use Prim.Native.Nat.{compare}
use moola_fix.Common.{
  ℕ, zero, suc, ◌+◌, ◌-◌, ◌^◌, ◌≤◌, List, [], ◌∷◌, ◌++◌, reverse, Option, none, some, length,
  get_elem?, set, take, drop, Result, ok, err, ◌>>=◌, ◌>>◌, throw_if, ltb, leb, ◌==◌, if◌then◌else◌,
}
use moola_fix.Evm.Error.{VmError, stack_underflow, stack_overflow, out_of_range}

-- `MAX_INTEGER` of ethereumjs-util, 2^256 - 1.
abbrev pub max_integer : ℕ
max_integer = 2 ^ 256 - 1

pub record Stack : Type 0 where
  pub store : List ℕ
  pub max_height : ℕ

-- `new Stack(maxHeight)`; the operand stack takes 1024 and the return stack 1023.
unfoldable pub new_stack : ℕ → Stack
new_stack max_height = record { store = []; max_height = max_height }

unfoldable pub push : ℕ → Stack → Result VmError Stack
push value s = do
  throw_if (ltb max_integer value) out_of_range
  throw_if (leb s.max_height (length s.store)) stack_overflow
  ok (record s { store = s.store ++ value ∷ [] })

-- An item of the array; an index out of range is not reached behind the guards.
unfoldable pub item : List ℕ → ℕ → Result VmError ℕ
item xs i = elim (get_elem? xs i) [ none ↦ err stack_underflow | some v ↦ ok v ]

unfoldable pub pop : Stack → Result VmError (ℕ × Stack)
unfolding item
pop s = do
  throw_if (ltb (length s.store) 1) stack_underflow
  v ← item s.store (length s.store - 1)
  ok (v, record s { store = take (length s.store - 1) s.store })

-- `splice(-1 * num)` takes the last `num` items off the array.
unfoldable pub pop_n : ℕ → Stack → Result VmError (List ℕ × Stack)
pop_n num s = do
  throw_if (ltb (length s.store) num) stack_underflow
  let keep = length s.store - num
  if num == 0
      then ok ([], s)
      else ok (reverse (drop keep s.store), record s { store = take keep s.store })

-- The loop of `peek`: `rounds` is `num - peek + 1`.
unfoldable pub peek_loop : ℕ → ℕ → List ℕ → List ℕ → Result VmError (List ℕ)
unfolding item
peek_loop zero peek store peeked = ok peeked
peek_loop (suc rounds) peek store peeked =
    let rest = (do
      v ← item store (length store - peek)
      peek_loop rounds (peek + 1) store (peeked ++ v ∷ [])) in
    if ltb (length store) peek then err stack_underflow else rest

unfoldable pub peek : ℕ → Stack → Result VmError (List ℕ)
unfolding peek_loop
peek num s = peek_loop num 1 s.store []

unfoldable pub swap : ℕ → Stack → Result VmError Stack
unfolding item
swap position s = do
  throw_if (leb (length s.store) position) stack_underflow
  let head = length s.store - 1
  let i = length s.store - position - 1
  tmp ← item s.store head
  v ← item s.store i
  ok (record s { store = set (set s.store head v) i tmp })

unfoldable pub dup : ℕ → Stack → Result VmError Stack
unfolding item
dup position s = do
  throw_if (ltb (length s.store) position) stack_underflow
  v ← item s.store (length s.store - position)
  push v s
