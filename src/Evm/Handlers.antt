-- ===== src/Evm/Handlers.antt =====
-- The handlers of packages/vm/src/evm/opcodes/functions.ts from 0x50 to 0x9f, without SLOAD and SSTORE,
-- which go to the state: stack, memory and flow. They read and write the run state of the interpreter.
pub mod Running
pub mod Boundaries
pub mod Flow
pub mod Safety
pub mod Thrift
pub mod Termination
mod Tests
use moola_fix.Common.{
  ℕ, ◌+◌, ◌-◌, ◌*◌, ◌%◌, ◌^◌, Bool, true, false, not, ◌&&◌, List, [], ◌∷◌, length, slice, Result,
  ok, err, ltb, leb, ◌==◌, if◌then◌else◌,
}
use moola_fix.Common.Bytes.{from_be, to_be}
use moola_fix.Evm.Error.{
  VmError, invalid_jump, invalid_jumpsub, invalid_beginsub, invalid_returnsub, out_of_range,
  internal_error, not_safe_integer,
}
use moola_fix.Evm.Stack as Operands
use moola_fix.Evm.Stack.{Stack}
use moola_fix.Evm.Memory as Bytes
use moola_fix.Evm.Memory.{Memory}
use moola_fix.Evm.Jumps.{jump_is_valid, jump_sub_is_valid}
use moola_fix.Evm.Interpreter.{RunState, Ran}

-- The fields of `RunState` that the handlers use, and what lies behind the EEI.
pub record Machine (Rest : Type 0) : Type 0 where
  pub stack : Stack
  pub return_stack : Stack
  pub memory : Memory
  pub memory_word_count : ℕ
  pub rest : Rest

abbrev pub State : Type 0 → Type 0
State Rest = RunState (Machine Rest)

abbrev pub Handler : Type 0 → Type 0 → Type 0
Handler Rest A = State Rest → Ran (Machine Rest) A

infixl 5 ◌>>=◌ ◌>>◌
unfoldable pub ◌>>=◌ : {Rest A B : Type 0} → Handler Rest A → (A → Handler Rest B) → Handler Rest B
◌>>=◌ f k s = let (r, s') = f s in elim r [ ok a ↦ k a s' | err e ↦ (err e, s') ]

unfoldable pub ◌>>◌ : {Rest A : Type 0} → Handler Rest (Unit {0}) → Handler Rest A → Handler Rest A
unfolding ◌>>=◌
f >> k = f >>= λ _. k

-- `BN.toNumber`, which throws beyond 2^53 - 1.
abbrev pub max_safe_integer : ℕ
max_safe_integer = 2 ^ 53 - 1

module _ {Rest : Type 0} where
  abbrev pub get_state : Handler Rest (State Rest)
  get_state s = (ok s, s)

  -- `if (c) trap(e)`
  abbrev pub trap_if : Bool → VmError → Handler Rest (Unit {0})
  trap_if c e s = if c then (err e, s) else (ok tt, s)

  abbrev pub to_number : ℕ → Handler Rest ℕ
  to_number n s = if ltb max_safe_integer n then (err not_safe_integer, s) else (ok n, s)

  abbrev pub set_counter : ℕ → Handler Rest (Unit {0})
  set_counter counter s = (ok tt, record s { program_counter = counter })

  abbrev pub with_stack : Stack → State Rest → State Rest
  with_stack stack s = record s { others = record s.others { stack = stack } }

  abbrev pub with_return_stack : Stack → State Rest → State Rest
  with_return_stack stack s = record s { others = record s.others { return_stack = stack } }

  abbrev pub with_memory : Memory → State Rest → State Rest
  with_memory memory s = record s { others = record s.others { memory = memory } }

  -- An operation of the operand stack.
  abbrev pub on_stack : (Stack → Result VmError Stack) → Handler Rest (Unit {0})
  on_stack f s = elim (f s.others.stack) [
    | ok stack ↦ (ok tt, with_stack stack s)
    | err e ↦ (err e, s)
  ]

  -- `runState.stack.push`, `pop` and `popN(2)`.
  abbrev pub push_word : ℕ → Handler Rest (Unit {0})
  push_word v = on_stack (Operands.push v)

  abbrev pub pop_word : Handler Rest ℕ
  pop_word s = elim (Operands.pop s.others.stack) [
    | ok (v, stack) ↦ (ok v, with_stack stack s)
    | err e ↦ (err e, s)
  ]

  -- `popN` gives as many items as it is asked for.
  abbrev pub pop_words : Handler Rest (ℕ × ℕ)
  pop_words s = elim (Operands.pop_n 2 s.others.stack) [
    | ok (a ∷ b ∷ [], stack) ↦ (ok (a, b), with_stack stack s)
    | ok (_, stack) ↦ (err internal_error, s)
    | err e ↦ (err e, s)
  ]

  abbrev pub read_memory : ℕ → ℕ → Handler Rest (List ℕ)
  read_memory offset size s =
      let (bytes, memory) = Bytes.read offset size s.others.memory in
      (ok bytes, with_memory memory s)

  abbrev pub write_memory : ℕ → ℕ → List ℕ → Handler Rest (Unit {0})
  write_memory offset size bytes s = elim (Bytes.write offset size bytes s.others.memory) [
    | ok memory ↦ (ok tt, with_memory memory s)
    | err e ↦ (err e, s)
  ]

  unfoldable pub mload : Handler Rest (Unit {0})
  mload = do
    pos ← pop_word
    pos_num ← to_number pos
    word ← read_memory pos_num 32
    push_word (from_be word)

  unfoldable pub mstore : Handler Rest (Unit {0})
  mstore = do
    (offset, word) ← pop_words
    offset_num ← to_number offset
    write_memory offset_num 32 (to_be 32 word)

  -- `andln(0xff)` is the remainder.
  unfoldable pub mstore8 : Handler Rest (Unit {0})
  mstore8 = do
    (offset, byte) ← pop_words
    offset_num ← to_number offset
    write_memory offset_num 1 ((byte % 256) ∷ [])

  -- The checks of JUMP and JUMPI, and the jump. The code size of the EEI is that of the code that runs.
  unfoldable pub jump_to : ℕ → Handler Rest (Unit {0})
  jump_to dest = do
    s ← get_state
    trap_if (ltb (length s.code) dest) invalid_jump
    dest_num ← to_number dest
    trap_if (not (jump_is_valid s.valid_jumps dest_num)) invalid_jump
    set_counter dest_num

  unfoldable pub jump : Handler Rest (Unit {0})
  unfolding jump_to
  jump = do dest ← pop_word; jump_to dest

  unfoldable pub jumpi : Handler Rest (Unit {0})
  unfolding jump_to
  jumpi = do
    (dest, cond) ← pop_words
    elim (cond == 0) [ true ↦ trap_if false invalid_jump | false ↦ jump_to dest ]

  unfoldable pub pc : Handler Rest (Unit {0})
  pc = do s ← get_state; push_word (s.program_counter - 1)

  unfoldable pub msize : Handler Rest (Unit {0})
  msize = do s ← get_state; push_word (s.others.memory_word_count * 32)

  unfoldable pub gas : Handler Rest (Unit {0})
  gas = do s ← get_state; push_word s.meter.gas_left

  -- `runState.returnStack.pop` and `push`.
  abbrev pub pop_return : Handler Rest ℕ
  pop_return s = elim (Operands.pop s.others.return_stack) [
    | ok (v, stack) ↦ (ok v, with_return_stack stack s)
    | err e ↦ (err e, s)
  ]

  abbrev pub push_return : ℕ → Handler Rest (Unit {0})
  push_return v s = elim (Operands.push v s.others.return_stack) [
    | ok stack ↦ (ok tt, with_return_stack stack s)
    | err e ↦ (err e, s)
  ]

  unfoldable pub returnsub : Handler Rest (Unit {0})
  returnsub = do
    s ← get_state
    trap_if (ltb (length s.others.return_stack.store) 1) invalid_returnsub
    dest ← pop_return
    dest_num ← to_number dest
    set_counter dest_num

  unfoldable pub jumpsub : Handler Rest (Unit {0})
  jumpsub = do
    dest ← pop_word
    s ← get_state
    trap_if (ltb (length s.code) dest) invalid_jumpsub
    dest_num ← to_number dest
    trap_if (not (jump_sub_is_valid s.valid_jumps dest_num)) invalid_jumpsub
    push_return s.program_counter
    set_counter (dest_num + 1)

  -- PUSH1 to PUSH32; whether EIP 3540 is active is an argument.
  unfoldable pub push_bytes : Bool → ℕ → Handler Rest (Unit {0})
  push_bytes eip3540 op_code = do
    s ← get_state
    let num_to_push = op_code - 0x5f
    let counter = s.program_counter
    trap_if (eip3540 && ltb (length s.code) (counter + num_to_push)) out_of_range
    set_counter (counter + num_to_push)
    push_word (from_be (slice s.code counter (counter + num_to_push)))

  abbrev pub pop_op : Handler Rest (Unit {0})
  pop_op = do _ ← pop_word; trap_if false out_of_range

  abbrev pub jumpdest : Handler Rest (Unit {0})
  jumpdest = trap_if false invalid_jump

  abbrev pub beginsub : Handler Rest (Unit {0})
  beginsub = trap_if true invalid_beginsub

  abbrev pub push0 : Handler Rest (Unit {0})
  push0 = push_word 0

  abbrev pub dup_op : ℕ → Handler Rest (Unit {0})
  dup_op op_code = on_stack (Operands.dup (op_code - 0x7f))

  abbrev pub swap_op : ℕ → Handler Rest (Unit {0})
  swap_op op_code = on_stack (Operands.swap (op_code - 0x8f))

  -- The entries of the table that leave the program counter as it is; `other` has the opcodes of the
  -- remaining files.
  unfoldable pub plain_handler : (ℕ → Handler Rest (Unit {0})) → ℕ → Handler Rest (Unit {0})
  unfolding mload mstore mstore8 pc msize gas
  plain_handler other op =
      if op == 0x50
      then pop_op
      else if op == 0x51
      then mload
      else if op == 0x52
      then mstore
      else if op == 0x53
      then mstore8
      else if op == 0x58
      then pc
      else if op == 0x59
      then msize
      else if op == 0x5a
      then gas
      else if op == 0x5b
      then jumpdest
      else if op == 0x5c
      then beginsub
      else if op == 0x5f
      then push0
      else if leb 0x80 op && leb op 0x8f
      then dup_op op
      else if leb 0x90 op && leb op 0x9f
      then swap_op op
      else other op

  -- `handlers.get(op)`
  unfoldable pub handler : Bool → (ℕ → Handler Rest (Unit {0})) → ℕ → Handler Rest (Unit {0})
  unfolding plain_handler jump jumpi returnsub jumpsub push_bytes
  handler eip3540 other op =
      if op == 0x56
      then jump
      else if op == 0x57
      then jumpi
      else if op == 0x5d
      then returnsub
      else if op == 0x5e
      then jumpsub
      else if leb 0x60 op && leb op 0x7f
      then push_bytes eip3540 op
      else plain_handler other op
