-- ===== src/Evm/Handlers/Thrift.antt =====
-- The handlers of packages/vm/src/evm/opcodes/functions.ts on stack, memory and flow give no gas back.
use moola_fix.Common.{
  ℕ, ◌+◌, ◌-◌, ◌*◌, ◌%◌, ◌≤◌, inl, inr, Bool, true, false, not, ◌&&◌, List, [], ◌∷◌, length, slice,
  Result, ltb, leb, ◌==◌, if◌then◌else◌, Bool-cases, Result-cases, arith,
}
use moola_fix.Evm.Error.{
  VmError, out_of_range, invalid_jump, invalid_beginsub, invalid_returnsub, invalid_jumpsub,
}
use moola_fix.Common.Bytes.{from_be, to_be}
use moola_fix.Evm.Jumps.{jump_is_valid, jump_sub_is_valid}
use moola_fix.Evm.Stack as Operands
use moola_fix.Evm.Stack.{Stack}
use moola_fix.Evm.Memory as Bytes
use moola_fix.Evm.Handlers.{
  State, Handler, ◌>>=◌, ◌>>◌, get_state, trap_if, to_number, set_counter, on_stack, pop_word,
  pop_words, push_word, pop_return, push_return, max_safe_integer, read_memory, write_memory, mload,
  mstore, mstore8, jump_to, jump, jumpi, returnsub, jumpsub, push_bytes, pc, msize, gas,
  plain_handler, handler,
}

module _ {Rest : Type 0} where
  -- A handler leaves no more gas than there was, whether it returns or traps.
  pub record IsThrifty {A : Type 0} (f : Handler Rest A) : Type 0 where
    pub no_more : (s : State Rest) → (f s).1.meter.gas_left ≤ s.meter.gas_left

  then-IsThrifty :
      {A B : Type 0} {f : Handler Rest A} {k : A → Handler Rest B}
      → IsThrifty f
      → ((a : A) → IsThrifty (k a))
      → IsThrifty (f >>= k)
  unfolding ◌>>=◌
  then-IsThrifty {A} {B} {f} {k} hf hk = record {
    no_more = λ s. elim (Result-cases (f s).0) [
      | inl (a, e) ↦ rw (e, ◌>>=◌) (omega (arith, hf.no_more s, (hk a).no_more (f s).1))
      | inr (x, e) ↦ rw (e, ◌>>=◌) (hf.no_more s)
    ];
  }

  next-IsThrifty :
      {B : Type 0} {f : Handler Rest (Unit {0})} {g : Handler Rest B}
      → IsThrifty f
      → IsThrifty g
      → IsThrifty (f >> g)
  unfolding ◌>>◌
  next-IsThrifty hf hg = then-IsThrifty hf (λ _. hg)

  get_state-IsThrifty : IsThrifty (get_state {Rest = Rest})
  get_state-IsThrifty = record { no_more = λ s. omega arith }

  trap_if-IsThrifty : (c : Bool) (e : VmError) → IsThrifty (trap_if {Rest = Rest} c e)
  trap_if-IsThrifty true e = record { no_more = λ s. omega arith }
  trap_if-IsThrifty false e = record { no_more = λ s. omega arith }

  to_number-IsThrifty : (n : ℕ) → IsThrifty (to_number {Rest = Rest} n)
  to_number-IsThrifty n = record {
    no_more = λ s. elim (Bool-cases (ltb max_safe_integer n)) [
      | inl h ↦ rw (h, to_number) (omega arith)
      | inr h ↦ rw (h, to_number) (omega arith)
    ];
  }

  set_counter-IsThrifty : (n : ℕ) → IsThrifty (set_counter {Rest = Rest} n)
  set_counter-IsThrifty n = record { no_more = λ s. omega arith }

  on_stack-IsThrifty : (f : Stack → Result VmError Stack) → IsThrifty (on_stack {Rest = Rest} f)
  on_stack-IsThrifty f = record {
    no_more = λ s. elim (Result-cases (f s.others.stack)) [
      | inl (stack, e) ↦ rw (e, on_stack) (omega arith)
      | inr (x, e) ↦ rw (e, on_stack) (omega arith)
    ];
  }

  pop_word-IsThrifty : IsThrifty (pop_word {Rest = Rest})
  pop_word-IsThrifty = record {
    no_more = λ s. elim (Result-cases (Operands.pop s.others.stack)) [
      | inl (r, e) ↦ rw (e, pop_word) (omega arith)
      | inr (x, e) ↦ rw (e, pop_word) (omega arith)
    ];
  }

  pop_words-IsThrifty : IsThrifty (pop_words {Rest = Rest})
  pop_words-IsThrifty = record {
    no_more = λ s. elim (Result-cases (Operands.pop_n 2 s.others.stack)) [
      | inl (([], stack), e) ↦ rw (e, pop_words) (omega arith)
      | inl ((a ∷ [], stack), e) ↦ rw (e, pop_words) (omega arith)
      | inl ((a ∷ b ∷ [], stack), e) ↦ rw (e, pop_words) (omega arith)
      | inl ((a ∷ b ∷ c ∷ more, stack), e) ↦ rw (e, pop_words) (omega arith)
      | inr (x, e) ↦ rw (e, pop_words) (omega arith)
    ];
  }

  pop_return-IsThrifty : IsThrifty (pop_return {Rest = Rest})
  pop_return-IsThrifty = record {
    no_more = λ s. elim (Result-cases (Operands.pop s.others.return_stack)) [
      | inl (r, e) ↦ rw (e, pop_return) (omega arith)
      | inr (x, e) ↦ rw (e, pop_return) (omega arith)
    ];
  }

  push_return-IsThrifty : (v : ℕ) → IsThrifty (push_return {Rest = Rest} v)
  push_return-IsThrifty v = record {
    no_more = λ s. elim (Result-cases (Operands.push v s.others.return_stack)) [
      | inl (stack, e) ↦ rw (e, push_return) (omega arith)
      | inr (x, e) ↦ rw (e, push_return) (omega arith)
    ];
  }

  read_memory-IsThrifty : (offset size : ℕ) → IsThrifty (read_memory {Rest = Rest} offset size)
  read_memory-IsThrifty offset size = record { no_more = λ s. omega arith }

  write_memory-IsThrifty :
      (offset size : ℕ) (bytes : List ℕ) → IsThrifty (write_memory {Rest = Rest} offset size bytes)
  write_memory-IsThrifty offset size bytes = record {
    no_more = λ s. elim (Result-cases (Bytes.write offset size bytes s.others.memory)) [
      | inl (memory, e) ↦ rw (e, write_memory) (omega arith)
      | inr (x, e) ↦ rw (e, write_memory) (omega arith)
    ];
  }

  jump_to-IsThrifty : (dest : ℕ) → IsThrifty (jump_to {Rest = Rest} dest)
  unfolding jump_to
  jump_to-IsThrifty dest = then-IsThrifty get_state-IsThrifty (λ s.
      next-IsThrifty (trap_if-IsThrifty (ltb (length s.code) dest) invalid_jump) (
        then-IsThrifty (to_number-IsThrifty dest) (λ n.
          next-IsThrifty (trap_if-IsThrifty (not (jump_is_valid s.valid_jumps n)) invalid_jump)
            (set_counter-IsThrifty n))))

  jump-IsThrifty : IsThrifty (jump {Rest = Rest})
  unfolding jump
  jump-IsThrifty = then-IsThrifty pop_word-IsThrifty jump_to-IsThrifty

  jumpi-IsThrifty : IsThrifty (jumpi {Rest = Rest})
  unfolding jumpi
  jumpi-IsThrifty = then-IsThrifty pop_words-IsThrifty (λ (dest, cond). chosen dest (cond == 0))
    where
      chosen :
          (dest : ℕ) (stays : Bool)
          → IsThrifty (elim stays [
            | true ↦ trap_if false invalid_jump
            | false ↦ jump_to {Rest = Rest} dest
          ])
      chosen dest true = trap_if-IsThrifty false invalid_jump
      chosen dest false = jump_to-IsThrifty dest

  returnsub-IsThrifty : IsThrifty (returnsub {Rest = Rest})
  unfolding returnsub
  returnsub-IsThrifty = then-IsThrifty get_state-IsThrifty (λ s.
      next-IsThrifty
        (trap_if-IsThrifty (ltb (length s.others.return_stack.store) 1) invalid_returnsub)
        (then-IsThrifty pop_return-IsThrifty
          (λ dest. then-IsThrifty (to_number-IsThrifty dest) (λ n. set_counter-IsThrifty n))))

  jumpsub-IsThrifty : IsThrifty (jumpsub {Rest = Rest})
  unfolding jumpsub
  jumpsub-IsThrifty = then-IsThrifty pop_word-IsThrifty (λ dest.
      then-IsThrifty get_state-IsThrifty (λ s.
        next-IsThrifty (trap_if-IsThrifty (ltb (length s.code) dest) invalid_jumpsub) (
          then-IsThrifty (to_number-IsThrifty dest) (λ n.
            next-IsThrifty
              (trap_if-IsThrifty (not (jump_sub_is_valid s.valid_jumps n)) invalid_jumpsub)
              (next-IsThrifty (push_return-IsThrifty s.program_counter)
                (set_counter-IsThrifty (n + 1)))))))

  push_bytes-IsThrifty : (eip3540 : Bool) (op : ℕ) → IsThrifty (push_bytes {Rest = Rest} eip3540 op)
  unfolding push_bytes
  push_bytes-IsThrifty eip3540 op = then-IsThrifty get_state-IsThrifty (λ s.
      let end = s.program_counter + (op - 0x5f) in
      next-IsThrifty (trap_if-IsThrifty (eip3540 && ltb (length s.code) end) out_of_range) (
        next-IsThrifty (set_counter-IsThrifty end)
          (on_stack-IsThrifty (Operands.push (from_be (slice s.code s.program_counter end))))))

  mload-IsThrifty : IsThrifty (mload {Rest = Rest})
  unfolding mload
  mload-IsThrifty = then-IsThrifty pop_word-IsThrifty (λ pos.
      then-IsThrifty (to_number-IsThrifty pos) (λ n.
        then-IsThrifty (read_memory-IsThrifty n 32)
          (λ word. on_stack-IsThrifty (Operands.push (from_be word)))))

  mstore-IsThrifty : IsThrifty (mstore {Rest = Rest})
  unfolding mstore
  mstore-IsThrifty = then-IsThrifty pop_words-IsThrifty (λ (offset, word).
      then-IsThrifty (to_number-IsThrifty offset)
        (λ n. write_memory-IsThrifty n 32 (to_be 32 word)))

  mstore8-IsThrifty : IsThrifty (mstore8 {Rest = Rest})
  unfolding mstore8
  mstore8-IsThrifty = then-IsThrifty pop_words-IsThrifty (λ (offset, byte).
      then-IsThrifty (to_number-IsThrifty offset)
        (λ n. write_memory-IsThrifty n 1 ((byte % 256) ∷ [])))

  pushes-IsThrifty : (value : State Rest → ℕ) → IsThrifty (get_state >>= λ s. push_word (value s))
  pushes-IsThrifty value =
      then-IsThrifty get_state-IsThrifty (λ s. on_stack-IsThrifty (Operands.push (value s)))

  if-IsThrifty :
      (c : Bool) {f g : Handler Rest (Unit {0})}
      → IsThrifty f
      → IsThrifty g
      → IsThrifty (if c then f else g)
  if-IsThrifty true hf hg = hf
  if-IsThrifty false hf hg = hg

  plain_handler-IsThrifty :
      (other : ℕ → Handler Rest (Unit {0})) (op : ℕ)
      → IsThrifty (other op)
      → IsThrifty (plain_handler other op)
  unfolding plain_handler pc msize gas
  plain_handler-IsThrifty other op h =
      if-IsThrifty (op == 0x50)
        (then-IsThrifty pop_word-IsThrifty (λ _. trap_if-IsThrifty false out_of_range))
        (if-IsThrifty (op == 0x51) mload-IsThrifty (
          if-IsThrifty (op == 0x52) mstore-IsThrifty (
            if-IsThrifty (op == 0x53) mstore8-IsThrifty (
              if-IsThrifty (op == 0x58) (pushes-IsThrifty (λ s. s.program_counter - 1)) (
                if-IsThrifty (op == 0x59) (pushes-IsThrifty (λ s. s.others.memory_word_count * 32))
                  (if-IsThrifty (op == 0x5a) (pushes-IsThrifty (λ s. s.meter.gas_left)) (
                    if-IsThrifty (op == 0x5b) (trap_if-IsThrifty false invalid_jump) (
                      if-IsThrifty (op == 0x5c) (trap_if-IsThrifty true invalid_beginsub) (
                        if-IsThrifty (op == 0x5f) (on_stack-IsThrifty (Operands.push 0)) (
                          if-IsThrifty (leb 0x80 op && leb op 0x8f)
                            (on_stack-IsThrifty (Operands.dup (op - 0x7f)))
                            (if-IsThrifty (leb 0x90 op && leb op 0x9f)
                              (on_stack-IsThrifty (Operands.swap (op - 0x8f))) h)))))))))))

  pub handler-IsThrifty :
      (eip3540 : Bool) (other : ℕ → Handler Rest (Unit {0})) (op : ℕ)
      → IsThrifty (other op)
      → IsThrifty (handler eip3540 other op)
  unfolding handler
  handler-IsThrifty eip3540 other op h = if-IsThrifty (op == 0x56) jump-IsThrifty (
      if-IsThrifty (op == 0x57) jumpi-IsThrifty (
        if-IsThrifty (op == 0x5d) returnsub-IsThrifty (
          if-IsThrifty (op == 0x5e) jumpsub-IsThrifty (
            if-IsThrifty (leb 0x60 op && leb op 0x7f) (push_bytes-IsThrifty eip3540 op)
              (plain_handler-IsThrifty other op h)))))
