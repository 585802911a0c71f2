-- ===== src/Evm/Handlers/Running.antt =====
-- What the handlers of packages/vm/src/evm/opcodes/functions.ts leave as it is, and how a sequence of
-- steps of a handler runs.
use moola_fix.Common.{
  ℕ, ◌-◌, ◌*◌, ◌%◌, ◌≡◌, refl, ap, subst, ◌∙◌, inl, inr, Bool, true, false, List, [], ◌∷◌, Result,
  err_not_ok, ok, ltb, leb, ◌==◌, ◌&&◌, if◌then◌else◌, Bool-cases, Result-cases,
}
use moola_fix.Evm.Error.{VmError, out_of_range, invalid_jump, invalid_beginsub}
use moola_fix.Common.Bytes.{from_be, to_be}
use moola_fix.Evm.Interpreter.{Ran}
use moola_fix.Evm.Stack as Operands
use moola_fix.Evm.Stack.{Stack}
use moola_fix.Evm.Memory as Bytes
use moola_fix.Evm.Handlers.{
  Machine, State, Handler, ◌>>=◌, get_state, trap_if, to_number, on_stack, pop_word, pop_words,
  push_word, max_safe_integer, read_memory, write_memory, mload, mstore, mstore8, pc, msize, gas,
  plain_handler,
}

module _ {Rest : Type 0} where
  -- A state has the program counter, the code, the jump analysis and the return stack of another.
  abbrev pub IsSame : State Rest → State Rest → Type 0
  IsSame s s' =
      (s'.program_counter ≡ s.program_counter)
      × (s'.code ≡ s.code)
      × (s'.should_do_jump_analysis ≡ s.should_do_jump_analysis)
      × (s'.valid_jumps ≡ s.valid_jumps)
      × (s'.others.return_stack ≡ s.others.return_stack)

  pub same : (s : State Rest) → IsSame s s
  same s = (refl, refl, refl, refl, refl)

  pub IsSame-trans : (s t u : State Rest) → IsSame s t → IsSame t u → IsSame s u
  IsSame-trans s t u (a, b, c, d, e) (a', b', c', d', e') = (a' ∙ a, b' ∙ b, c' ∙ c, d' ∙ d, e' ∙ e)

  -- A handler leaves these as they are, whether it returns or traps.
  pub record Keeps {A : Type 0} (f : Handler Rest A) : Type 0 where
    pub keeps : (s : State Rest) → IsSame s (f s).1

  pub >>=-Keeps :
      {A B : Type 0} {f : Handler Rest A} {k : A → Handler Rest B}
      → Keeps f
      → ((a : A) → Keeps (k a))
      → Keeps (f >>= k)
  unfolding ◌>>=◌
  >>=-Keeps {A} {B} {f} {k} hf hk = record {
    keeps = λ s. elim (Result-cases (f s).0) [
      | inl (a, e) ↦
          rw (e, ◌>>=◌) (IsSame-trans s (f s).1 (k a (f s).1).1 (hf.keeps s) ((hk a).keeps (f s).1))
      | inr (x, e) ↦ rw (e, ◌>>=◌) (hf.keeps s)
    ];
  }

  trap_if-Keeps : (c : Bool) (e : VmError) → Keeps (trap_if {Rest = Rest} c e)
  trap_if-Keeps c e = record {
    keeps = λ s. elim (Bool-cases c) [
      | inl h ↦ rw (h, trap_if) (same s)
      | inr h ↦ rw (h, trap_if) (same s)
    ];
  }

  to_number-Keeps : (n : ℕ) → Keeps (to_number {Rest = Rest} n)
  to_number-Keeps n = record {
    keeps = λ s. elim (Bool-cases (ltb max_safe_integer n)) [
      | inl h ↦ rw (h, to_number) (same s)
      | inr h ↦ rw (h, to_number) (same s)
    ];
  }

  on_stack-Keeps : (f : Stack → Result VmError Stack) → Keeps (on_stack {Rest = Rest} f)
  on_stack-Keeps f = record {
    keeps = λ s. elim (Result-cases (f s.others.stack)) [
      | inl (stack, e) ↦ rw (e, on_stack) (refl, refl, refl, refl, refl)
      | inr (x, e) ↦ rw (e, on_stack) (same s)
    ];
  }

  pub pop_word-Keeps : Keeps (pop_word {Rest = Rest})
  pop_word-Keeps = record {
    keeps = λ s. elim (Result-cases (Operands.pop s.others.stack)) [
      | inl (r, e) ↦ rw (e, pop_word) (refl, refl, refl, refl, refl)
      | inr (x, e) ↦ rw (e, pop_word) (same s)
    ];
  }

  pub pop_words-Keeps : Keeps (pop_words {Rest = Rest})
  pop_words-Keeps = record {
    keeps = λ s. elim (Result-cases (Operands.pop_n 2 s.others.stack)) [
      | inl (([], stack), e) ↦ rw (e, pop_words) (same s)
      | inl ((a ∷ [], stack), e) ↦ rw (e, pop_words) (same s)
      | inl ((a ∷ b ∷ [], stack), e) ↦ rw (e, pop_words) (refl, refl, refl, refl, refl)
      | inl ((a ∷ b ∷ c ∷ more, stack), e) ↦ rw (e, pop_words) (same s)
      | inr (x, e) ↦ rw (e, pop_words) (same s)
    ];
  }

  write_memory-Keeps :
      (offset size : ℕ) (bytes : List ℕ) → Keeps (write_memory {Rest = Rest} offset size bytes)
  write_memory-Keeps offset size bytes = record {
    keeps = λ s. elim (Result-cases (Bytes.write offset size bytes s.others.memory)) [
      | inl (memory, e) ↦ rw (e, write_memory) (refl, refl, refl, refl, refl)
      | inr (x, e) ↦ rw (e, write_memory) (same s)
    ];
  }

  read_memory-Keeps : (offset size : ℕ) → Keeps (read_memory {Rest = Rest} offset size)
  read_memory-Keeps offset size = record { keeps = λ s. (refl, refl, refl, refl, refl) }

  get_state-Keeps : Keeps (get_state {Rest = Rest})
  get_state-Keeps = record { keeps = same }

  mload-Keeps : Keeps (mload {Rest = Rest})
  unfolding mload
  mload-Keeps = >>=-Keeps pop_word-Keeps (λ pos. >>=-Keeps (to_number-Keeps pos) (λ pos_num.
      >>=-Keeps (read_memory-Keeps pos_num 32)
        (λ word. on_stack-Keeps (Operands.push (from_be word)))))

  mstore-Keeps : Keeps (mstore {Rest = Rest})
  unfolding mstore
  mstore-Keeps = >>=-Keeps pop_words-Keeps (λ (offset, word).
      >>=-Keeps (to_number-Keeps offset)
        (λ offset_num. write_memory-Keeps offset_num 32 (to_be 32 word)))

  mstore8-Keeps : Keeps (mstore8 {Rest = Rest})
  unfolding mstore8
  mstore8-Keeps = >>=-Keeps pop_words-Keeps (λ (offset, byte).
      >>=-Keeps (to_number-Keeps offset)
        (λ offset_num. write_memory-Keeps offset_num 1 ((byte % 256) ∷ [])))

  -- A handler that reads the state and pushes a word.
  pushes-Keeps : (value : State Rest → ℕ) → Keeps (get_state >>= λ s. push_word (value s))
  pushes-Keeps value = >>=-Keeps get_state-Keeps (λ s. on_stack-Keeps (Operands.push (value s)))

  if-Keeps :
      (c : Bool) {f g : Handler Rest (Unit {0})} → Keeps f → Keeps g → Keeps (if c then f else g)
  if-Keeps true hf hg = hf
  if-Keeps false hf hg = hg

  -- The handlers that are no jumps and push no bytes of the code leave the program counter, where the
  -- handlers of the other files do.
  pub plain_handler-Keeps :
      (other : ℕ → Handler Rest (Unit {0})) (op : ℕ)
      → ((op : ℕ) → Keeps (other op))
      → Keeps (plain_handler other op)
  unfolding plain_handler pc msize gas
  plain_handler-Keeps other op h =
      if-Keeps (op == 0x50) (>>=-Keeps pop_word-Keeps (λ _. trap_if-Keeps false out_of_range)) (
        if-Keeps (op == 0x51) mload-Keeps (
          if-Keeps (op == 0x52) mstore-Keeps (
            if-Keeps (op == 0x53) mstore8-Keeps (
              if-Keeps (op == 0x58) (pushes-Keeps (λ s. s.program_counter - 1)) (
                if-Keeps (op == 0x59) (pushes-Keeps (λ s. s.others.memory_word_count * 32)) (
                  if-Keeps (op == 0x5a) (pushes-Keeps (λ s. s.meter.gas_left)) (
                    if-Keeps (op == 0x5b) (trap_if-Keeps false invalid_jump) (
                      if-Keeps (op == 0x5c) (trap_if-Keeps true invalid_beginsub) (
                        if-Keeps (op == 0x5f) (on_stack-Keeps (Operands.push 0)) (
                          if-Keeps (leb 0x80 op && leb op 0x8f)
                            (on_stack-Keeps (Operands.dup (op - 0x7f)))
                            (if-Keeps (leb 0x90 op && leb op 0x9f)
                              (on_stack-Keeps (Operands.swap (op - 0x8f))) (h op))))))))))))

  -- What a sequence of two handlers has run through, where it returns.
  pub >>=-returns :
      {A B : Type 0} (f : Handler Rest A) (k : A → Handler Rest B) {s t : State Rest} {b : B}
      → (f >>= k) s ≡ (ok b, t)
      → (a : A) × (u : State Rest) × (f s ≡ (ok a, u)) × (k a u ≡ (ok b, t))
  unfolding ◌>>=◌
  >>=-returns {A} {B} f k {s} {t} h = elim (Result-cases (f s).0) [
    | inl (a, e) ↦ (a, (f s).1, λ i. (e i, (f s).1), rw (e, ◌>>=◌) at h)
    | inr (x, e) ↦ absurd (err_not_ok (ap (λ (r : Ran (Machine Rest) B). r.0) (rw (e, ◌>>=◌) at h)))
  ]

  -- The state behind a handler that returns.
  pub returns-IsSame :
      {A : Type 0} {f : Handler Rest A} {s t : State Rest} {a : A}
      → Keeps f
      → f s ≡ (ok a, t)
      → IsSame s t
  returns-IsSame {A} {f} {s} {t} h e =
      subst (IsSame s) (ap (λ (r : Ran (Machine Rest) A). r.1) e) (h.keeps s)
