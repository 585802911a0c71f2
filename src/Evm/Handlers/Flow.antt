-- ===== src/Evm/Handlers/Flow.antt =====
-- Where the jumps and PUSH of packages/vm/src/evm/opcodes/functions.ts leave the program counter.
use moola_fix.Common.{
  ℕ, ◌+◌, ◌-◌, ◌≤◌, ◌≡◌, refl, sym, subst, ◌∙◌, inl, inr, Bool, true, false, not, List, length,
  slice, All, ok, err, ltb, ◌==◌, ◌&&◌, arith, Bool-cases, Result-cases,
}
use moola_fix.Common.Bytes.{from_be}
use moola_fix.Evm.Error.{invalid_jump, invalid_jumpsub, invalid_returnsub, out_of_range}
use moola_fix.Evm.Stack as Operands
use moola_fix.Evm.Stack.{Stack}
use moola_fix.Evm.Stack.Invariant.{push-All, pop-All}
use moola_fix.Evm.Jumps.{valid_jump_dests, jump_is_valid, jump_sub_is_valid}
use moola_fix.Evm.Jumps.Destinations.{instruction_size, jump_is_valid_iff, jump_sub_is_valid_iff}
use moola_fix.Evm.Interpreter.{is_jump}
use moola_fix.Evm.Handlers.{
  State, Handler, ◌>>=◌, ◌>>◌, get_state, trap_if, to_number, set_counter, with_stack,
  with_return_stack, on_stack, pop_word, pop_words, push_word, pop_return, push_return, jump_to,
  jump, jumpi, returnsub, jumpsub, push_bytes,
}
use moola_fix.Evm.Handlers.Running.{
  IsSame, pop_word-Keeps, pop_words-Keeps, >>=-returns, returns-IsSame,
}
use moola_fix.Evm.Handlers.Boundaries.{
  IsBoundary, starts_next, Follows, IsEntered, next-IsBoundary, to_Follows, same-Follows, state_of,
  no_return, trap_if-passes, runs_on, traps, to_number-passes,
}

module _ {Rest : Type 0} where
  -- Where `jump_to` returns, it has gone to a valid destination.
  jump_to-lands :
      (dest : ℕ) (s t : State Rest)
      → jump_to dest s ≡ (ok tt, t)
      → (jump_is_valid s.valid_jumps dest ≡ true) × (record s { program_counter = dest } ≡ t)
  unfolding jump_to ◌>>=◌ ◌>>◌
  jump_to-lands dest s t h =
      let checks = λ (dest_num : ℕ).
        trap_if {Rest = Rest} (not (jump_is_valid s.valid_jumps dest_num)) invalid_jump
        >> set_counter dest_num in
      let (_, ranged) =
        trap_if-passes (ltb (length s.code) dest) invalid_jump (to_number dest >>= checks) h in
      let numbered = to_number-passes dest checks ranged in
      let (valid, landed) =
        trap_if-passes (not (jump_is_valid s.valid_jumps dest)) invalid_jump (set_counter dest)
          numbered in
      (ground (arith, valid), state_of landed)

  -- A jump from a state with the code of the one that was entered.
  landed-Follows :
      (op start dest : ℕ) (s u t : State Rest)
      → IsEntered op start s
      → is_jump op ≡ true
      → IsSame s u
      → jump_to dest u ≡ (ok tt, t)
      → Follows s t
  landed-Follows op start dest s u t e jumps_op (counter, code, flag, jumps, stack) h =
      let (valid, landed) = jump_to-lands dest u t h in
      let marked : jump_is_valid (valid_jump_dests s.code) dest ≡ true =
        subst (λ (j : List ℕ). jump_is_valid j dest ≡ true) (jumps ∙ e.analysed jumps_op) valid in
      subst (Follows s) landed (
        to_Follows s (record u { program_counter = dest }) code flag jumps
          (inl ((jump_is_valid_iff s.code dest).0 marked).0)
          (subst (λ (r : Stack). All (IsBoundary s.code) r.store) (sym stack) e.returns))

  pub jump-Follows :
      (start : ℕ) (s t : State Rest) → IsEntered 0x56 start s → jump s ≡ (ok tt, t) → Follows s t
  unfolding jump is_jump
  jump-Follows start s t e h =
      let (dest, u, popped, jumped) = >>=-returns pop_word jump_to h in
      landed-Follows 0x56 start dest s u t e refl (returns-IsSame pop_word-Keeps popped) jumped

  pub jumpi-Follows :
      (start : ℕ) (s t : State Rest) → IsEntered 0x57 start s → jumpi s ≡ (ok tt, t) → Follows s t
  unfolding jumpi is_jump
  jumpi-Follows start s t e h =
      let (words, u, popped, rest) =
        >>=-returns pop_words
          (λ (words : ℕ × ℕ). elim (words.1 == 0) as (λ _. Handler Rest (Unit {0})) [
            | true ↦ trap_if false invalid_jump
            | false ↦ jump_to words.0
          ])
          h in
      elim (Bool-cases (words.1 == 0)) [
        | inl zero_cond ↦ same-Follows 0x57 start s t e refl (
            subst (IsSame s) (state_of (rw zero_cond at rest))
              (returns-IsSame pop_words-Keeps popped))
        | inr cond ↦
            landed-Follows 0x57 start words.0 s u t e refl (returns-IsSame pop_words-Keeps popped)
              (rw cond at rest)
      ]

  pub returnsub-Follows :
      (start : ℕ) (s t : State Rest)
      → IsEntered 0x5d start s
      → returnsub s ≡ (ok tt, t)
      → Follows s t
  unfolding returnsub ◌>>=◌ ◌>>◌
  returnsub-Follows start s t e h =
      let jump_back =
        λ (dest : ℕ). to_number {Rest = Rest} dest >>= λ dest_num. set_counter dest_num in
      let (_, left) =
        trap_if-passes (ltb (length s.others.return_stack.store) 1) invalid_returnsub
          (pop_return >>= jump_back) h in
      elim (Result-cases (Operands.pop s.others.return_stack)) [
        | inr (x, failed) ↦
            let fail : pop_return s ≡ (err x, s) = rw (failed, pop_return) refl in
            absurd (no_return (sym (traps pop_return jump_back fail) ∙ left))
        | inl ((dest, stack), popped) ↦
            let run : pop_return s ≡ (ok dest, with_return_stack stack s) =
              rw (popped, pop_return) refl in
            let back =
              to_number-passes dest set_counter (sym (runs_on pop_return jump_back run) ∙ left) in
            let (at_boundary, others) =
              pop-All (IsBoundary s.code) s.others.return_stack stack dest popped e.returns in
            subst (Follows s) (state_of back) (
              to_Follows s (record (with_return_stack stack s) { program_counter = dest }) refl refl
                refl at_boundary others)
      ]

  -- JUMPSUB behind the checks: the position behind it is pushed.
  enter_sub : ℕ → ℕ → Handler Rest (Unit {0})
  enter_sub counter dest = push_return counter >> set_counter (dest + 1)

  enter_sub-Follows :
      (start dest : ℕ) (s u t : State Rest)
      → IsEntered 0x5e start s
      → IsSame s u
      → jump_sub_is_valid u.valid_jumps dest ≡ true
      → enter_sub u.program_counter dest u ≡ (ok tt, t)
      → Follows s t
  unfolding enter_sub is_jump ◌>>◌
  enter_sub-Follows start dest s u t e (counter, code, flag, jumps, stack) valid h =
      let marked : jump_sub_is_valid (valid_jump_dests s.code) dest ≡ true =
        subst (λ (j : List ℕ). jump_sub_is_valid j dest ≡ true) (jumps ∙ e.analysed refl) valid in
      let (starts, opens) = (jump_sub_is_valid_iff s.code dest).0 marked in
      let behind : IsBoundary s.code u.program_counter =
        subst (IsBoundary s.code) (sym e.counter ∙ sym counter) (next-IsBoundary 0x5e start s e) in
      let inside : IsBoundary s.code (dest + 1) =
        subst (λ (o : ℕ). IsBoundary s.code (dest + instruction_size o)) opens
          (starts_next s.code 0 dest starts) in
      let old = subst (λ (r : Stack). All (IsBoundary s.code) r.store) (sym stack) e.returns in
      elim (Result-cases (Operands.push u.program_counter u.others.return_stack)) [
        | inr (x, failed) ↦
            let fail : push_return u.program_counter u ≡ (err x, u) =
              rw (failed, push_return) refl in
            absurd (
              no_return (
                sym (traps (push_return u.program_counter) (λ _. set_counter (dest + 1)) fail) ∙ h))
        | inl (returns, pushed) ↦
            let run : push_return u.program_counter u ≡ (ok tt, with_return_stack returns u) =
              rw (pushed, push_return) refl in
            subst (Follows s)
              (state_of (
                sym (runs_on (push_return u.program_counter) (λ _. set_counter (dest + 1)) run)
                ∙ h))
              (to_Follows s (record (with_return_stack returns u) { program_counter = dest + 1 })
                code flag jumps inside
                (push-All (IsBoundary s.code) u.program_counter u.others.return_stack returns pushed
                  old behind))
      ]

  pub jumpsub-Follows :
      (start : ℕ) (s t : State Rest) → IsEntered 0x5e start s → jumpsub s ≡ (ok tt, t) → Follows s t
  unfolding jumpsub enter_sub ◌>>=◌ ◌>>◌
  jumpsub-Follows start s t e h =
      let enter = λ (u : State Rest) (dest_num : ℕ).
        trap_if {Rest = Rest} (not (jump_sub_is_valid u.valid_jumps dest_num)) invalid_jumpsub
        >> enter_sub u.program_counter dest_num in
      let checked = λ (dest : ℕ) (u : State Rest).
        trap_if {Rest = Rest} (ltb (length u.code) dest) invalid_jumpsub
        >> (to_number dest >>= enter u) in
      let (dest, u, popped, rest) =
        >>=-returns pop_word (λ (dest : ℕ). get_state >>= checked dest) h in
      let (_, ranged) =
        trap_if-passes (ltb (length u.code) dest) invalid_jumpsub (to_number dest >>= enter u)
          rest in
      let (valid, entered) =
        trap_if-passes (not (jump_sub_is_valid u.valid_jumps dest)) invalid_jumpsub
          (enter_sub u.program_counter dest) (to_number-passes dest (enter u) ranged) in
      enter_sub-Follows start dest s u t e (returns-IsSame pop_word-Keeps popped)
        (ground (arith, valid)) entered

  pub push_bytes-Follows :
      (eip3540 : Bool) (op start : ℕ) (s t : State Rest)
      → 0x60 ≤ op
      → op ≤ 0x7f
      → IsEntered op start s
      → push_bytes eip3540 op s ≡ (ok tt, t)
      → Follows s t
  unfolding push_bytes ◌>>=◌ ◌>>◌
  push_bytes-Follows eip3540 op start s t low high e h =
      let counter = s.program_counter + (op - 0x5f) in
      let word = from_be (slice s.code s.program_counter counter) in
      let moved = record s { program_counter = counter } in
      let (_, pushes) =
        trap_if-passes (eip3540 && ltb (length s.code) counter) out_of_range
          (set_counter counter >> push_word word) h in
      elim (Result-cases (Operands.push word s.others.stack)) [
        | inr (x, failed) ↦
            let run : push_word word moved ≡ (err x, moved) =
              rw (failed, push_word, on_stack) refl in
            absurd (no_return (sym run ∙ pushes))
        | inl (stack, pushed) ↦
            let next : start + instruction_size op ≡ counter =
              ground (arith, low, high, e.counter) in
            let run : push_word word moved ≡ (ok tt, with_stack stack moved) =
              rw (pushed, push_word, on_stack) refl in
            subst (Follows s) (state_of (sym run ∙ pushes)) (
              to_Follows s (with_stack stack moved) refl refl refl
                (subst (IsBoundary s.code) next (next-IsBoundary op start s e)) e.returns)
      ]
