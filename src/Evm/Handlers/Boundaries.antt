-- ===== src/Evm/Handlers/Boundaries.antt =====
-- The program counter of packages/vm/src/evm/interpreter.ts stays on the instructions of the code.
use moola_fix.Common.{
  ℕ, ◌+◌, ◌≤◌, ◌≡◌, refl, sym, ap, subst, ◌∙◌, ◌⊎◌, inl, inr, Bool, true, false, List, length,
  get_or, All, err_not_ok, ok, err, ltb, arith, Bool-cases, ltb→lt,
}
use moola_fix.Evm.Error.{VmError, not_safe_integer}
use moola_fix.Evm.Stack.{Stack}
use moola_fix.Evm.Jumps.{valid_jump_dests}
use moola_fix.Evm.Jumps.Destinations.{instruction_size, StartsFrom, here, later}
use moola_fix.Evm.Interpreter.{Ran, is_jump}
use moola_fix.Evm.Handlers.{
  Machine, State, Handler, ◌>>=◌, ◌>>◌, max_safe_integer, trap_if, to_number,
}
use moola_fix.Evm.Handlers.Running.{IsSame}

-- A position at which an instruction of the code starts, or behind the code.
abbrev pub IsBoundary : List ℕ → ℕ → Type 0
IsBoundary code d = StartsFrom code 0 d ⊎ (length code ≤ d)

-- The position behind an instruction.
pub starts_next :
    (code : List ℕ) (i d : ℕ)
    → StartsFrom code i d
    → StartsFrom code i (d + instruction_size (get_or code d 0))
      ⊎ (length code ≤ d + instruction_size (get_or code d 0))
starts_next code i _ (here p) =
    let size = instruction_size (get_or code i 0) in
    elim (Bool-cases (ltb (i + size) (length code))) [
      | inl inside ↦ inl (later p (here (ltb→lt (i + size) (length code) inside)))
      | inr past ↦ inr (ground (arith, past))
    ]
starts_next code i d (later p s) = elim (starts_next code _ d s) [
  | inl next ↦ inl (later p next)
  | inr past ↦ inr past
]

module _ {Rest : Type 0} where
  -- The program counter and the items of the return stack are boundaries.
  abbrev pub IsSound : State Rest → Type 0
  IsSound s =
      IsBoundary s.code s.program_counter × All (IsBoundary s.code) s.others.return_stack.store

  -- A state that is sound, and has the code and the analysis of another.
  abbrev pub Follows : State Rest → State Rest → Type 0
  Follows s t =
      IsSound t
      × (t.code ≡ s.code)
      × (t.should_do_jump_analysis ≡ s.should_do_jump_analysis)
      × (t.valid_jumps ≡ s.valid_jumps)

  -- The state in which the handler of the instruction at `start` runs.
  pub record IsEntered (op start : ℕ) (s : State Rest) : Type 0 where
    pub counter : s.program_counter ≡ start + 1
    pub starts : StartsFrom s.code 0 start
    pub op_there : get_or s.code start 0 ≡ op
    pub analysed : is_jump op ≡ true → s.valid_jumps ≡ valid_jump_dests s.code
    pub returns : All (IsBoundary s.code) s.others.return_stack.store

  pub next-IsBoundary :
      (op start : ℕ) (s : State Rest)
      → IsEntered op start s
      → IsBoundary s.code (start + instruction_size op)
  next-IsBoundary op start s e =
      subst (λ (o : ℕ). IsBoundary s.code (start + instruction_size o)) e.op_there
        (starts_next s.code 0 start e.starts)

  -- What a handler has to show of the state behind it.
  pub to_Follows :
      (s t : State Rest)
      → t.code ≡ s.code
      → t.should_do_jump_analysis ≡ s.should_do_jump_analysis
      → t.valid_jumps ≡ s.valid_jumps
      → IsBoundary s.code t.program_counter
      → All (IsBoundary s.code) t.others.return_stack.store
      → Follows s t
  to_Follows s t code flag jumps at_boundary returns = (
    subst
        (λ (c : List ℕ).
          IsBoundary c t.program_counter × All (IsBoundary c) t.others.return_stack.store)
        (sym code) (at_boundary, returns),
    code,
    flag,
    jumps,
  )

  -- The state behind a handler that leaves the counter, of an instruction without data.
  pub same-Follows :
      (op start : ℕ) (s t : State Rest)
      → IsEntered op start s
      → instruction_size op ≡ 1
      → IsSame s t
      → Follows s t
  same-Follows op start s t e single (counter, code, flag, jumps, stack) =
      to_Follows s t code flag jumps
        (subst (IsBoundary s.code) (ap (λ (k : ℕ). start + k) single ∙ sym e.counter ∙ sym counter)
          (next-IsBoundary op start s e))
        (subst (λ (r : Stack). All (IsBoundary s.code) r.store) (sym stack) e.returns)

  pub state_of :
      {A : Type 0} {a b : A} {s t : State Rest}
      → ◌≡◌ {A = Ran (Machine Rest) A} (ok a, s) (ok b, t)
      → s ≡ t
  state_of {A} h = ap (λ (r : Ran (Machine Rest) A). r.1) h

  pub no_return :
      {A : Type 0} {x : VmError} {b : A} {s t : State Rest}
      → ¬ (◌≡◌ {A = Ran (Machine Rest) A} (err x, s) (ok b, t))
  no_return {A} h = err_not_ok (ap (λ (r : Ran (Machine Rest) A). r.0) h)

  -- A check that does not trap has passed.
  pub trap_if-passes :
      {A : Type 0} (c : Bool) (x : VmError) (k : Handler Rest A) {s t : State Rest} {b : A}
      → (trap_if c x >> k) s ≡ (ok b, t)
      → (c ≡ false) × (k s ≡ (ok b, t))
  unfolding ◌>>=◌ ◌>>◌
  trap_if-passes true x k h = absurd (no_return h)
  trap_if-passes false x k h = (refl, h)

  -- A sequence behind a first handler that returns, and behind one that traps.
  pub runs_on :
      {A B : Type 0} (f : Handler Rest A) (k : A → Handler Rest B) {s u : State Rest} {a : A}
      → f s ≡ (ok a, u)
      → (f >>= k) s ≡ k a u
  unfolding ◌>>=◌
  runs_on {A} {B} f k e =
      ap
        (λ (r : Ran (Machine Rest) A). elim r.0 as (λ _. Ran (Machine Rest) B) [
          | ok a ↦ k a r.1
          | err x ↦ (err x, r.1)
        ])
        e

  pub traps :
      {A B : Type 0} (f : Handler Rest A) (k : A → Handler Rest B) {s u : State Rest} {x : VmError}
      → f s ≡ (err x, u)
      → (f >>= k) s ≡ (err x, u)
  unfolding ◌>>=◌
  traps {A} {B} f k e =
      ap
        (λ (r : Ran (Machine Rest) A). elim r.0 as (λ _. Ran (Machine Rest) B) [
          | ok a ↦ k a r.1
          | err x ↦ (err x, r.1)
        ])
        e

  pub to_number-passes :
      {A : Type 0} (n : ℕ) (k : ℕ → Handler Rest A) {s t : State Rest} {b : A}
      → (to_number n >>= k) s ≡ (ok b, t)
      → k n s ≡ (ok b, t)
  to_number-passes n k {s} h = elim (Bool-cases (ltb max_safe_integer n)) [
    | inl big ↦
        let fail : to_number n s ≡ (err not_safe_integer, s) = rw (big, to_number) refl in
        absurd (no_return (sym (traps (to_number n) k fail) ∙ h))
    | inr small ↦ sym (runs_on (to_number n) k {s = s} (rw (small, to_number) refl)) ∙ h
  ]
