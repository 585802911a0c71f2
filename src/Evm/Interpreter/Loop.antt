-- ===== src/Evm/Interpreter/Loop.antt =====
-- The loop of the interpreter: it ends, and jumps are tested against the analysis of the code.
use moola_fix.Common.{
  ℕ, zero, suc, ◌<◌, ◌≡◌, ◌≢◌, refl, inl, inr, false, length, get_or, ok, err, ltb, if◌then◌else◌,
  arith, Bool-cases,
}
use moola_fix.Evm.Error.{VmError}
use moola_fix.Evm.Jumps.{valid_jump_dests}
use moola_fix.Evm.Interpreter.{
  RunState, OpInfo, Ran, out_of_fuel, is_jump, caught, prepare, run_step, run_loop, go_on,
}

-- The analysis that the run state holds, where it has been done, is that of the code.
abbrev pub IsAnalysed : {Others : Type 0} → RunState Others → Type 0
IsAnalysed s = s.should_do_jump_analysis ≡ false → s.valid_jumps ≡ valid_jump_dests s.code

-- Before each step the run state holds the analysis of the code if the opcode is a jump; a state
-- whose analysis is that of the code stays one.
pub prepare-IsAnalysed :
    {Others : Type 0} (s : RunState Others)
    → IsAnalysed s
    → IsAnalysed (prepare s)
      × ((prepare s).code ≡ s.code)
      × ((prepare s).op_code ≡ get_or s.code s.program_counter 0)
      × (if is_jump (prepare s).op_code
          then (prepare s).valid_jumps ≡ valid_jump_dests s.code
          else Unit)
unfolding prepare
prepare-IsAnalysed s h = elim (Bool-cases s.should_do_jump_analysis) [
  | inl due ↦ elim (Bool-cases (is_jump (get_or s.code s.program_counter 0))) [
    | inl jump ↦ rw (due, jump) (λ _. refl, refl, refl, refl)
    | inr other ↦ rw (due, other) (λ e. absurd (cc), refl, refl, tt)
  ]
  | inr done ↦ elim (Bool-cases (is_jump (get_or s.code s.program_counter 0))) [
    | inl jump ↦ rw (done, jump) (λ _. h done, refl, refl, h done)
    | inr other ↦ rw (done, other) (λ _. h done, refl, refl, tt)
  ]
]

-- The body of the loop before the step charges nothing.
pub prepare_keeps_gas :
    {Others : Type 0} (s : RunState Others) → (prepare s).meter.gas_left ≡ s.meter.gas_left
unfolding prepare
prepare_keeps_gas s = ground arith

caught_ends : (e : VmError) → caught e ≢ out_of_fuel
unfolding caught
caught_ends e = ground arith

module _ {Others : Type 0} (lookup_op_info : ℕ → OpInfo)
    (dynamic_gas_handler : ℕ → ℕ → RunState Others → Ran Others ℕ)
    (handler : ℕ → RunState Others → Ran Others (Unit {0})) where
  -- The step and the loop with these tables.
  abbrev step : RunState Others → Ran Others (Unit {0})
  step = run_step lookup_op_info dynamic_gas_handler handler

  module _
      (spends : (s s' : RunState Others)
        → step (prepare s) ≡ (ok tt, s')
        → s'.meter.gas_left < s.meter.gas_left) where
    go_on_ends :
        (fuel : ℕ) (s : RunState Others) (r : Ran Others (Unit {0}))
        → step (prepare s) ≡ r
        → s.meter.gas_left < suc fuel
        → ((t : RunState Others)
            → t.meter.gas_left < fuel
            → (run_loop lookup_op_info dynamic_gas_handler handler fuel t).0 ≢ out_of_fuel)
        → (go_on lookup_op_info dynamic_gas_handler handler
            (run_loop lookup_op_info dynamic_gas_handler handler fuel)
            r).0
          ≢ out_of_fuel
    unfolding go_on
    go_on_ends fuel s (ok tt, t) e h rest = rest t (omega (arith, spends s t e))
    go_on_ends fuel s (err e, t) _ h rest = caught_ends e

    -- Where every step that returns leaves less gas, a run ends: with one round more than gas is
    -- left, the fuel is not used up.
    pub run_loop_ends :
        (fuel : ℕ) (s : RunState Others)
        → s.meter.gas_left < fuel
        → (run_loop lookup_op_info dynamic_gas_handler handler fuel s).0 ≢ out_of_fuel
    unfolding run_loop
    run_loop_ends zero s h = absurd (omega (arith, h))
    run_loop_ends (suc fuel) s h = elim (Bool-cases (ltb s.program_counter (length s.code))) [
      | inl inside ↦ rw inside (go_on_ends fuel s (step (prepare s)) refl h (run_loop_ends fuel))
      | inr past ↦ rw past (λ e. cc)
    ]
