-- ===== src/Evm/Interpreter.antt =====
-- The loop of packages/vm/src/evm/interpreter.ts, `run` and `runStep`, over code that is no EOF
-- container. The opcode table and the handlers are arguments, as `_vm._opcodes`,
-- `_vm._dynamicGasHandlers` and `_vm._handlers` are in the code.
pub mod Loop
mod Tests
use moola_fix.Common.{
  ℕ, zero, suc, ◌+◌, Bool, true, false, not, ◌&&◌, ◌||◌, List, length, get_or, Result, ok, err, leb,
  ltb, ◌==◌, if◌then◌else◌,
}
use moola_fix.Evm.Error.{VmError, stop, invalid_opcode, assertion, not_safe_integer}
use moola_fix.Evm.Meter.{Meter, use_gas}
use moola_fix.Evm.Jumps.{valid_jump_dests}

-- `RunState`; `others` is what the loop itself does not read: stack, memory and the state behind the
-- EEI. `meter` holds the gas counters of the EEI.
pub record RunState (Others : Type 0) : Type 0 where
  pub program_counter : ℕ
  pub op_code : ℕ
  pub code : List ℕ
  pub should_do_jump_analysis : Bool
  pub valid_jumps : List ℕ
  pub meter : Meter
  pub others : Others

-- The fields of `Opcode` that the loop reads.
pub record OpInfo : Type 0 where
  pub fee : ℕ
  pub dynamic_gas : Bool
  pub is_invalid : Bool

-- What a handler returns or throws, and the run state that it leaves.
abbrev pub Ran : Type 0 → Type 0 → Type 0
Ran Others A = Result VmError A × RunState Others

-- How a run ends: the code is at its end or has stopped, a `VmError` is reported, or another error
-- goes on to the caller.
pub data Outcome : Type 0 where
  finished : Outcome
  exception : VmError → Outcome
  thrown : VmError → Outcome
  pc_not_in_range : Outcome
  -- The fuel of the model is used up.
  out_of_fuel : Outcome

-- JUMP, JUMPI and JUMPSUB.
unfoldable pub is_jump : ℕ → Bool
is_jump op = op == 0x56 || op == 0x57 || op == 0x5e

-- The errors that are no `VmError`.
unfoldable pub is_vm_error : VmError → Bool
is_vm_error assertion = false
is_vm_error not_safe_integer = false
is_vm_error _ = true

unfoldable pub is_stop : VmError → Bool
is_stop stop = true
is_stop _ = false

-- The `catch` of the loop.
unfoldable pub caught : VmError → Outcome
caught e = if is_stop e then finished else if is_vm_error e then exception e else thrown e

module _ {Others : Type 0} where
  -- The body of the loop before the step: the jump analysis on the first jump, and the opcode.
  unfoldable pub prepare : RunState Others → RunState Others
  unfolding is_jump
  prepare s =
      let op = get_or s.code s.program_counter 0 in
      let analysed = record s {
        valid_jumps = valid_jump_dests s.code;
        should_do_jump_analysis = false;
      } in
      let ready = if s.should_do_jump_analysis && is_jump op then analysed else s in
      record (ready) { op_code = op }

  module _ (lookup_op_info : ℕ → OpInfo)
      (dynamic_gas_handler : ℕ → ℕ → RunState Others → Ran Others ℕ)
      (handler : ℕ → RunState Others → Ran Others (Unit {0})) where
    -- The step behind the charge: the program counter moves on and the handler runs.
    unfoldable pub execute :
        ℕ → Result VmError (Unit {0}) × Meter → RunState Others → Ran Others (Unit {0})
    execute op (ok _, meter) s =
        handler op (record s { meter = meter; program_counter = s.program_counter + 1 })
    execute op (err e, meter) s = (err e, record s { meter = meter })

    -- The step behind the dynamic gas.
    unfoldable pub charge : ℕ → OpInfo → Ran Others ℕ → Ran Others (Unit {0})
    unfolding execute
    charge op info (ok gas, s) =
        if info.is_invalid then (err invalid_opcode, s) else execute op (use_gas gas s.meter) s
    charge op info (err e, s) = (err e, s)

    -- `runStep`
    unfoldable pub run_step : RunState Others → Ran Others (Unit {0})
    unfolding charge
    run_step s =
        let info = lookup_op_info s.op_code in
        charge s.op_code info
          (if info.dynamic_gas then dynamic_gas_handler s.op_code info.fee s else (ok info.fee, s))

    -- The loop behind a step.
    unfoldable pub go_on :
        (RunState Others → Outcome × RunState Others)
        → Ran Others (Unit {0})
        → Outcome × RunState Others
    go_on rest (ok _, s) = rest s
    go_on rest (err e, s) = (caught e, s)

    -- The loop of `run`, with fuel for its rounds.
    unfoldable pub run_loop : ℕ → RunState Others → Outcome × RunState Others
    unfolding run_step prepare go_on
    run_loop zero s = (out_of_fuel, s)
    run_loop (suc fuel) s =
        let round = go_on (run_loop fuel) (run_step (prepare s)) in
        if ltb s.program_counter (length s.code) then round else (finished, s)

    -- `run` from the program counter of the run state.
    unfoldable pub run : ℕ → RunState Others → Outcome × RunState Others
    unfolding run_loop
    run fuel s =
        if not (s.program_counter == 0) && leb (length s.code) s.program_counter
        then (pc_not_in_range, s)
        else run_loop fuel s
