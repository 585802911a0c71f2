-- ===== src/Evm/Interpreter/Tests.antt =====
-- The loop with a small table of opcodes.
use moola_fix.Common.{ℕ, ◌≡◌, refl, true, false, [], ◌∷◌, List, ok, err, ◌==◌, if◌then◌else◌}
use moola_fix.Evm.Error.{stop, invalid_opcode}
use moola_fix.Evm.Meter.{use_gas}
use moola_fix.Evm.Interpreter.{
  RunState, OpInfo, Ran, finished, exception, is_jump, is_stop, is_vm_error, caught, prepare,
  execute, charge, run_step, go_on, run_loop, run,
}

-- Each opcode costs 1; 0xfe is invalid.
abbrev table : ℕ → OpInfo
table op = record { fee = 1; dynamic_gas = false; is_invalid = op == 0xfe }

abbrev no_dynamic_gas : ℕ → ℕ → RunState Unit → Ran Unit ℕ
no_dynamic_gas op gas s = (ok gas, s)

-- JUMPDEST does nothing, and what else there is stops.
abbrev handlers : ℕ → RunState Unit → Ran Unit (Unit {0})
handlers op s = if op == 0x5b then (ok tt, s) else (err stop, s)

abbrev start : List ℕ → RunState Unit
start code = record {
  program_counter = 0;
  op_code = 0xfe;
  code = code;
  should_do_jump_analysis = true;
  valid_jumps = [];
  meter = record { gas_left = 10; refund = 0 };
  others = tt;
}

stop_test : (run table no_dynamic_gas handlers 11 (start (0x5b ∷ 0x00 ∷ 0x5b ∷ []))).0 ≡ finished
unfolding run run_loop go_on run_step charge execute use_gas prepare is_jump caught is_stop
    is_vm_error
stop_test = refl

invalid_test :
    (run table no_dynamic_gas handlers 11 (start (0x5b ∷ 0xfe ∷ []))).0 ≡ exception invalid_opcode
unfolding run run_loop go_on run_step charge execute use_gas prepare is_jump caught is_stop
    is_vm_error
invalid_test = refl

abbrev after_jumpdest : RunState Unit
after_jumpdest = record (start (0x5b ∷ [])) {
  program_counter = 1;
  meter = record { gas_left = 9; refund = 0 };
  op_code = 0x5b;
}

one_step :
    run_step table no_dynamic_gas handlers (record (start (0x5b ∷ [])) { op_code = 0x5b })
    ≡ (ok tt, after_jumpdest)
unfolding run_step charge execute use_gas
one_step = refl
