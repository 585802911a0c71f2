-- ===== src/Evm/Handlers/Tests.antt =====
-- The program counter on a code that pushes a destination and jumps there.
use moola_fix.Common.{
  ℕ, ◌+◌, ◌<◌, ◌≡◌, ◌≢◌, refl, sym, ap, ◌∙◌, ◌&&◌, ◌||◌, leb, ◌==◌, if◌then◌else◌, get_or, reverse,
  err, err_not_ok, ok-injective, Bool-cases, inl, inr, Bool, true, false, List, [], ◌∷◌, length, ok,
  arith,
}
use moola_fix.Evm.Error.{invalid_opcode, stop}
use moola_fix.Evm.Stack as Operands
use moola_fix.Evm.Stack.{Stack}
use moola_fix.Evm.Jumps.{valid_jump_dests, jump_loop, mark, advance, jump_is_valid}
use moola_fix.Evm.Jumps.Destinations.{here}
use moola_fix.Evm.Meter.{use_gas}
use moola_fix.Evm.Interpreter.{OpInfo, Ran, prepare, run_step, run_loop, out_of_fuel}
use moola_fix.Evm.Interpreter.Loop.{IsAnalysed}
use moola_fix.Evm.Handlers.{Machine, State, Handler, ◌>>=◌, ◌>>◌, trap_if, plain_handler, handler}
use moola_fix.Evm.Handlers.Running.{same}
use moola_fix.Evm.Handlers.Boundaries.{IsSound}
use moola_fix.Evm.Handlers.Safety.{Reaches, first, round, Reaches-IsSound}
use moola_fix.Evm.Handlers.Termination.{Returns, IsCharged, interpreter_ends}
use moola_fix.Evm.Gas.{sub_mem_usage}

-- PUSH1 3, JUMP, JUMPDEST.
abbrev code : List ℕ
code = 0x60 ∷ 3 ∷ 0x56 ∷ 0x5b ∷ []

abbrev machine : List ℕ → Machine (Unit {0})
machine items = record {
  stack = record { store = items; max_height = 1024 };
  return_stack = record { store = []; max_height = 1023 };
  memory = [];
  memory_word_count = 0;
  rest = tt;
}

abbrev state_at : ℕ → ℕ → ℕ → Bool → List ℕ → List ℕ → State (Unit {0})
state_at counter op gas due jumps items = record {
  program_counter = counter;
  op_code = op;
  code = code;
  should_do_jump_analysis = due;
  valid_jumps = jumps;
  meter = record { gas_left = gas; refund = 0 };
  others = machine items;
}

-- Each opcode costs 3.
abbrev op_info : ℕ → OpInfo
op_info op = record { fee = 3; dynamic_gas = false; is_invalid = false }

abbrev no_dynamic_gas : ℕ → ℕ → State (Unit {0}) → Ran (Machine (Unit {0})) ℕ
no_dynamic_gas op fee s = (ok fee, s)

abbrev no_other : ℕ → Handler (Unit {0}) (Unit {0})
no_other op s = trap_if true invalid_opcode s

abbrev start : State (Unit {0})
start = state_at 0 0 100 true [] []

abbrev pushed : State (Unit {0})
pushed = state_at 2 0x60 97 true [] (3 ∷ [])

abbrev landed : State (Unit {0})
landed = state_at 3 0x56 94 false (0 ∷ 0 ∷ 0 ∷ 1 ∷ []) []

push_test :
    run_step op_info no_dynamic_gas (handler false no_other) (prepare start) ≡ (ok tt, pushed)
unfolding run_step use_gas prepare handler ◌>>=◌ ◌>>◌ Operands.push moola_fix.Common.Bytes.from_be
push_test = refl

jump_test :
    run_step op_info no_dynamic_gas (handler false no_other) (prepare pushed) ≡ (ok tt, landed)
unfolding run_step use_gas prepare handler ◌>>=◌ Operands.pop ◌>>◌ jump_is_valid valid_jump_dests
    jump_loop advance mark
jump_test = refl

landed-Reaches : Reaches op_info no_dynamic_gas false no_other start landed
landed-Reaches = round (round first (omega arith) push_test) (omega arith) jump_test

Reaches-IsSound_example : IsSound landed × IsAnalysed landed × (code ≡ code)
Reaches-IsSound_example =
    Reaches-IsSound op_info no_dynamic_gas false no_other (λ op fee. record { keeps = same })
      (λ op. record { keeps = same }) start landed (inl (here (omega arith)), tt) (λ e. cc)
      landed-Reaches

-- The fees of the first hardfork, and of EIP-2315 and EIP-3855; MLOAD, MSTORE, MSTORE8 and SSTORE have dynamic
-- gas.
abbrev fee_of : ℕ → ℕ
fee_of op =
    if op == 0x5b
    then 1
    else if op == 0x50 || op == 0x58 || op == 0x59 || op == 0x5a || op == 0x5c || op == 0x5f
    then 2
    else if op == 0x54
    then 50
    else if op == 0x55
    then 0
    else if op == 0x56
    then 8
    else if op == 0x57 || op == 0x5e
    then 10
    else if op == 0x5d
    then 5
    else if leb 0x51 op && leb op 0x9f
    then 3
    else 0

abbrev fees : ℕ → OpInfo
fees op = record {
  fee = fee_of op;
  dynamic_gas = (leb 0x51 op && leb op 0x53) || op == 0x55;
  is_invalid = false;
}

-- The first item is the offset of a word in memory; a slot is reset.
abbrev dynamic_gas : ℕ → ℕ → State (Unit {0}) → Ran (Machine (Unit {0})) ℕ
dynamic_gas op fee s = if op == 0x55 then (ok (fee + 5000), s) else (
  ok (
      fee
      + (sub_mem_usage (record { memory = 3; quad_coeff_div = 512 })
          (get_or (reverse s.others.stack.store) 0 0) 32
          (record { memory_word_count = s.others.memory_word_count; highest_mem_cost = 0 })).0),
  s,
)

-- What is not on stack, memory or flow stops here.
abbrev stops : ℕ → Handler (Unit {0}) (Unit {0})
stops op s = trap_if true stop s

outside_stops :
    (op : ℕ) (s : State (Unit {0}))
    → (leb 0x50 op && leb op 0x9f) ≡ false
    → (handler false stops op s).0 ≡ err stop
unfolding handler plain_handler
outside_stops op s h = ground (arith, h)

inside_of_range :
    (op : ℕ) → Returns fees dynamic_gas false stops op → (leb 0x50 op && leb op 0x9f) ≡ true
inside_of_range op (s, t, ran) = elim (Bool-cases (leb 0x50 op && leb op 0x9f)) [
  | inl inside ↦ inside
  | inr outside ↦ absurd (
      err_not_ok (
        sym (outside_stops op s outside)
        ∙ ap (λ (r : Ran (Machine (Unit {0})) (Unit {0})). r.0) ran))
]

charge_is :
    (charge amount : ℕ) (s t : State (Unit {0}))
    → 0 < charge
    → ◌≡◌ {A = Ran (Machine (Unit {0})) ℕ} (ok charge, s) (ok amount, t)
    → t.meter.gas_left < amount + s.meter.gas_left
charge_is charge amount s t some_charge e =
    let same : charge ≡ amount =
      ok-injective charge amount (ap (λ (r : Ran (Machine (Unit {0})) ℕ). r.0) e) in
    let left : s.meter.gas_left ≡ t.meter.gas_left =
      ap (λ (r : Ran (Machine (Unit {0})) ℕ). r.1.meter.gas_left) e in
    omega (arith, same, left, some_charge)

dynamic_gas_covers :
    (op fee amount : ℕ) (s t : State (Unit {0}))
    → ((op == 0x55) ≡ false → 0 < fee)
    → dynamic_gas op fee s ≡ (ok amount, t)
    → t.meter.gas_left < amount + s.meter.gas_left
dynamic_gas_covers op fee amount s t some_fee e = elim (Bool-cases (op == 0x55)) [
  | inl sstore ↦ charge_is (fee + 5000) amount s t (omega arith) (rw sstore at e)
  | inr other ↦ charge_is _ amount s t (omega (arith, some_fee other)) (rw other at e)
]

fees-IsCharged : IsCharged fees dynamic_gas false stops
fees-IsCharged = record {
  fees = λ op returns static. ground (arith, inside_of_range op returns, static);
  covers = λ op amount s t returns e.
      dynamic_gas_covers op (fee_of op) amount s t
        (λ other. ground (arith, inside_of_range op returns, other)) e;
  thrifty = λ op. record { no_more = λ s. omega arith };
}

interpreter_ends_example :
    (run_loop fees dynamic_gas (handler false stops) 101 start).0 ≢ out_of_fuel
interpreter_ends_example =
    interpreter_ends fees dynamic_gas false stops fees-IsCharged 101 start (omega arith)
