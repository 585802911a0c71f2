-- ===== src/Evm/Handlers/Termination.antt =====
-- The loop of packages/vm/src/evm/interpreter.ts ends where the tables charge for each opcode.
use moola_fix.Common.{
  ℕ, ◌+◌, ◌-◌, ◌≤◌, ◌<◌, ◌≡◌, ◌≢◌, refl, ap, subst, inl, inr, Bool, true, false, err_not_ok,
  ok-injective, ok, err, ltb, if◌then◌else◌, Bool-cases, arith,
}
use moola_fix.Evm.Meter.{use_gas}
use moola_fix.Evm.Interpreter.{
  OpInfo, Ran, out_of_fuel, prepare, execute, charge, run_step, run_loop,
}
use moola_fix.Evm.Interpreter.Loop.{prepare_keeps_gas, run_loop_ends}
use moola_fix.Evm.Handlers.{Machine, State, Handler, handler}
use moola_fix.Evm.Handlers.Thrift.{IsThrifty, handler-IsThrifty}

module _ {Rest : Type 0} (lookup_op_info : ℕ → OpInfo)
    (dynamic_gas_handler : ℕ → ℕ → State Rest → Ran (Machine Rest) ℕ) (eip3540 : Bool)
    (other : ℕ → Handler Rest (Unit {0})) where
  abbrev all : ℕ → State Rest → Ran (Machine Rest) (Unit {0})
  all = handler eip3540 other

  -- The handler of an opcode can return.
  abbrev pub Returns : ℕ → Type 0
  Returns op = (s : State Rest) × (t : State Rest) × (all op s ≡ (ok tt, t))

  -- What the tables charge, where a handler can return: an opcode without dynamic gas has a fee, and the
  -- dynamic gas of another is more than what its gas handler adds to the gas that is left.
  pub record IsCharged : Type 0 where
    pub fees :
        (op : ℕ)
        → Returns op
        → (lookup_op_info op).dynamic_gas ≡ false
        → 0 < (lookup_op_info op).fee
    pub covers :
        (op amount : ℕ) (s t : State Rest)
        → Returns op
        → dynamic_gas_handler op (lookup_op_info op).fee s ≡ (ok amount, t)
        → t.meter.gas_left < amount + s.meter.gas_left
    pub thrifty : (op : ℕ) → IsThrifty (other op)

  module _ (charged : IsCharged) where
    -- The charge is taken before the handler runs.
    execute_spends :
        (op amount : ℕ) (u t : State Rest)
        → execute lookup_op_info dynamic_gas_handler all op (use_gas amount u.meter) u ≡ (ok tt, t)
        → Returns op × (t.meter.gas_left + amount ≤ u.meter.gas_left)
    unfolding execute use_gas
    execute_spends op amount u t h = elim (Bool-cases (ltb u.meter.gas_left amount)) [
      | inl short ↦
          absurd (
            err_not_ok (ap (λ (r : Ran (Machine Rest) (Unit {0})). r.0) (rw (short, execute) at h)))
      | inr enough ↦
          let paid = record u {
            meter = record (u.meter) { gas_left = u.meter.gas_left - amount };
            program_counter = u.program_counter + 1;
          } in
          let ran : all op paid ≡ (ok tt, t) = rw (enough, execute) at h in
          let bound : t.meter.gas_left ≤ u.meter.gas_left - amount =
            subst (λ (x : State Rest). x.meter.gas_left ≤ u.meter.gas_left - amount)
              (ap (λ (r : Ran (Machine Rest) (Unit {0})). r.1) ran)
              ((handler-IsThrifty eip3540 other op (charged.thrifty op)).no_more paid) in
          ((paid, t, ran), ground (arith, enough, bound))
    ]

    charge_spends :
        (op : ℕ) (s : State Rest) (g : Ran (Machine Rest) ℕ) (t : State Rest)
        → ((amount : ℕ)
            → Returns op
            → g.0 ≡ ok amount
            → g.1.meter.gas_left < amount + s.meter.gas_left)
        → charge lookup_op_info dynamic_gas_handler all op (lookup_op_info op) g ≡ (ok tt, t)
        → t.meter.gas_left < s.meter.gas_left
    unfolding charge
    charge_spends op s (err x, u) t covered h =
        absurd (err_not_ok (ap (λ (r : Ran (Machine Rest) (Unit {0})). r.0) h))
    charge_spends op s (ok amount, u) t covered h =
        elim (Bool-cases (lookup_op_info op).is_invalid) [
          | inl invalid ↦ absurd (
              err_not_ok
                (ap (λ (r : Ran (Machine Rest) (Unit {0})). r.0) (rw (invalid, charge) at h)))
          | inr valid ↦
              let (returns, spent) = execute_spends op amount u t (rw (valid, charge) at h) in
              omega (arith, spent, covered amount returns refl)
        ]

    charge_covers :
        (op amount : ℕ) (p : State Rest) (dynamic : Bool)
        → (lookup_op_info op).dynamic_gas ≡ dynamic
        → Returns op
        → (if dynamic
            then dynamic_gas_handler op (lookup_op_info op).fee p
            else (ok (lookup_op_info op).fee, p)).0
          ≡ ok amount
        → (if dynamic
            then dynamic_gas_handler op (lookup_op_info op).fee p
            else (ok (lookup_op_info op).fee, p)).1.meter.gas_left
          < amount + p.meter.gas_left
    charge_covers op amount p true is returns e =
        let g = dynamic_gas_handler op (lookup_op_info op).fee p in
        charged.covers op amount p g.1 returns (λ i. (e i, g.1))
    charge_covers op amount p false is returns e =
        let fee : (lookup_op_info op).fee ≡ amount =
          ok-injective (lookup_op_info op).fee amount e in
        omega (arith, fee, charged.fees op returns is)

    step_spends :
        (s t : State Rest)
        → run_step lookup_op_info dynamic_gas_handler all (prepare s) ≡ (ok tt, t)
        → t.meter.gas_left < s.meter.gas_left
    unfolding run_step
    step_spends s t h =
        let p = prepare s in
        let info = lookup_op_info p.op_code in
        let g : Ran (Machine Rest) ℕ =
          if info.dynamic_gas then dynamic_gas_handler p.op_code info.fee p else (ok info.fee, p) in
        let same : p.meter.gas_left ≡ s.meter.gas_left = prepare_keeps_gas s in
        let spent : t.meter.gas_left < p.meter.gas_left =
          charge_spends p.op_code p g t
            (λ amount returns e. charge_covers p.op_code amount p info.dynamic_gas refl returns e)
            h in
        omega (arith, same, spent)

    -- Where an opcode whose handler can return has a fee, or dynamic gas of more than its gas handler adds to
    -- the gas that is left, and the handlers of the other files give no gas back: a run ends. With one
    -- round more than gas is left, the fuel of the loop is not used up, whatever the code and the state.
    pub interpreter_ends :
        (fuel : ℕ) (s : State Rest)
        → s.meter.gas_left < fuel
        → (run_loop lookup_op_info dynamic_gas_handler all fuel s).0 ≢ out_of_fuel
    interpreter_ends = run_loop_ends lookup_op_info dynamic_gas_handler all step_spends
