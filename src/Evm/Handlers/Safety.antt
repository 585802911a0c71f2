-- ===== src/Evm/Handlers/Safety.antt =====
-- The loop of packages/vm/src/evm/interpreter.ts never runs the data of a PUSH.
use moola_fix.Common.{
  ℕ, ◌+◌, ◌<◌, ◌≡◌, refl, sym, ap, subst, ◌∙◌, inl, inr, Bool, true, List, length, get_or, All,
  Result, err_not_ok, ok, err, leb, ◌==◌, ◌&&◌, if◌then◌else◌, arith, ==_iff, Bool-cases,
}
use moola_fix.Evm.Error.{VmError}
use moola_fix.Evm.Stack.{Stack}
use moola_fix.Evm.Jumps.{valid_jump_dests}
use moola_fix.Evm.Jumps.Destinations.{StartsFrom}
use moola_fix.Evm.Meter.{Meter, use_gas}
use moola_fix.Evm.Interpreter.{RunState, OpInfo, Ran, is_jump, prepare, execute, charge, run_step}
use moola_fix.Evm.Interpreter.Loop.{IsAnalysed, prepare-IsAnalysed}
use moola_fix.Evm.Handlers.{Machine, State, Handler, handler}
use moola_fix.Evm.Handlers.Running.{IsSame, Keeps, same, plain_handler-Keeps, returns-IsSame}
use moola_fix.Evm.Handlers.Boundaries.{IsBoundary, IsSound, Follows, IsEntered, same-Follows}
use moola_fix.Evm.Handlers.Flow.{
  jump-Follows, jumpi-Follows, returnsub-Follows, jumpsub-Follows, push_bytes-Follows,
}

module _ {Rest : Type 0} (eip3540 : Bool) (other : ℕ → Handler Rest (Unit {0}))
    (other-Keeps : (op : ℕ) → Keeps (other op)) where
  -- A handler that returns has left the program counter on an instruction.
  handler-Follows :
      (op start : ℕ) (s t : State Rest)
      → IsEntered op start s
      → handler eip3540 other op s ≡ (ok tt, t)
      → Follows s t
  unfolding handler
  handler-Follows op start s t e h =
      let at_op = λ (o : ℕ) (same_op : (op == o) ≡ true).
        subst (λ (x : ℕ). IsEntered x start s) ((==_iff op o).0 same_op) e in
      elim (Bool-cases (op == 0x56)) [
        | inl is ↦ jump-Follows start s t (at_op 0x56 is) (rw is at h)
        | inr no56 ↦ elim (Bool-cases (op == 0x57)) [
          | inl is ↦ jumpi-Follows start s t (at_op 0x57 is) (rw (no56, is) at h)
          | inr no57 ↦ elim (Bool-cases (op == 0x5d)) [
            | inl is ↦ returnsub-Follows start s t (at_op 0x5d is) (rw (no56, no57, is) at h)
            | inr no5d ↦ elim (Bool-cases (op == 0x5e)) [
              | inl is ↦ jumpsub-Follows start s t (at_op 0x5e is) (rw (no56, no57, no5d, is) at h)
              | inr no5e ↦ elim (Bool-cases (leb 0x60 op && leb op 0x7f)) [
                | inl is ↦
                    push_bytes-Follows eip3540 op start s t (ground (arith, is))
                      (ground (arith, is)) e (rw (no56, no57, no5d, no5e, is) at h)
                | inr plain ↦ same-Follows op start s t e (ground (arith, plain)) (
                    returns-IsSame (plain_handler-Keeps other op other-Keeps)
                      (rw (no56, no57, no5d, no5e, plain) at h))
              ]
            ]
          ]
        ]
      ]

module _ {Others : Type 0} (lookup_op_info : ℕ → OpInfo)
    (dynamic_gas_handler : ℕ → ℕ → RunState Others → Ran Others ℕ)
    (run_handler : ℕ → RunState Others → Ran Others (Unit {0})) where
  -- The handler has run in this state where a step returns: one position on, behind the charge.
  abbrev Entered : ℕ → RunState Others → RunState Others → Type 0
  Entered op u t =
      (meter : Meter) × (run_handler op
          (record u { meter = meter; program_counter = u.program_counter + 1 })
        ≡ (ok tt, t))

  execute-returns :
      (op : ℕ) (paid : Result VmError (Unit {0}) × Meter) (u t : RunState Others)
      → execute lookup_op_info dynamic_gas_handler run_handler op paid u ≡ (ok tt, t)
      → Entered op u t
  unfolding execute
  execute-returns op (ok _, meter) u t h = (meter, h)
  execute-returns op (err x, meter) u t h =
      absurd (err_not_ok (ap (λ (r : Ran Others (Unit {0})). r.0) h))

  charge-returns :
      (op : ℕ) (info : OpInfo) (g : Ran Others ℕ) (t : RunState Others)
      → charge lookup_op_info dynamic_gas_handler run_handler op info g ≡ (ok tt, t)
      → Entered op g.1 t
  unfolding charge
  charge-returns op info (ok amount, u) t h = elim (Bool-cases info.is_invalid) [
    | inl invalid ↦
        absurd (err_not_ok (ap (λ (r : Ran Others (Unit {0})). r.0) (rw (invalid, charge) at h)))
    | inr valid ↦ execute-returns op (use_gas amount u.meter) u t (rw (valid, charge) at h)
  ]
  charge-returns op info (err x, u) t h =
      absurd (err_not_ok (ap (λ (r : Ran Others (Unit {0})). r.0) h))

-- The body of the loop before the step leaves the counter and what the handlers use.
prepare_same :
    {Others : Type 0} (s : RunState Others)
    → ((prepare s).program_counter ≡ s.program_counter) × ((prepare s).others ≡ s.others)
unfolding prepare
prepare_same s =
    elim (Bool-cases (s.should_do_jump_analysis && is_jump (get_or s.code s.program_counter 0))) [
      | inl due ↦ rw (due, prepare) (refl, refl)
      | inr done ↦ rw (done, prepare) (refl, refl)
    ]

module _ {Rest : Type 0} (lookup_op_info : ℕ → OpInfo)
    (dynamic_gas_handler : ℕ → ℕ → State Rest → Ran (Machine Rest) ℕ) (eip3540 : Bool)
    (other : ℕ → Handler Rest (Unit {0})) where
  -- The states at the top of the loop: a first one, and those behind the rounds that return.
  pub data Reaches (s : State Rest) : State Rest → Type 0 where
    first : Reaches s s
    round :
        {t u : State Rest}
        → Reaches s t
        → t.program_counter < length t.code
        → run_step lookup_op_info dynamic_gas_handler (handler eip3540 other) (prepare t)
          ≡ (ok tt, u)
        → Reaches s u

  -- What the dynamic gas leaves.
  gas-IsSame :
      (dynamic-Keeps : (op fee : ℕ) → Keeps (dynamic_gas_handler op fee)) (info : OpInfo) (op : ℕ)
      (s : State Rest)
      → IsSame s
          (if info.dynamic_gas then dynamic_gas_handler op info.fee s else (ok info.fee, s)).1
  gas-IsSame dynamic-Keeps info op s = elim (Bool-cases info.dynamic_gas) [
    | inl dynamic ↦ rw dynamic ((dynamic-Keeps op info.fee).keeps s)
    | inr static ↦ rw static (same s)
  ]

  -- The state in which the handler runs in a round.
  round-IsEntered :
      (t g : State Rest) (meter : Meter)
      → IsSound t
      → IsAnalysed t
      → t.program_counter < length t.code
      → IsSame (prepare t) g
      → IsEntered
          (prepare t).op_code
          t.program_counter
          (record g { meter = meter; program_counter = g.program_counter + 1 })
  round-IsEntered t g meter (at_boundary, returns) analysed inside
        (counter, code, flag, jumps, stack) =
      let (counter', others) = prepare_same t in
      let (_, code', op_there, ready) = prepare-IsAnalysed t analysed in
      let same_code : t.code ≡ g.code = sym (code ∙ code') in
      let starts : StartsFrom t.code 0 t.program_counter = elim at_boundary [
        | inl s ↦ s
        | inr past ↦ absurd (omega arith)
      ] in
      let same_stack : t.others.return_stack ≡ g.others.return_stack =
        sym (stack ∙ ap (λ (m : Machine Rest). m.return_stack) others) in
      record {
        counter = ap (λ (c : ℕ). c + 1) (counter ∙ counter');
        starts = subst (λ (c : List ℕ). StartsFrom c 0 t.program_counter) same_code starts;
        op_there = ap (λ (c : List ℕ). get_or c t.program_counter 0) (sym same_code) ∙ sym op_there;
        analysed = λ jump_op. jumps ∙ if_true jump_op ready ∙ ap valid_jump_dests same_code;
        returns =
            subst (λ (r : Stack). All (IsBoundary g.code) r.store) same_stack
              (subst (λ (c : List ℕ). All (IsBoundary c) t.others.return_stack.store) same_code
                returns);
      }
    where
      if_true : {P : Type 0} {c : Bool} → c ≡ true → (if c then P else Unit {0}) → P
      if_true {P} e x = subst (λ (b : Bool). if b then P else Unit {0}) e x

  round-IsSound :
      (dynamic-Keeps : (op fee : ℕ) → Keeps (dynamic_gas_handler op fee))
      (other-Keeps : (op : ℕ) → Keeps (other op)) (t u : State Rest)
      → IsSound t
      → IsAnalysed t
      → t.program_counter < length t.code
      → run_step lookup_op_info dynamic_gas_handler (handler eip3540 other) (prepare t) ≡ (ok tt, u)
      → IsSound u × IsAnalysed u × (u.code ≡ t.code)
  unfolding run_step
  round-IsSound dynamic-Keeps other-Keeps t u sound analysed inside h =
      let p = prepare t in
      let info = lookup_op_info p.op_code in
      let g =
        if info.dynamic_gas then dynamic_gas_handler p.op_code info.fee p else (ok info.fee, p) in
      let left : IsSame p g.1 = gas-IsSame dynamic-Keeps info p.op_code p in
      let (analysed', code', _, _) = prepare-IsAnalysed t analysed in
      let (meter, ran) =
        charge-returns lookup_op_info dynamic_gas_handler (handler eip3540 other) p.op_code info g u
          h in
      let (sound', code'', flag, jumps) =
        handler-Follows eip3540 other other-Keeps p.op_code t.program_counter
          (record g.1 { meter = meter; program_counter = g.1.program_counter + 1 }) u
          (round-IsEntered t g.1 meter sound analysed inside left) ran in
      let (_, code, flag', jumps', _) = left in
      (
        sound',
        λ done.
            jumps
            ∙ jumps'
            ∙ analysed' (sym (flag ∙ flag') ∙ done)
            ∙ ap valid_jump_dests (sym (code'' ∙ code)),
        code'' ∙ code ∙ code',
      )

  -- Where the program counter and the items of the return stack stand at first on instructions of the
  -- code, or behind it, and the jump analysis has not been made or is that of the code, they do so, for
  -- the same code, at each round of the loop. The dynamic gas handlers and the handlers of the opcodes
  -- that are not modelled have to leave the program counter, the code, the jump analysis and the return
  -- stack as they are.
  pub Reaches-IsSound :
      (dynamic-Keeps : (op fee : ℕ) → Keeps (dynamic_gas_handler op fee))
      (other-Keeps : (op : ℕ) → Keeps (other op)) (s t : State Rest)
      → IsSound s
      → IsAnalysed s
      → Reaches s t
      → IsSound t × IsAnalysed t × (t.code ≡ s.code)
  Reaches-IsSound dynamic-Keeps other-Keeps s _ sound analysed first = (sound, analysed, refl)
  Reaches-IsSound dynamic-Keeps other-Keeps s u sound analysed (round {t} before inside h) =
      let (sound', analysed', code) =
        Reaches-IsSound dynamic-Keeps other-Keeps s t sound analysed before in
      let (sound'', analysed'', code') =
        round-IsSound dynamic-Keeps other-Keeps t u sound' analysed' inside h in
      (sound'', analysed'', code' ∙ code)
