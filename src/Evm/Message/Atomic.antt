-- ===== src/Evm/Message/Atomic.antt =====
-- A message that fails leaves nothing behind: packages/vm/src/evm/evm.ts, `executeMessage`.
use moola_fix.Common.{
  ℕ, ◌≤◌, ◌≡◌, refl, sym, ap, ◌∙◌, Bool, true, false, not, ◌||◌, Option, none, some, [], Result, ok,
  ◌>>=◌, ok-injective, subst, if◌then◌else◌, Bool-cases, inl, inr, Option-cases, ◌⊎◌,
}
use moola_fix.Evm.Error.{VmError}
use moola_fix.State.TransientStorage as T
use moola_fix.State.TransientStorage.Frames.{Run-indices}
use moola_fix.Evm.Message.{
  StateManager, World, Message, bytecode, EvmResult, Rules, Library, Runners,
}
use moola_fix.Evm.Message.Create.{is_none}
use moola_fix.Evm.Message.Checkpoints.{enter, is_codestore}
use moola_fix.Evm.Message.Execute.{
  Executed, execute_call, execute_create, new_address, conclude_with, conclude, warm,
  execute_message,
}
use moola_fix.Evm.Message.Frames.{
  IsStateManager, Run, start, manage, count, committed, reverted, Run-trans, Run-Kept,
  commit_both_lem, revert_both_lem,
}
use moola_fix.Evm.Message.Balanced.{IsRunner, execute_call-Ends, execute_create-Ends}

-- The errors on which the changes of a message are undone: all but that the fee for the code was too much
-- before Homestead.
abbrev pub undoes : Rules → VmError → Bool
undoes rules e = rules.homestead || not (is_codestore e)

module _ {S View : Type 0} (sm : StateManager S) (laws : IsStateManager sm View) where
  -- The state shows what it showed before, and the result has no logs and no self-destructs.
  pub record IsUndone (w : World S) (r : EvmResult) (x : World S) : Type 0 where
    pub same_view : laws.view x.manager ≡ laws.view w.manager
    pub same_slots : (addr key : ℕ) → T.get x.transient addr key ≡ T.get w.transient addr key
    pub same_refund : x.refund ≡ w.refund
    pub no_logs : r.exec_result.logs ≡ []
    pub no_selfdestruct : r.exec_result.selfdestruct ≡ []

  module _ (rules : Rules) (lib : Library) (run : Runners S) where
    -- The end of a frame that was entered at `w`.
    module _ (w : World S) (refund : ℕ) (r : EvmResult) (x : World S)
        (ran : Run sm laws (enter sm w) x) where
      abbrev Concluded : Option VmError → EvmResult → World S → Type 0
      Concluded e r' z =
          (conclude_with rules lib sm run e refund r x ≡ ok (r', z))
          × Run sm laws w z
          × (r'.exec_result.exception_error ≡ r.exec_result.exception_error)
          × (r'.gas_used ≡ r.gas_used)

      conclude_well : (r' : EvmResult) × (z : World S) × Concluded none r' z
      unfolding conclude_with
      conclude_well =
          let (z, done, _, _, _, _) = commit_both_lem sm laws w x (Run-Kept sm laws ran) in
          (
            record r { exec_result = record r.exec_result { gas_refund = x.refund } },
            z,
            (rw done refl, committed start ran done, refl, refl),
          )

      conclude-IsUndone :
          (e : VmError)
          → undoes rules e ≡ true
          → w.refund ≡ refund
          → (r' : EvmResult) × (z : World S) × Concluded (some e) r' z × IsUndone w r' z
      unfolding conclude_with
      conclude-IsUndone e undone same =
          let reset = record x { refund = refund } in
          let reset_run : Run sm laws (enter sm w) reset = count refund ran in
          let (z, done, seen, _, _, values, counted) =
            revert_both_lem sm laws w reset (Run-Kept sm laws reset_run) in
          (
            record r {
              exec_result = record r.exec_result {
                gas_refund = refund;
                selfdestruct = [];
                logs = [];
              };
            },
            z,
            (rw (undone, done) refl, reverted start reset_run done, refl, refl),
            record {
              same_view = seen;
              same_slots = values;
              same_refund = counted ∙ sym same;
              no_logs = refl;
              no_selfdestruct = refl;
            },
          )

      conclude_kept :
          (e : VmError)
          → undoes rules e ≡ false
          → (r' : EvmResult) × (z : World S) × Concluded (some e) r' z
      unfolding conclude_with
      conclude_kept e kept =
          let reset = record x { refund = refund } in
          let reset_run : Run sm laws (enter sm w) reset = count refund ran in
          let (z, done, _, _, _, _) =
            commit_both_lem sm laws w reset (Run-Kept sm laws reset_run) in
          (
            record r {
              exec_result = record r.exec_result { gas_refund = refund; selfdestruct = [] };
            },
            z,
            (rw (kept, done) refl, committed start reset_run done, refl, refl),
          )

      concluded :
          (e : Option VmError)
          → w.refund ≡ refund
          → (r' : EvmResult) × (z : World S) × Concluded e r' z
      concluded none same = conclude_well
      concluded (some e) same = elim (Bool-cases (undoes rules e)) [
        | inl undone ↦ let (r', z, done, _) = conclude-IsUndone e undone same in (r', z, done)
        | inr kept ↦ conclude_kept e kept
      ]

    warm_cases :
        (m : Message) (w : World S)
        → ((warm rules lib sm run m w) ≡ (m, w))
          ⊎ ((warm rules lib sm run m w) ≡ (
            record m { code = some (bytecode m.call_data) },
            record w {
              manager =
                  sm.add_warmed_address
                    (new_address rules lib sm run
                      (record m { code = some (bytecode m.call_data) })
                      w)
                    w.manager;
            },
          ))
    unfolding warm
    warm_cases m w = elim (Option-cases m.to) [
      | inr (a, called) ↦ inl (rw called refl)
      | inl created ↦ elim (Bool-cases rules.eip2929) [
        | inl active ↦ inr (rw (created, active) refl)
        | inr inactive ↦ inl (rw (created, inactive) refl)
      ]
    ]

    warm-Run :
        (m : Message) (w : World S)
        → Run sm laws w (warm rules lib sm run m w).1
          × ((warm rules lib sm run m w).1.refund ≡ w.refund)
          × ((warm rules lib sm run m w).0.is_compiled ≡ m.is_compiled)
          × ((warm rules lib sm run m w).0.depth ≡ m.depth)
    warm-Run m w = elim (warm_cases m w) [
      | inl same ↦ rw same (start, refl, refl, refl)
      | inr warmed ↦ rw warmed (manage _ start (laws.saved-warm _ w.manager), refl, refl, refl)
    ]

    module _ (least : ℕ) (runner : IsRunner sm laws run least) where
      -- The call or the creation of a message.
      abbrev executed : Message → World S → Result T.Error (Executed rules lib sm run)
      executed m w =
          if is_none m.to
          then execute_create rules lib sm run m w
          else execute_call rules lib sm run m w

      executed-Ends :
          (m : Message) (w : World S)
          → least ≤ m.depth
          → m.is_compiled ≡ false
          → (r : EvmResult) × (x : World S) × (executed m w ≡ ok (r, x)) × Run sm laws w x
      executed-Ends m w deep fresh = elim (Bool-cases (is_none m.to)) [
        | inl creates ↦ rw creates (execute_create-Ends sm laws rules lib run least runner m w deep)
        | inr calls ↦ rw calls (execute_call-Ends sm laws rules lib run least runner m w deep fresh)
      ]

      -- Where the code that a message runs ends, and its effect on the state is a run, the execution of
      -- the message returns, and the open checkpoints are what they were.
      pub execute_message_ends :
          (m : Message) (w : World S)
          → least ≤ m.depth
          → m.is_compiled ≡ false
          → (r : EvmResult) × (z : World S) × (execute_message rules lib sm run m w ≡ ok (r, z))
            × Run sm laws w z
            × (laws.saved z.manager ≡ laws.saved w.manager)
            × (z.transient.indices ≡ w.transient.indices)
      unfolding execute_message conclude
      execute_message_ends m w deep fresh =
          let (message, warmed) = warm rules lib sm run m w in
          let (warms, same, as_fresh, as_deep) = warm-Run m w in
          let (r0, x, done, ran) =
            executed-Ends message (enter sm warmed) (rw as_deep deep) (as_fresh ∙ fresh) in
          let (r, z, (ended, whole, _, _)) =
            concluded warmed w.refund r0 x ran r0.exec_result.exception_error same in
          let all = Run-trans sm laws warms whole in
          let kept = Run-Kept sm laws all in
          (
            r,
            z,
            ap (λ c. c >>= conclude rules lib sm run w.refund) done ∙ ended,
            all,
            kept.0,
            Run-indices kept.1,
          )

      -- Where a message fails, but for the fee of its code before Homestead, the state shows what it showed
      -- before, but for the warm address of a contract to create: accounts, code, storage, transient
      -- storage and refund; and the result has no logs and no self-destructs.
      pub execute_message-IsUndone :
          (m : Message) (w z : World S) (r : EvmResult) (e : VmError)
          → least ≤ m.depth
          → m.is_compiled ≡ false
          → execute_message rules lib sm run m w ≡ ok (r, z)
          → r.exec_result.exception_error ≡ some e
          → undoes rules e ≡ true
          → IsUndone (warm rules lib sm run m w).1 r z
      unfolding execute_message conclude
      execute_message-IsUndone m w z r e deep fresh done failed undone =
          let (message, warmed) = warm rules lib sm run m w in
          let (_, same, as_fresh, as_deep) = warm-Run m w in
          let (r0, x, done0, ran) =
            executed-Ends message (enter sm warmed) (rw as_deep deep) (as_fresh ∙ fresh) in
          let end = λ (c : Option VmError). conclude_with rules lib sm run c w.refund r0 x in
          let passed : execute_message rules lib sm run m w ≡ end r0.exec_result.exception_error =
            ap (λ c. c >>= conclude rules lib sm run w.refund) done0 in
          let (r1, z1, (ended1, _, error1, _)) =
            concluded warmed w.refund r0 x ran r0.exec_result.exception_error same in
          let same1 : (r1, z1) ≡ (r, z) =
            ok-injective (r1, z1) (r, z) (sym ended1 ∙ sym passed ∙ done) in
          let error0 : r0.exec_result.exception_error ≡ some e =
            sym error1 ∙ ap (λ p. p.0.exec_result.exception_error) same1 ∙ failed in
          let (r2, z2, (ended2, _, _, _), nothing_left) =
            conclude-IsUndone warmed w.refund r0 x ran e undone same in
          let same2 : (r2, z2) ≡ (r, z) =
            ok-injective (r2, z2) (r, z) (sym ended2 ∙ sym (passed ∙ ap end error0) ∙ done) in
          subst (λ p. IsUndone warmed p.0 p.1) same2 nothing_left
