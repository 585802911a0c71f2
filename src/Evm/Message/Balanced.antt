-- ===== src/Evm/Message/Balanced.antt =====
-- Executing a message is one frame: packages/vm/src/evm/evm.ts.
use moola_fix.Common.{
  ℕ, ◌≡◌, refl, ap, ◌+◌, ◌≤◌, Bool, true, false, not, ◌||◌, Option, none, some, List, [], Result,
  ok, ltb, if◌then◌else◌, length, ◌==◌, ◌&&◌, ◌>>=◌, Bool-cases, inl, inr, Option-cases, ◌⊎◌,
}
use moola_fix.Common.Assoc.{Assoc}
use moola_fix.Evm.Error.{initcode_size_violation, create_collision}
use moola_fix.State.TransientStorage as T
use moola_fix.Evm.Stack.{max_integer}
use moola_fix.Evm.Message.{
  Account, StateManager, World, Message, bytecode, precompile, or_zero, code_address, EvmResult,
  ExecResult, Env, Interpreted, Rules, Library, Runners,
}
use moola_fix.Evm.Message.Create.{is_none, deposit}
use moola_fix.Evm.Message.Checkpoints.{no_code}
use moola_fix.Evm.Message.Execute.{
  put, reduce_sender_balance, add_to_balance, transfer, load_code, make_env, exec_result_of,
  run_interpreter, run_compiled, run_loaded, Ran, Executed, execute_call, save_code,
  create_contract, execute_create, is_collision, new_address, stopped, finished,
}
use moola_fix.Evm.Message.Frames.{IsStateManager, Run, start, manage, Run-trans}

module _ {S View : Type 0} (sm : StateManager S) (laws : IsStateManager sm View) where
  -- Code that is run at a depth of at least `least` comes to an end, and what it does to the state is a run.
  pub record IsRunner (run : Runners S) (least : ℕ) : Type 0 where
    pub interprets :
        (env : Env) (gas : ℕ) (selfdestruct : Assoc ℕ) (w : World S)
        → least ≤ env.depth
        → (i : Interpreted) × (x : World S) × (run.interpret env gas selfdestruct w ≡ ok (i, x))
          × Run sm laws w x
    pub compiles :
        (a : ℕ) (bytes : List ℕ) (gas : ℕ) (w : World S)
        → Run sm laws w (run.run_precompile a bytes gas w).1

  module _ (rules : Rules) (lib : Library) (run : Runners S) (least : ℕ)
      (runner : IsRunner run least) where
    put-Run : (a : ℕ) (x : Account) (w : World S) → Run sm laws w (put rules lib sm run a x w)
    put-Run a x w = manage (sm.put_account a x w.manager) start (laws.saved-put a x w.manager)

    reduce-Run :
        (m : Message) (w : World S) → Run sm laws w (reduce_sender_balance rules lib sm run m w)
    unfolding reduce_sender_balance
    reduce-Run m w = put-Run _ _ w

    add-Run :
        (to : ℕ) (account : Account) (value : ℕ) (w : World S)
        → Run sm laws w (add_to_balance rules lib sm run to account value w).1
    unfolding add_to_balance
    add-Run to account value w = elim (Bool-cases (ltb max_integer (account.balance + value))) [
      | inl over ↦ rw over start
      | inr fits ↦ rw fits (put-Run to (record account { balance = account.balance + value }) w)
    ]

    transfer-Run : (m : Message) (w : World S) → Run sm laws w (transfer rules lib sm run m w).1
    unfolding transfer
    transfer-Run m w = elim (Bool-cases m.delegatecall) [
      | inl keeps ↦ rw keeps start
      | inr moves ↦ rw moves (
          Run-trans sm laws (reduce-Run m w)
            (add-Run (or_zero m.to) _ m.value (reduce_sender_balance rules lib sm run m w)))
    ]

    -- A computation that returns, and whose effect is a run.
    abbrev pub Ends : World S → Result T.Error (Executed rules lib sm run) → Type 0
    Ends w computed = (r : EvmResult) × (x : World S) × (computed ≡ ok (r, x)) × Run sm laws w x

    interpreted :
        (m : Message) (w : World S)
        → least ≤ m.depth
        → (r : ExecResult) × (shared : Assoc ℕ) × (x : World S) × (run_interpreter rules lib sm run
              m w
            ≡ ok (r, shared, x))
          × Run sm laws w x
    unfolding run_interpreter
    interpreted m w deep =
        let (i, x, done, r) =
          runner.interprets (make_env rules lib sm run m w) m.gas_limit m.selfdestruct w deep in
        (exec_result_of rules lib sm run m.gas_limit i, i.selfdestruct, x, rw done refl, r)

    -- The code that has been loaded is compiled where it is a precompile.
    loaded :
        (m : Message) (w : World S)
        → m.is_compiled ≡ false
        → ((load_code rules lib sm run m w).is_compiled ≡ false)
          ⊎ ((a : ℕ) × ((load_code rules lib sm run m w).is_compiled ≡ true)
              × ((load_code rules lib sm run m w).code ≡ some (precompile a)))
    unfolding load_code
    loaded m w fresh = elim (Option-cases m.code) [
      | inr (c, given) ↦ inl (rw given fresh)
      | inl missing ↦ elim (Bool-cases (lib.has_precompile (code_address m))) [
        | inl found ↦ inr (code_address m, rw (missing, found) refl, rw (missing, found) refl)
        | inr absent ↦ inl (rw (missing, absent) refl)
      ]
    ]

    depth-load : (m : Message) (w : World S) → (load_code rules lib sm run m w).depth ≡ m.depth
    unfolding load_code
    depth-load m w = elim (Option-cases m.code) [
      | inr (c, given) ↦ rw given refl
      | inl missing ↦ elim (Bool-cases (lib.has_precompile (code_address m))) [
        | inl found ↦ rw (missing, found) refl
        | inr absent ↦ rw (missing, absent) refl
      ]
    ]

    loaded_runs :
        (is_compiled : Bool) (m : Message) (w : World S)
        → least ≤ m.depth
        → (is_compiled ≡ false) ⊎ ((a : ℕ) × (is_compiled ≡ true) × (m.code ≡ some (precompile a)))
        → (r : ExecResult) × (shared : Assoc ℕ) × (x : World S) × (run_loaded rules lib sm run
              is_compiled m w
            ≡ ok (r, shared, x))
          × Run sm laws w x
    unfolding run_loaded run_compiled
    loaded_runs false m w deep which = interpreted m w deep
    loaded_runs true m w deep (inl wrong) = cc
    loaded_runs true m w deep (inr (a, _, code)) =
        let (r, x) = run.run_precompile a m.call_data m.gas_limit w in
        (
          r,
          m.selfdestruct,
          x,
          ap (λ c. run_compiled rules lib sm run c m w) code,
          runner.compiles a m.call_data m.gas_limit w,
        )

    finish_run :
        (created : Option ℕ) (computed : Result T.Error (Ran rules lib sm run)) (r : ExecResult)
        (shared : Assoc ℕ) (w x : World S)
        → computed ≡ ok (r, shared, x)
        → Run sm laws w x
        → Ends w (computed >>= λ ran. ok (finished rules lib sm run created ran))
    finish_run created computed r shared w x done ran =
        ((finished rules lib sm run created (r, shared, x)).0, x, rw done refl, ran)

    pub execute_call-Ends :
        (m : Message) (w : World S)
        → least ≤ m.depth
        → m.is_compiled ≡ false
        → Ends w (execute_call rules lib sm run m w)
    unfolding execute_call
    execute_call-Ends m w deep fresh =
        let (e, y) = transfer rules lib sm run m w in
        let message = load_code rules lib sm run m y in
        let moved = transfer-Run m w in
        elim (Bool-cases (no_code message.code || not (is_none e))) [
          | inl stops ↦ (stopped rules lib sm run none e 0 message, y, rw stops refl, moved)
          | inr goes ↦
              let (r, shared, x, done, ran) =
                loaded_runs message.is_compiled message y (rw (depth-load m y) deep)
                  (loaded m y fresh) in
              rw goes (
                finish_run none (run_loaded rules lib sm run message.is_compiled message y) r shared
                  w x done (Run-trans sm laws moved ran))
        ]

    save-Run :
        (to : ℕ) (r : ExecResult) (oog : Bool) (w : World S)
        → Run sm laws w (save_code rules lib sm run to r oog w)
    unfolding save_code
    save-Run to r oog w =
        elim (Bool-cases (is_none r.exception_error && not (length r.return_value == 0))) [
          | inl saves ↦ rw saves (
              manage (sm.put_contract_code to r.return_value w.manager) start
                (laws.saved-put_code to r.return_value w.manager))
          | inr not_saved ↦ elim (Bool-cases (oog && not rules.homestead)) [
            | inl empty ↦ rw (not_saved, empty) (put-Run to (sm.get_account to w.manager) w)
            | inr nothing ↦ rw (not_saved, nothing) start
          ]
        ]

    create_contract-Ends :
        (to : ℕ) (m : Message) (w : World S)
        → least ≤ m.depth
        → Ends w (create_contract rules lib sm run to m w)
    unfolding create_contract
    create_contract-Ends to m w deep =
        let cleared = record w { manager = sm.clear_contract_storage to w.manager } in
        let clears : Run sm laws w cleared =
          manage (sm.clear_contract_storage to w.manager) start (laws.saved-clear to w.manager) in
        let account = sm.get_account to cleared.manager in
        let nonce = if rules.spurious_dragon then account.nonce + 1 else account.nonce in
        let credited =
          add_to_balance rules lib sm run to (record account { nonce = nonce }) m.value cleared in
        let moved =
          Run-trans sm laws clears
            (add-Run to (record account { nonce = nonce }) m.value cleared) in
        elim (Bool-cases (no_code m.code || not (is_none credited.0))) [
          | inl stops ↦
              (stopped rules lib sm run (some to) credited.0 0 m, credited.1, rw stops refl, moved)
          | inr goes ↦
              let (r, shared, x, done, ran) = interpreted m credited.1 deep in
              let (result, oog) = deposit rules lib.has_handler m.gas_limit r in
              (
                (finished rules lib sm run (some to) (result, shared, x)).0,
                save_code rules lib sm run to result oog x,
                rw (goes, done) refl,
                Run-trans sm laws (Run-trans sm laws moved ran) (save-Run to result oog x),
              )
        ]

    pub execute_create-Ends :
        (m : Message) (w : World S) → least ≤ m.depth → Ends w (execute_create rules lib sm run m w)
    unfolding execute_create
    execute_create-Ends m w deep =
        let y = reduce_sender_balance rules lib sm run m w in
        let started = record m { code = some (bytecode m.call_data); call_data = [] } in
        let to = new_address rules lib sm run started y in
        let message = record started { to = some to } in
        let paid = reduce-Run m w in
        elim (Bool-cases (rules.eip3860 && ltb rules.max_init_code_size (length m.call_data))) [
          | inl large ↦ (
            stopped rules lib sm run m.to (some initcode_size_violation) m.gas_limit m,
            y,
            rw large refl,
            paid,
          )
          | inr fits ↦
              elim (Bool-cases (is_collision rules lib sm run (sm.get_account to y.manager))) [
                | inl collides ↦ (
                  stopped rules lib sm run (some to) (some create_collision) m.gas_limit message,
                  y,
                  rw (fits, collides) refl,
                  paid,
                )
                | inr free ↦
                    let (r, x, done, ran) = create_contract-Ends to message y deep in
                    (r, x, rw (fits, free) done, Run-trans sm laws paid ran)
              ]
        ]
