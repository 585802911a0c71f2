-- ===== src/Evm/Message/Depth.antt =====
-- Messages inside messages: the interpreter of packages/vm/src/evm/interpreter.ts reaches the EVM again
-- through the EEI, one level deeper, and packages/vm/src/evm/eei.ts sends no message from the depth
-- `stackLimit` on. The depth is the fuel.
use moola_fix.Common.{ℕ, zero, suc, ◌-◌, ◌≡◌, false, true, some, List, [], ok, err, arith, Result}
use moola_fix.Common.Assoc.{Assoc}
use moola_fix.Evm.Error.{VmError}
use moola_fix.State.TransientStorage.{type_error, Error}
use moola_fix.Evm.Message.{
  StateManager, World, Message, EvmResult, ExecResult, Env, Rules, Library, Runners,
}
use moola_fix.Evm.Message.Execute.{execute_message, warm}
use moola_fix.Evm.Message.Frames.{IsStateManager, Run}
use moola_fix.Evm.Message.Balanced.{IsRunner}
use moola_fix.Evm.Message.Atomic.{undoes, IsUndone, execute_message_ends, execute_message-IsUndone}
use moola_fix.Evm.Message.Requests.{Eei, Script}
use moola_fix.Evm.Message.Eei.{run_script}
use moola_fix.Evm.Message.Eei.Runs.{run_script-Finishes}

module _ (rules : Rules) (lib : Library) {S : Type 0} (sm : StateManager S) (script : Env → Script)
    (run_precompile : ℕ → List ℕ → ℕ → World S → ExecResult × World S) where
  -- The EEI as `runInterpreter` makes it.
  abbrev pub new_eei : Env → ℕ → Assoc ℕ → Eei
  new_eei env gas selfdestruct = record {
    gas_left = gas;
    logs = [];
    selfdestruct = selfdestruct;
    last_returned = [];
    contract = env.contract;
  }

  -- The runners with fuel for a number of levels.
  unfoldable pub runners : ℕ → Runners S
  runners zero = record {
    interpret = λ env gas selfdestruct w. err type_error;
    run_precompile = run_precompile;
  }
  runners (suc levels) = record {
    interpret = λ env gas selfdestruct w.
        run_script rules sm (execute_message rules lib sm (runners levels)) env (script env)
          (new_eei env gas selfdestruct) w;
    run_precompile = run_precompile;
  }

  -- A message of the VM: the levels that the depth leaves are fuel enough.
  unfoldable pub run_message : Message → World S → Result Error (EvmResult × World S)
  unfolding runners
  run_message = execute_message rules lib sm (runners (suc rules.stack_limit))

  module _ {View : Type 0} (laws : IsStateManager sm View)
      (compiles : (a : ℕ) (bytes : List ℕ) (gas : ℕ) (w : World S)
        → Run sm laws w (run_precompile a bytes gas w).1) where
    runners-IsRunner :
        (levels : ℕ) → IsRunner sm laws (runners (suc levels)) (rules.stack_limit - levels)
    unfolding runners
    runners-IsRunner zero = record {
      interprets = λ env gas selfdestruct w deep.
          run_script-Finishes rules sm laws (execute_message rules lib sm (runners zero)) env
            (λ m x room deeper fresh. absurd (omega arith)) (script env)
            (new_eei env gas selfdestruct) w;
      compiles = compiles;
    }
    runners-IsRunner (suc levels) = record {
      interprets = λ env gas selfdestruct w deep.
          run_script-Finishes rules sm laws (execute_message rules lib sm (runners (suc levels)))
            env
            (λ m x room deeper fresh.
              let (r, z, done, ran, _, _) =
                execute_message_ends sm laws rules lib (runners (suc levels))
                  (rules.stack_limit - levels) (runners-IsRunner levels) m x (omega arith) fresh in
              (r, z, done, ran))
            (script env) (new_eei env gas selfdestruct) w;
      compiles = compiles;
    }

    whole :
        IsRunner sm laws (runners (suc rules.stack_limit)) (rules.stack_limit - rules.stack_limit)
    whole = runners-IsRunner rules.stack_limit

    -- The execution of a message that is not marked as compiled returns, for every script and from every depth,
    -- and leaves the open checkpoints as they were, where the state manager keeps its laws and the precompiles
    -- leave the checkpoints alone.
    pub run_message_ends :
        (m : Message) (w : World S)
        → m.is_compiled ≡ false
        → (r : EvmResult) × (z : World S) × (run_message m w ≡ ok (r, z))
          × (laws.saved z.manager ≡ laws.saved w.manager)
          × (z.transient.indices ≡ w.transient.indices)
    unfolding run_message
    run_message_ends m w fresh =
        let (r, z, done, _, kept, indices) =
          execute_message_ends sm laws rules lib (runners (suc rules.stack_limit))
            (rules.stack_limit - rules.stack_limit) whole m w (omega arith) fresh in
        (r, z, done, kept, indices)

    -- Under the same conditions, a message that fails, but for the fee of its code before Homestead, is undone:
    -- the view of the state manager is the one before, with the address of a contract to create warm.
    pub run_message-IsUndone :
        (m : Message) (w z : World S) (r : EvmResult) (e : VmError)
        → m.is_compiled ≡ false
        → run_message m w ≡ ok (r, z)
        → r.exec_result.exception_error ≡ some e
        → undoes rules e ≡ true
        → IsUndone sm laws (warm rules lib sm (runners (suc rules.stack_limit)) m w).1 r z
    unfolding run_message
    run_message-IsUndone m w z r e fresh done failed undone =
        execute_message-IsUndone sm laws rules lib (runners (suc rules.stack_limit))
          (rules.stack_limit - rules.stack_limit) whole m w z r e (omega arith) fresh done failed
          undone
