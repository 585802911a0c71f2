-- ===== src/Evm/Message/Execute.antt =====
-- The execution of a message, packages/vm/src/evm/evm.ts, over a state manager, with the functions that
-- run code as a parameter. The hooks and the debug output are left out.
use moola_fix.Common.{
  ℕ, ◌+◌, ◌-◌, Bool, true, false, not, ◌&&◌, ◌||◌, Option, none, some, [], Result, ok, err, ◌>>=◌,
  length, ltb, leb, ◌==◌, if◌then◌else◌,
}
use moola_fix.Common.Assoc.{Assoc}
use moola_fix.Evm.Error.{VmError, value_overflow, create_collision, initcode_size_violation}
use moola_fix.Evm.Stack.{max_integer}
use moola_fix.Evm.Message.{
  Account, StateManager, World, Code, bytecode, precompile, Message, or_zero, code_address,
  ExecResult, EvmResult, Env, Interpreted, Rules, Library, Runners, no_result,
}
use moola_fix.Evm.Message.Create.{is_none, deposit}
use moola_fix.State.TransientStorage.{Error, type_error}
use moola_fix.Evm.Message.Checkpoints.{
  keeps_gas, is_codestore, no_code, bytes_of, enter, commit_both, revert_both,
}

module _ (rules : Rules) (lib : Library) {S : Type 0} (sm : StateManager S) (run : Runners S) where
  -- `_generateAddress`
  unfoldable pub new_address : Message → World S → ℕ
  new_address message w = elim message.salt [
    | some salt ↦ lib.generate_address2 message.caller salt (bytes_of message.code)
    | none ↦ lib.generate_address message.caller (sm.get_account message.caller w.manager).nonce
  ]

  abbrev pub put : ℕ → Account → World S → World S
  put address account w = record w { manager = sm.put_account address account w.manager }

  -- `_reduceSenderBalance`
  unfoldable pub reduce_sender_balance : Message → World S → World S
  reduce_sender_balance message w =
      let account = sm.get_account message.caller w.manager in
      let balance =
        if leb message.value account.balance
        then account.balance - message.value
        else lib.negative_balance (message.value - account.balance) in
      put message.caller (record account { balance = balance }) w

  -- `_addToBalance`: the error that it throws, if any.
  unfoldable pub add_to_balance : ℕ → Account → ℕ → World S → Option VmError × World S
  add_to_balance to account value w =
      let new_balance = account.balance + value in
      if ltb max_integer new_balance
      then (some value_overflow, w)
      else (none, put to (record account { balance = new_balance }) w)

  -- `_loadCode`
  unfoldable pub load_code : Message → World S → Message
  load_code message w = elim message.code [
    | some _ ↦ message
    | none ↦
        if lib.has_precompile (code_address message)
        then record message { code = some (precompile (code_address message)); is_compiled = true }
        else record message {
          code = some (bytecode (sm.get_contract_code (code_address message) w.manager));
          is_compiled = false;
        }
  ]

  abbrev pub make_env : Message → World S → Env
  make_env message w = record {
    address = or_zero message.to;
    caller = message.caller;
    call_data = message.call_data;
    call_value = message.value;
    code = bytes_of message.code;
    is_static = message.is_static;
    depth = message.depth;
    contract = sm.get_account (or_zero message.to) w.manager;
    code_address = code_address message;
  }

  -- The result of `runInterpreter` from what the EEI holds.
  unfoldable pub exec_result_of : ℕ → Interpreted → ExecResult
  exec_result_of gas_limit i = elim i.exception_error [
    | none ↦ record {
      exception_error = none;
      gas_used = gas_limit - i.gas_left;
      return_value = i.return_value;
      logs = i.logs;
      selfdestruct = i.selfdestruct;
      gas_refund = 0;
    }
    | some e ↦ record {
      exception_error = some e;
      gas_used = if keeps_gas e then gas_limit - i.gas_left else gas_limit;
      return_value = i.return_value;
      logs = [];
      selfdestruct = [];
      gas_refund = 0;
    }
  ]

  abbrev pub Ran : Type 0
  Ran = ExecResult × Assoc ℕ × World S

  -- `runInterpreter`
  unfoldable pub run_interpreter : Message → World S → Result Error Ran
  unfolding exec_result_of
  run_interpreter message w =
      run.interpret (make_env message w) message.gas_limit message.selfdestruct w >>= λ r.
      ok (exec_result_of message.gas_limit r.0, r.0.selfdestruct, r.1)

  -- `runPrecompile`, where the code is a function.
  unfoldable pub run_compiled : Option Code → Message → World S → Result Error Ran
  run_compiled (some (precompile a)) message w =
      let (result, w') = run.run_precompile a message.call_data message.gas_limit w in
      ok (result, message.selfdestruct, w')
  run_compiled _ message w = err type_error

  unfoldable pub run_loaded : Bool → Message → World S → Result Error Ran
  unfolding run_compiled run_interpreter
  run_loaded true message w = run_compiled message.code message w
  run_loaded false message w = run_interpreter message w

  abbrev pub Executed : Type 0
  Executed = EvmResult × World S

  -- A result before any code has run.
  abbrev pub stopped : Option ℕ → Option VmError → ℕ → Message → EvmResult
  stopped created e gas_used message = record {
    gas_used = gas_used;
    created_address = created;
    exec_result = record no_result { exception_error = e; gas_used = gas_used };
    shared = message.selfdestruct;
  }

  abbrev pub finished : Option ℕ → Ran → Executed
  finished created (result, shared, w) = (
    record {
      gas_used = result.gas_used;
      created_address = created;
      exec_result = result;
      shared = shared;
    },
    w,
  )

  -- The transfer of a call.
  unfoldable pub transfer : Message → World S → Option VmError × World S
  unfolding reduce_sender_balance add_to_balance
  transfer message w =
      if message.delegatecall
      then (none, w)
      else let reduced = reduce_sender_balance message w in
        add_to_balance (or_zero message.to) (sm.get_account (or_zero message.to) reduced.manager)
          message.value reduced

  -- `_executeCall`
  unfoldable pub execute_call : Message → World S → Result Error Executed
  unfolding transfer load_code run_loaded
  execute_call given w =
      let (error_message, w') = transfer given w in
      let message = load_code given w' in
      if no_code message.code || not (is_none error_message)
      then ok (stopped none error_message 0 message, w')
      else run_loaded message.is_compiled message w' >>= λ ran. ok (finished none ran)

  -- The code is stored, or, where the fee for it was too much before Homestead, the account is.
  unfoldable pub save_code : ℕ → ExecResult → Bool → World S → World S
  save_code to result codestore_oog w =
      if is_none result.exception_error && not (length result.return_value == 0)
      then record w { manager = sm.put_contract_code to result.return_value w.manager }
      else if codestore_oog && not rules.homestead
      then put to (sm.get_account to w.manager) w
      else w

  -- `_executeCreate` behind its checks: the new account, the code and the deposit.
  unfoldable pub create_contract : ℕ → Message → World S → Result Error Executed
  unfolding add_to_balance run_interpreter deposit save_code
  create_contract to message w =
      let cleared = record w { manager = sm.clear_contract_storage to w.manager } in
      let account = sm.get_account to cleared.manager in
      let nonce = if rules.spurious_dragon then account.nonce + 1 else account.nonce in
      let (error_message, w') =
        add_to_balance to (record account { nonce = nonce }) message.value cleared in
      if no_code message.code || not (is_none error_message)
      then ok (stopped (some to) error_message 0 message, w')
      else run_interpreter message w' >>= λ ran.
          let (result, codestore_oog) = deposit rules lib.has_handler message.gas_limit ran.0 in
          ok (finished (some to) (result, ran.1, save_code to result codestore_oog ran.2))

  abbrev pub is_collision : Account → Bool
  is_collision account = ltb 0 account.nonce || not (account.code_hash == lib.keccak256_null)

  -- `_executeCreate`
  unfoldable pub execute_create : Message → World S → Result Error Executed
  unfolding reduce_sender_balance new_address create_contract
  execute_create given w =
      let w' = reduce_sender_balance given w in
      if rules.eip3860 && ltb rules.max_init_code_size (length given.call_data)
      then ok (stopped given.to (some initcode_size_violation) given.gas_limit given, w')
      else let started = record given { code = some (bytecode given.call_data); call_data = [] } in
        let to = new_address started w' in
        let message = record started { to = some to } in
        if is_collision (sm.get_account to w'.manager)
        then ok (stopped (some to) (some create_collision) message.gas_limit message, w')
        else create_contract to message w'

  -- The result and the state behind the execution, by the error: on one the refund is what it was.
  unfoldable pub conclude_with : Option VmError → ℕ → EvmResult → World S → Result Error Executed
  unfolding commit_both revert_both
  conclude_with none old_refund result w = commit_both sm w >>= λ w'.
      ok (record result { exec_result = record result.exec_result { gas_refund = w.refund } }, w')
  conclude_with (some e) old_refund result w =
      let exec_result = record result.exec_result { gas_refund = old_refund; selfdestruct = [] } in
      let reset = record w { refund = old_refund } in
      if rules.homestead || not (is_codestore e)
      then (revert_both sm reset >>= λ w'.
          ok (record result { exec_result = record exec_result { logs = [] } }, w'))
      else (commit_both sm reset >>= λ w'. ok (record result { exec_result = exec_result }, w'))

  unfoldable pub conclude : ℕ → Executed → Result Error Executed
  unfolding conclude_with
  conclude old_refund (result, w) =
      conclude_with result.exec_result.exception_error old_refund result w

  -- The address of a contract that a message creates is warm from the start, also where it fails.
  unfoldable pub warm : Message → World S → Message × World S
  unfolding new_address
  warm given w = elim given.to [
    | some _ ↦ (given, w)
    | none ↦
        if rules.eip2929
        then (let message = record given { code = some (bytecode given.call_data) } in
            (
              message,
              record w { manager = sm.add_warmed_address (new_address message w) w.manager },
            ))
        else (given, w)
  ]

  -- `executeMessage`
  unfoldable pub execute_message : Message → World S → Result Error Executed
  unfolding warm enter execute_call execute_create conclude
  execute_message given w =
      let (message, warmed) = warm given w in
      (if is_none message.to
        then execute_create message (enter sm warmed)
        else execute_call message (enter sm warmed))
      >>= conclude w.refund
