-- ===== src/Evm/Message/Eei.antt =====
-- What the code of a message does to the state: packages/vm/src/evm/eei.ts. The interpreter reaches the
-- state through the EEI alone, and a run of it is given as what it asks of the EEI in turn, each next
-- request depending on the answers. A run makes finitely many requests: that the loop of the interpreter ends
-- is proved in Evm.Handlers.Termination. The execution of a message is an argument.
pub mod Runs
use moola_fix.Common.{
  ℕ, zero, suc, ◌+◌, ◌-◌, ◌*◌, ◌^◌, ◌≤◌, Bool, true, false, not, ◌&&◌, ◌||◌, Option, none, some,
  List, [], ◌∷◌, ◌++◌, Result, ok, err, ◌>>=◌, length, ltb, leb, ◌==◌, if◌then◌else◌,
}
use moola_fix.Common.Assoc.{Assoc, insert, has}
use moola_fix.Evm.Error.{
  VmError, out_of_gas, refund_exhausted, out_of_range, revert, codestore_out_of_gas,
}
use moola_fix.Evm.Message.{
  Account, StateManager, World, Message, Log, ExecResult, EvmResult, Env, Interpreted, Rules,
}
use moola_fix.Evm.Message.Create.{is_none}
use moola_fix.State.TransientStorage as T
use moola_fix.Evm.Message.Requests.{
  Eei, CallKind, call, call_code, call_static, call_delegate, Script, finish, reverts, traps,
  use_gas, refund_gas, sub_refund, add_stipend, get_gas_left, get_account, get_code, access_address,
  access_storage, storage_store, storage_load, transient_store, transient_load, log, self_destruct,
  calls, creates, max_uint64, assign_all, message_of, creation_of, is_revert, is_codestore_error,
}

module _ (rules : Rules) {S : Type 0} (sm : StateManager S) where
  -- The answer of a request, or a trap, with the EEI and the state.
  abbrev pub Answered : Type 0
  Answered = Result VmError ℕ × Eei × World S

  -- The accesses of packages/vm/src/evm/opcodes/EIP2929.ts.
  abbrev pub warmed_by_access : ℕ → S → S
  warmed_by_access address s =
      if sm.is_warmed_address address s then s else sm.add_warmed_address address s

  abbrev pub warmed_slot_by_access : ℕ → ℕ → S → S
  warmed_slot_by_access address key s =
      if sm.is_warmed_storage address key s then s else sm.add_warmed_storage address key s

  -- The EEI sees the account of its contract again.
  abbrev pub refreshed : Env → EvmResult → Eei → World S → Eei
  refreshed env r eei w = record eei {
    selfdestruct = assign_all eei.selfdestruct r.shared;
    contract = sm.get_account env.address w.manager;
  }

  -- The logs, and the gas that the message has used.
  unfoldable pub charge_message : EvmResult → Eei → Result VmError Eei × Eei
  charge_message r eei =
      let logged = record eei { logs = eei.logs ++ r.exec_result.logs } in
      if ltb eei.gas_left r.gas_used
      then (err out_of_gas, record logged { gas_left = 0 })
      else let charged = record logged { gas_left = eei.gas_left - r.gas_used } in
        (ok charged, charged)

  -- `_baseCall` behind `executeMessage`.
  unfoldable pub after_call : Env → EvmResult → World S → Result VmError Eei × Eei → Answered
  unfolding assign_all
  after_call env r w (err e, eei) = (err e, eei, w)
  after_call env r w (ok eei, _) =
      let fine = is_none r.exec_result.exception_error in
      let returned =
        if fine || is_revert r.exec_result.exception_error
        then record eei { last_returned = r.exec_result.return_value }
        else eei in
      if fine then (ok 1, refreshed env r returned w, w) else (ok 0, returned, w)

  -- `create` behind `executeMessage`.
  unfoldable pub after_create : Env → EvmResult → World S → Result VmError Eei × Eei → Answered
  unfolding assign_all
  after_create env r w (err e, eei) = (err e, eei, w)
  after_create env r w (ok eei, _) =
      let fine = is_none r.exec_result.exception_error in
      let returned =
        if is_revert r.exec_result.exception_error
        then record eei { last_returned = r.exec_result.return_value }
        else eei in
      if fine || is_codestore_error r.exec_result.exception_error
      then (
        ok (elim r.created_address [ some a ↦ a | none ↦ if fine then 1 else 0 ]),
        refreshed env r returned w,
        w,
      )
      else (ok 0, returned, w)

  -- `_selfDestruct`, but for the trap.
  unfoldable pub destruct : Env → ℕ → Eei → World S → Eei × World S
  destruct env to eei w =
      let refunded =
        if has env.address eei.selfdestruct
        then w
        else record w { refund = w.refund + rules.selfdestruct_refund } in
      let to_account = sm.get_account to refunded.manager in
      let paid =
        sm.put_account to
          (record to_account { balance = to_account.balance + eei.contract.balance })
          refunded.manager in
      let account = sm.get_account env.address paid in
      (
        record eei { selfdestruct = insert env.address to eei.selfdestruct },
        record refunded {
          manager = sm.put_account env.address (record account { balance = 0 }) paid;
        },
      )

  module _ (execute : Message → World S → Result T.Error (EvmResult × World S)) where
    -- `_baseCall`
    unfoldable pub base_call : Env → Message → Eei → World S → Result T.Error Answered
    unfolding after_call charge_message
    base_call env message given w =
        let eei = record given { last_returned = [] } in
        if leb rules.stack_limit env.depth
          || (not message.delegatecall && ltb eei.contract.balance message.value)
        then ok (ok 0, eei, w)
        else (execute message w >>= λ r. ok (after_call env r.0 r.1 (charge_message r.0 eei)))

    -- `create`
    unfoldable pub create : Env → Message → Eei → World S → Result T.Error Answered
    unfolding after_create charge_message
    create env message given w =
        let eei = record given { last_returned = [] } in
        if leb rules.stack_limit env.depth
          || (not message.delegatecall && ltb eei.contract.balance message.value)
        then ok (ok 0, eei, w)
        else if leb max_uint64 eei.contract.nonce
        then ok (ok 0, eei, w)
        else let contract = record eei.contract { nonce = eei.contract.nonce + 1 } in
          let counted = record eei { contract = contract } in
          let put = record w { manager = sm.put_account env.address contract w.manager } in
          if rules.eip3860 && ltb rules.max_init_code_size (length message.call_data)
          then ok (ok 0, counted, put)
          else (execute message put >>= λ r.
              ok (after_create env r.0 r.1 (charge_message r.0 counted)))

    abbrev pub ended : Option VmError → List ℕ → Eei → Interpreted
    ended e return_value eei = record {
      exception_error = e;
      gas_left = eei.gas_left;
      logs = eei.logs;
      return_value = return_value;
      selfdestruct = eei.selfdestruct;
    }

    abbrev pub Finished : Type 0
    Finished = Result T.Error (Interpreted × World S)

    -- What follows a request: a trap ends the run.
    abbrev pub follow : (ℕ → Eei → World S → Finished) → Answered → Finished
    follow next (ok answer, eei, w) = next answer eei w
    follow next (err e, eei, w) = ok (ended (some e) [] eei, w)

    unfoldable pub run_script : Env → Script → Eei → World S → Finished
    unfolding base_call create destruct message_of creation_of
    run_script env (finish bytes) eei w = ok (ended none bytes eei, w)
    run_script env (reverts bytes) eei w = ok (ended (some revert) bytes eei, w)
    run_script env (traps e) eei w = ok (ended (some e) [] eei, w)
    run_script env (use_gas amount rest) eei w =
        let next = run_script env rest (record eei { gas_left = eei.gas_left - amount }) w in
        if ltb eei.gas_left amount
        then ok (ended (some out_of_gas) [] (record eei { gas_left = 0 }), w)
        else next
    run_script env (refund_gas amount rest) eei w =
        run_script env rest eei (record w { refund = w.refund + amount })
    run_script env (sub_refund amount rest) eei w =
        let next = run_script env rest eei (record w { refund = w.refund - amount }) in
        if ltb w.refund amount
        then ok (ended (some refund_exhausted) [] eei, record w { refund = 0 })
        else next
    run_script env (add_stipend amount rest) eei w =
        run_script env rest (record eei { gas_left = eei.gas_left + amount }) w
    run_script env (get_gas_left rest) eei w = run_script env (rest eei.gas_left) eei w
    run_script env (get_account address rest) eei w =
        run_script env (rest (sm.get_account address w.manager)) eei w
    run_script env (get_code address rest) eei w =
        run_script env (rest (sm.get_contract_code address w.manager)) eei w
    run_script env (access_address address rest) eei w =
        run_script env (rest (sm.is_warmed_address address w.manager)) eei
          (record w { manager = warmed_by_access address w.manager })
    run_script env (access_storage key rest) eei w =
        run_script env (rest (sm.is_warmed_storage env.address key w.manager)) eei
          (record w { manager = warmed_slot_by_access env.address key w.manager })
    run_script env (storage_store key value rest) eei w =
        let manager = sm.put_contract_storage env.address key value w.manager in
        run_script env rest (record eei { contract = sm.get_account env.address manager })
          (record w { manager = manager })
    run_script env (storage_load key rest) eei w =
        run_script env (rest (sm.get_contract_storage env.address key w.manager)) eei w
    run_script env (transient_store key value _ rest) eei w =
        T.put env.address key 32 value w.transient >>= λ transient.
        run_script env rest eei (record w { transient = transient })
    run_script env (transient_load key rest) eei w =
        run_script env (rest (T.get w.transient env.address key)) eei w
    run_script env (log bytes topics rest) eei w =
        let entry : Log = record { address = env.address; topics = topics; log_data = bytes } in
        let next = run_script env rest (record eei { logs = eei.logs ++ entry ∷ [] }) w in
        if ltb 4 (length topics) then ok (ended (some out_of_range) [] eei, w) else next
    run_script env (self_destruct to) eei w =
        let (destructed, w') = destruct env to eei w in ok (ended none [] destructed, w')
    run_script env (calls kind gas_limit address value bytes rest) eei w =
        base_call env (message_of kind env eei gas_limit address value bytes) eei w
        >>= follow (λ answer eei' w'. run_script env (rest answer eei'.last_returned) eei' w')
    run_script env (creates gas_limit value bytes salt rest) eei w =
        create env (creation_of env eei gas_limit value bytes salt) eei w
        >>= follow (λ answer eei' w'. run_script env (rest answer eei'.last_returned) eei' w')
