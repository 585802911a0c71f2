-- ===== src/Evm/Message/Eei/Runs.antt =====
-- A run of code comes to an end and leaves the checkpoints alone: packages/vm/src/evm/eei.ts.
use moola_fix.Common.{
  ℕ, ◌+◌, ◌-◌, ◌≤◌, ◌<◌, ◌≡◌, refl, sym, ap, ◌∙◌, inl, inr, Bool, true, false, not, ◌&&◌, ◌||◌,
  Option, some, List, [], Result, ok, err, ◌>>=◌, length, ltb, leb, if◌then◌else◌, Bool-cases,
  subst, arith, ltb-false,
}
use moola_fix.Common.Assoc.{has}
use moola_fix.Evm.Error.{VmError}
use moola_fix.State.TransientStorage as T
use moola_fix.Evm.Message.{StateManager, World, Message, EvmResult, Env, Interpreted, Rules}
use moola_fix.Evm.Message.Create.{is_none}
use moola_fix.Evm.Message.Requests.{
  Eei, CallKind, call, call_code, call_static, call_delegate, Script, finish, reverts, traps,
  use_gas, refund_gas, sub_refund, add_stipend, get_gas_left, get_account, get_code, access_address,
  access_storage, storage_store, storage_load, transient_store, transient_load, log, self_destruct,
  calls, creates, max_uint64, message_of, creation_of, is_codestore_error,
}
use moola_fix.Evm.Message.Eei.{
  warmed_by_access, warmed_slot_by_access, Answered, charge_message, after_call, after_create,
  base_call, create, destruct, follow, ended, Finished, run_script,
}
use moola_fix.Evm.Message.Frames.{IsStateManager, Run, start, manage, store, count, Run-trans}

module _ (rules : Rules) {S View : Type 0} (sm : StateManager S)
    (laws : IsStateManager sm View) where
  -- What follows a message does not touch the state.
  after_call_state :
      (env : Env) (r : EvmResult) (w : World S) (charged : Result VmError Eei × Eei)
      → (after_call rules sm env r w charged).2 ≡ w
  unfolding after_call
  after_call_state env r w (err e, eei) = refl
  after_call_state env r w (ok eei, _) = elim (Bool-cases (is_none r.exec_result.exception_error)) [
    | inl fine ↦ rw fine refl
    | inr failed ↦ rw failed refl
  ]

  after_create_state :
      (env : Env) (r : EvmResult) (w : World S) (charged : Result VmError Eei × Eei)
      → (after_create rules sm env r w charged).2 ≡ w
  unfolding after_create
  after_create_state env r w (err e, eei) = refl
  after_create_state env r w (ok eei, _) =
      elim (Bool-cases (
        is_none r.exec_result.exception_error
        || is_codestore_error r.exec_result.exception_error)) [
          | inl fine ↦ rw fine refl
          | inr failed ↦ rw failed refl
        ]

  module _ (execute : Message → World S → Result T.Error (EvmResult × World S)) (env : Env)
      (executes : (m : Message) (w : World S)
        → env.depth < rules.stack_limit
        → m.depth ≡ env.depth + 1
        → m.is_compiled ≡ false
        → (r : EvmResult) × (x : World S) × (execute m w ≡ ok (r, x)) × Run sm laws w x) where
    abbrev Answers : World S → Result T.Error (Answered rules sm) → Type 0
    Answers w computed =
        (a : Result VmError ℕ) × (eei : Eei) × (x : World S) × (computed ≡ ok (a, eei, x))
        × Run sm laws w x

    too_deep_or_not :
        (b : Bool) → (leb rules.stack_limit env.depth || b) ≡ false → env.depth < rules.stack_limit
    too_deep_or_not b h = ground arith

    answered :
        (m : Message) (eei : Eei) (w : World S) (after : EvmResult → World S → Answered rules sm)
        → ((r : EvmResult) (x : World S) → (after r x).2 ≡ x)
        → env.depth < rules.stack_limit
        → m.depth ≡ env.depth + 1
        → m.is_compiled ≡ false
        → Answers w (execute m w >>= λ r. ok (after r.0 r.1))
    answered m eei w after same room deeper fresh =
        let (r, x, done, ran) = executes m w room deeper fresh in
        (
          (after r x).0,
          (after r x).1,
          (after r x).2,
          ap (λ c. c >>= λ q. ok (after q.0 q.1)) done,
          subst (Run sm laws w) (sym (same r x)) ran,
        )

    base_call-Answers :
        (m : Message) (eei : Eei) (w : World S)
        → m.depth ≡ env.depth + 1
        → m.is_compiled ≡ false
        → Answers w (base_call rules sm execute env m eei w)
    unfolding base_call
    base_call-Answers m eei w deeper fresh =
        let quiet = record eei { last_returned = [] } in
        let short = not m.delegatecall && ltb eei.contract.balance m.value in
        elim (Bool-cases (leb rules.stack_limit env.depth || short)) [
          | inl stops ↦ (ok 0, quiet, w, rw stops refl, start)
          | inr goes ↦ rw goes (
              answered m quiet w
                (λ r x. after_call rules sm env r x (charge_message rules sm r quiet))
                (λ r x. after_call_state env r x (charge_message rules sm r quiet))
                (too_deep_or_not short goes) deeper fresh)
        ]

    create-Answers :
        (m : Message) (eei : Eei) (w : World S)
        → m.depth ≡ env.depth + 1
        → m.is_compiled ≡ false
        → Answers w (create rules sm execute env m eei w)
    unfolding create
    create-Answers m eei w deeper fresh =
        let quiet = record eei { last_returned = [] } in
        let short = not m.delegatecall && ltb eei.contract.balance m.value in
        let contract = record eei.contract { nonce = eei.contract.nonce + 1 } in
        let counted = record quiet { contract = contract } in
        let manager = sm.put_account env.address contract w.manager in
        let counts : Run sm laws w (record w { manager = manager }) =
          manage manager start (laws.saved-put env.address contract w.manager) in
        elim (Bool-cases (leb rules.stack_limit env.depth || short)) [
          | inl stops ↦ (ok 0, quiet, w, rw stops refl, start)
          | inr goes ↦ elim (Bool-cases (leb max_uint64 eei.contract.nonce)) [
            | inl full ↦ (ok 0, quiet, w, rw (goes, full) refl, start)
            | inr room ↦
                elim (Bool-cases
                  (rules.eip3860 && ltb rules.max_init_code_size (length m.call_data))) [
                    | inl large ↦ (
                      ok 0,
                      counted,
                      record w { manager = manager },
                      rw (goes, room, large) refl,
                      counts,
                    )
                    | inr fits ↦
                        let (a, eei', x, done, ran) =
                          answered m counted (record w { manager = manager })
                            (λ r x.
                              after_create rules sm env r x (charge_message rules sm r counted))
                            (λ r x. after_create_state env r x (charge_message rules sm r counted))
                            (too_deep_or_not short goes) deeper fresh in
                        (a, eei', x, rw (goes, room, fits) done, Run-trans sm laws counts ran)
                  ]
          ]
        ]

    destruct-Run :
        (to : ℕ) (eei : Eei) (w : World S) → Run sm laws w (destruct rules sm env to eei w).1
    unfolding destruct
    destruct-Run to eei w = elim (Bool-cases (has env.address eei.selfdestruct)) [
      | inl again ↦ rw again (manage _ start (laws.saved-put _ _ _ ∙ laws.saved-put _ _ w.manager))
      | inr first ↦ rw first (
          manage _ (count (w.refund + rules.selfdestruct_refund) start)
            (laws.saved-put _ _ _ ∙ laws.saved-put _ _ w.manager))
    ]

    message_of_lem :
        (kind : CallKind) (eei : Eei) (gas address value : ℕ) (bytes : List ℕ)
        → ((message_of kind env eei gas address value bytes).depth ≡ env.depth + 1)
          × ((message_of kind env eei gas address value bytes).is_compiled ≡ false)
    unfolding message_of
    message_of_lem call eei gas address value bytes = (refl, refl)
    message_of_lem call_code eei gas address value bytes = (refl, refl)
    message_of_lem call_static eei gas address value bytes = (refl, refl)
    message_of_lem call_delegate eei gas address value bytes = (refl, refl)

    creation_of_lem :
        (eei : Eei) (gas value : ℕ) (bytes : List ℕ) (salt : Option ℕ)
        → ((creation_of env eei gas value bytes salt).depth ≡ env.depth + 1)
          × ((creation_of env eei gas value bytes salt).is_compiled ≡ false)
    unfolding creation_of
    creation_of_lem eei gas value bytes salt = (refl, refl)

    abbrev Finishes : World S → Finished rules sm execute → Type 0
    Finishes w computed =
        (i : Interpreted) × (x : World S) × (computed ≡ ok (i, x)) × Run sm laws w x

    continued :
        {w x : World S} {computed : Finished rules sm execute}
        → Run sm laws w x
        → Finishes x computed
        → Finishes w computed
    continued r (i, y, done, ran) = (i, y, done, Run-trans sm laws r ran)

    either :
        (b : Bool) {w : World S} (c d : Finished rules sm execute)
        → Finishes w c
        → Finishes w d
        → Finishes w (if b then c else d)
    either true c d first second = first
    either false c d first second = second

    saved_if :
        (b : Bool) (s t : S)
        → laws.saved t ≡ laws.saved s
        → laws.saved (if b then s else t) ≡ laws.saved s
    saved_if true s t same = refl
    saved_if false s t same = same

    put_short :
        (key : ℕ) (value : List ℕ) (t : T.TransientStorage)
        → length value ≤ 32
        → (t' : T.TransientStorage) × (T.put env.address key 32 value t ≡ ok t')
    unfolding T.put
    put_short key value t short = rw (ltb-false 32 (length value) short) (_, refl)

    followed :
        (computed : Result T.Error (Answered rules sm)) (w : World S)
        (next : ℕ → Eei → World S → Finished rules sm execute)
        → Answers w computed
        → ((a : ℕ) (eei : Eei) (x : World S) → Finishes x (next a eei x))
        → Finishes w (computed >>= follow rules sm execute next)
    followed computed w next (ok a, eei, x, done, ran) rest = rw done (continued ran (rest a eei x))
    followed computed w next (err e, eei, x, done, ran) rest =
        (ended rules sm execute (some e) [] eei, x, rw done refl, ran)

    -- Every run of code ends, and what it does to the state is a run.
    pub run_script-Finishes :
        (script : Script) (eei : Eei) (w : World S)
        → Finishes w (run_script rules sm execute env script eei w)
    unfolding run_script
    run_script-Finishes (finish bytes) eei w = (_, w, refl, start)
    run_script-Finishes (reverts bytes) eei w = (_, w, refl, start)
    run_script-Finishes (traps e) eei w = (_, w, refl, start)
    run_script-Finishes (use_gas amount rest) eei w =
        either (ltb eei.gas_left amount) _ _ (_, w, refl, start) (run_script-Finishes rest _ w)
    run_script-Finishes (refund_gas amount rest) eei w =
        continued (count (w.refund + amount) start) (run_script-Finishes rest eei _)
    run_script-Finishes (sub_refund amount rest) eei w =
        either (ltb w.refund amount) _ _ (_, _, refl, count 0 start)
          (continued (count (w.refund - amount) start) (run_script-Finishes rest eei _))
    run_script-Finishes (add_stipend amount rest) eei w = run_script-Finishes rest _ w
    run_script-Finishes (get_gas_left rest) eei w = run_script-Finishes (rest _) eei w
    run_script-Finishes (get_account address rest) eei w = run_script-Finishes (rest _) eei w
    run_script-Finishes (get_code address rest) eei w = run_script-Finishes (rest _) eei w
    run_script-Finishes (access_address address rest) eei w =
        continued
          (manage (warmed_by_access rules sm address w.manager) start (
            saved_if (sm.is_warmed_address address w.manager) w.manager _
              (laws.saved-warm address w.manager)))
          (run_script-Finishes (rest _) eei _)
    run_script-Finishes (access_storage key rest) eei w =
        continued
          (manage (warmed_slot_by_access rules sm env.address key w.manager) start (
            saved_if (sm.is_warmed_storage env.address key w.manager) w.manager _
              (laws.saved-warm_slot env.address key w.manager)))
          (run_script-Finishes (rest _) eei _)
    run_script-Finishes (storage_store key value rest) eei w =
        continued
          (manage (sm.put_contract_storage env.address key value w.manager) start
            (laws.saved-put_storage env.address key value w.manager))
          (run_script-Finishes rest _ _)
    run_script-Finishes (storage_load key rest) eei w = run_script-Finishes (rest _) eei w
    run_script-Finishes (transient_store key value short rest) eei w =
        let (t, done) = put_short key value w.transient short in
        rw done
          (continued (store env.address key 32 value t start done) (run_script-Finishes rest eei _))
    run_script-Finishes (transient_load key rest) eei w = run_script-Finishes (rest _) eei w
    run_script-Finishes (log bytes topics rest) eei w =
        either (ltb 4 (length topics)) _ _ (_, w, refl, start) (run_script-Finishes rest _ w)
    run_script-Finishes (self_destruct to) eei w = (_, _, refl, destruct-Run to eei w)
    run_script-Finishes (calls kind gas address value bytes rest) eei w =
        let message = message_of kind env eei gas address value bytes in
        let (deeper, fresh) = message_of_lem kind eei gas address value bytes in
        followed (base_call rules sm execute env message eei w) w _
          (base_call-Answers message eei w deeper fresh)
          (λ a eei' x. run_script-Finishes (rest a eei'.last_returned) eei' x)
    run_script-Finishes (creates gas value bytes salt rest) eei w =
        let message = creation_of env eei gas value bytes salt in
        followed (create rules sm execute env message eei w) w _
          (create-Answers message eei w (creation_of_lem eei gas value bytes salt).0
            (creation_of_lem eei gas value bytes salt).1)
          (λ a eei' x. run_script-Finishes (rest a eei'.last_returned) eei' x)
