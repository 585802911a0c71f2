-- ===== src/Evm/Message/Gas.antt =====
-- The gas of a message: packages/vm/src/evm/evm.ts.
use moola_fix.Common.{
  ℕ, ◌+◌, ◌≤◌, ◌≡◌, refl, Bool, true, false, not, ◌&&◌, ◌||◌, Option, none, some, List, [], Result,
  ok, err, ◌>>=◌, length, ltb, if◌then◌else◌, Bool-cases, Option-cases, inl, inr, subst, arith,
}
use moola_fix.Common.Assoc.{Assoc}
use moola_fix.Evm.Error.{VmError}
use moola_fix.State.TransientStorage as T
use moola_fix.Evm.Message.{
  StateManager, World, Message, Code, bytecode, precompile, code_address, EvmResult, ExecResult,
  Interpreted, Rules, Library, Runners,
}
use moola_fix.Evm.Message.Create.{is_none, return_fee, eof_checks, deposit}
use moola_fix.Evm.Message.Checkpoints.{no_code, commit_both, revert_both, enter, is_codestore}
use moola_fix.Evm.Message.Execute.{
  exec_result_of, run_interpreter, run_compiled, run_loaded, Ran, Executed, transfer, load_code,
  execute_call, add_to_balance, reduce_sender_balance, new_address, create_contract, execute_create,
  is_collision, conclude_with, conclude, warm, execute_message,
}

exec_result_of-le :
    (rules : Rules) (lib : Library) {S : Type 0} (sm : StateManager S) (run : Runners S) (limit : ℕ)
    (i : Interpreted)
    → (exec_result_of rules lib sm run limit i).gas_used ≤ limit
unfolding exec_result_of
exec_result_of-le rules lib sm run limit i = elim (Option-cases i.exception_error) [
  | inl fine ↦ rw fine (omega arith)
  | inr (e, failed) ↦ rw failed (ground arith)
]

eof_checks-le :
    (rules : Rules) (has_handler : ℕ → Bool) (limit total : ℕ) (r : ExecResult)
    → total ≤ limit
    → r.gas_used ≤ limit
    → (eof_checks rules has_handler limit total r).gas_used ≤ limit
unfolding eof_checks
eof_checks-le rules has_handler limit total r h k = ground arith

deposit-le :
    (rules : Rules) (has_handler : ℕ → Bool) (limit : ℕ) (r : ExecResult)
    → r.gas_used ≤ limit
    → (deposit rules has_handler limit r).0.gas_used ≤ limit
unfolding deposit
deposit-le rules has_handler limit r h =
    ground (arith, eof_checks-le rules has_handler limit (r.gas_used + return_fee rules r) r)

-- The gas of what has been computed is within the limit, and the two counts of it agree.
abbrev Bounded : {S : Type 0} → ℕ → Result T.Error (EvmResult × World S) → Type 0
Bounded limit (ok (r, _)) = (r.gas_used ≤ limit) × (r.exec_result.gas_used ≡ r.gas_used)
Bounded limit (err _) = Unit

-- What has been computed before stays within the limit behind a step that ends it.
ended-bound :
    {S : Type 0} (limit : ℕ) (c : Result T.Error (World S)) (r : EvmResult) (w : World S)
    → Bounded limit (ok (r, w))
    → Bounded limit (c >>= λ w'. ok (r, w'))
ended-bound limit (ok w') r w h = h
ended-bound limit (err e) r w h = tt

module _ (rules : Rules) (lib : Library) {S : Type 0} (sm : StateManager S) (run : Runners S)
    (frugal : (a : ℕ) (bytes : List ℕ) (gas : ℕ) (w : World S)
      → (run.run_precompile a bytes gas w).0.gas_used ≤ gas) where
  abbrev RanBounded : ℕ → Result T.Error (Ran rules lib sm run) → Type 0
  RanBounded limit (ok (r, _, _)) = r.gas_used ≤ limit
  RanBounded limit (err _) = Unit

  ran-bound :
      (limit : ℕ) (c : Result T.Error (Ran rules lib sm run))
      (f : Ran rules lib sm run → Result T.Error (Executed rules lib sm run))
      → RanBounded limit c
      → ((r : ExecResult) (shared : Assoc ℕ) (w : World S)
          → r.gas_used ≤ limit
          → Bounded limit (f (r, shared, w)))
      → Bounded limit (c >>= f)
  ran-bound limit (ok (r, shared, w)) f h rest = rest r shared w h
  ran-bound limit (err e) f h rest = tt

  interpreted-bound :
      (limit : ℕ) (c : Result T.Error (Interpreted × World S))
      → RanBounded limit
          (c >>= λ r. ok (exec_result_of rules lib sm run limit r.0, r.0.selfdestruct, r.1))
  interpreted-bound limit (ok (i, w)) = exec_result_of-le rules lib sm run limit i
  interpreted-bound limit (err e) = tt

  interpreter-bound :
      (m : Message) (w : World S) → RanBounded m.gas_limit (run_interpreter rules lib sm run m w)
  unfolding run_interpreter
  interpreter-bound m w = interpreted-bound m.gas_limit _

  compiled-bound :
      (code : Option Code) (m : Message) (w : World S)
      → RanBounded m.gas_limit (run_compiled rules lib sm run code m w)
  unfolding run_compiled
  compiled-bound none m w = tt
  compiled-bound (some (bytecode bytes)) m w = tt
  compiled-bound (some (precompile a)) m w = frugal a m.call_data m.gas_limit w

  loaded-bound :
      (is_compiled : Bool) (m : Message) (w : World S)
      → RanBounded m.gas_limit (run_loaded rules lib sm run is_compiled m w)
  unfolding run_loaded
  loaded-bound false m w = interpreter-bound m w
  loaded-bound true m w = compiled-bound m.code m w

  load-gas : (m : Message) (w : World S) → (load_code rules lib sm run m w).gas_limit ≡ m.gas_limit
  unfolding load_code
  load-gas m w = elim (Option-cases m.code) [
    | inr (c, given) ↦ rw given refl
    | inl missing ↦ elim (Bool-cases (lib.has_precompile (code_address m))) [
      | inl found ↦ rw (missing, found) refl
      | inr absent ↦ rw (missing, absent) refl
    ]
  ]

  call-bound : (m : Message) (w : World S) → Bounded m.gas_limit (execute_call rules lib sm run m w)
  unfolding execute_call
  call-bound m w =
      let (e, y) = transfer rules lib sm run m w in
      let message = load_code rules lib sm run m y in
      elim (Bool-cases (no_code message.code || not (is_none e))) [
        | inl stops ↦ rw stops (omega arith, refl)
        | inr goes ↦ rw goes (
            ran-bound m.gas_limit (run_loaded rules lib sm run message.is_compiled message y) _
              (subst
                (λ limit.
                  RanBounded limit (run_loaded rules lib sm run message.is_compiled message y))
                (load-gas m y) (loaded-bound message.is_compiled message y))
              (λ r shared x h. (h, refl)))
      ]

  contract-bound :
      (to : ℕ) (m : Message) (w : World S)
      → Bounded m.gas_limit (create_contract rules lib sm run to m w)
  unfolding create_contract
  contract-bound to m w =
      let cleared = record w { manager = sm.clear_contract_storage to w.manager } in
      let account = sm.get_account to cleared.manager in
      let nonce = if rules.spurious_dragon then account.nonce + 1 else account.nonce in
      let credited =
        add_to_balance rules lib sm run to (record account { nonce = nonce }) m.value cleared in
      elim (Bool-cases (no_code m.code || not (is_none credited.0))) [
        | inl stops ↦ rw stops (omega arith, refl)
        | inr goes ↦ rw goes (
            ran-bound m.gas_limit (run_interpreter rules lib sm run m credited.1) _
              (interpreter-bound m credited.1)
              (λ r shared x h. (deposit-le rules lib.has_handler m.gas_limit r h, refl)))
      ]

  create-bound :
      (m : Message) (w : World S) → Bounded m.gas_limit (execute_create rules lib sm run m w)
  unfolding execute_create
  create-bound m w =
      let y = reduce_sender_balance rules lib sm run m w in
      let started = record m { code = some (bytecode m.call_data); call_data = [] } in
      let to = new_address rules lib sm run started y in
      elim (Bool-cases (rules.eip3860 && ltb rules.max_init_code_size (length m.call_data))) [
        | inl large ↦ rw large (omega arith, refl)
        | inr fits ↦
            elim (Bool-cases (is_collision rules lib sm run (sm.get_account to y.manager))) [
              | inl collides ↦ rw (fits, collides) (omega arith, refl)
              | inr free ↦ rw (fits, free) (contract-bound to (record started { to = some to }) y)
            ]
      ]

  conclude-bound :
      (e : Option VmError) (limit refund : ℕ) (r : EvmResult) (w : World S)
      → Bounded limit (ok (r, w))
      → Bounded limit (conclude_with rules lib sm run e refund r w)
  unfolding conclude_with
  conclude-bound none limit refund r w h = ended-bound limit (commit_both sm w) _ w h
  conclude-bound (some e) limit refund r w h =
      elim (Bool-cases (rules.homestead || not (is_codestore e))) [
        | inl undone ↦
            rw undone (ended-bound limit (revert_both sm (record w { refund = refund })) _ w h)
        | inr kept ↦
            rw kept (ended-bound limit (commit_both sm (record w { refund = refund })) _ w h)
      ]

  concluded-bound :
      (limit refund : ℕ) (c : Result T.Error (Executed rules lib sm run))
      → Bounded limit c
      → Bounded limit (c >>= conclude rules lib sm run refund)
  unfolding conclude
  concluded-bound limit refund (ok (r, w)) h =
      conclude-bound r.exec_result.exception_error limit refund r w h
  concluded-bound limit refund (err e) h = tt

  warm-gas : (m : Message) (w : World S) → (warm rules lib sm run m w).0.gas_limit ≡ m.gas_limit
  unfolding warm
  warm-gas m w = elim (Option-cases m.to) [
    | inr (a, called) ↦ rw called refl
    | inl created ↦ elim (Bool-cases rules.eip2929) [
      | inl active ↦ rw (created, active) refl
      | inr inactive ↦ rw (created, inactive) refl
    ]
  ]

  executed-bound :
      (creates : Bool) (m : Message) (w : World S)
      → Bounded m.gas_limit (
          if creates
          then execute_create rules lib sm run m w
          else execute_call rules lib sm run m w)
  executed-bound true m w = create-bound m w
  executed-bound false m w = call-bound m w

  -- Where the precompiles use at most the gas that they are given, a message uses at most its gas limit, also
  -- where it fails and with the fee for the code of a contract, and its result says the same.
  pub execute_message-gas :
      (m : Message) (w z : World S) (r : EvmResult)
      → execute_message rules lib sm run m w ≡ ok (r, z)
      → (r.gas_used ≤ m.gas_limit) × (r.exec_result.gas_used ≡ r.gas_used)
  unfolding execute_message
  execute_message-gas m w z r done =
      let (message, warmed) = warm rules lib sm run m w in
      subst (Bounded m.gas_limit) done (
        concluded-bound m.gas_limit w.refund _ (
          subst
            (λ limit. Bounded limit (
              if is_none message.to
              then execute_create rules lib sm run message (enter sm warmed)
              else execute_call rules lib sm run message (enter sm warmed)))
            (warm-gas m w) (executed-bound (is_none message.to) message (enter sm warmed))))
