-- ===== src/Evm/Message/Tests.antt =====
-- Messages on a small state manager, and the theorems at these inputs.
use moola_fix.Common.{
  ℕ, suc, ◌+◌, ◌≤◌, ◌≡◌, refl, true, false, none, some, List, [], ◌∷◌, Result, ok, err, ◌==◌,
  if◌then◌else◌, arith, get_or, leb, not, ◌||◌,
}
use moola_fix.Evm.Error.{revert, invalid_eof_format}
use moola_fix.State.TransientStorage as T
use moola_fix.State.TransientStorage.{new_transient_storage, type_error}
use moola_fix.Evm.Message.{
  Account, StateManager, World, Message, EvmResult, ExecResult, Env, Rules, Library, no_result,
}
use moola_fix.Evm.Eof.{code_analysis}
use moola_fix.Evm.Message.Deposit.{deposit_accepts}
use moola_fix.Evm.Message.Create.{deposit}
use moola_fix.Evm.Message.Execute.{execute_message}
use moola_fix.Evm.Message.Gas.{execute_message-gas}
use moola_fix.Evm.Message.Requests.{
  Script, finish, reverts, use_gas, calls, transient_store, storage_store, call,
}
use moola_fix.Evm.Message.Eei.{run_script}
use moola_fix.Evm.Message.Depth.{runners, run_message}
use moola_fix.State.Manager as M
use moola_fix.State.Manager.{
  Manager, Hashes, account_in, flush_cache, flush_accounts, flush, get_account, put_account,
  put_contract_code, get_contract_code, storage_trie, get_contract_storage, modify_contract_storage,
  put_contract_storage, clear_contract_storage, checkpoint, commit, default_state_manager,
}
use moola_fix.State.Warm.{
  add_warmed_address, checkpoint_warm, commit_warm, revert_warm, merge, merge_slots,
}
use moola_fix.Util.Padding.{strip_zeros}

-- The hash of a code is its first byte, and a trie of storage has one value.
abbrev hashes : Hashes
hashes = record {
  keccak256 = λ code. get_or code 0 0;
  keccak256_null = 0;
  empty_trie_root = 0;
  trie_get = λ root key. root ∷ [];
  trie_put = λ root key value. get_or value 0 0;
}

abbrev manager_ops : StateManager Manager
manager_ops = default_state_manager hashes

abbrev rules : Rules
rules = record {
  homestead = true;
  spurious_dragon = true;
  eip2929 = true;
  eip3540 = true;
  eip3541 = true;
  eip3670 = false;
  eip3860 = false;
  stack_limit = 3;
  max_code_size = 24;
  max_init_code_size = 48;
  create_data = 2;
  selfdestruct_refund = 0;
  allow_unlimited_contract_size = false;
}

abbrev library : Library
library = record {
  generate_address = λ a n. a + 100 + n;
  generate_address2 = λ a salt code. a + 200 + salt;
  keccak256_null = 0;
  negative_balance = λ n. n;
  has_handler = λ op. true;
  has_precompile = λ a. false;
}

abbrev no_precompile : ℕ → List ℕ → ℕ → World Manager → ExecResult × World Manager
no_precompile a bytes gas w = (no_result, w)

-- Code 7 writes to the transient storage, calls account 3 and reverts; code 9 writes to its storage; code 5
-- calls itself for ever.
abbrev script : Env → Script
script env =
    let code = get_or env.code 0 0 in
    if code == 7
    then use_gas 10 (
        transient_store 5 (1 ∷ []) (omega arith)
          (calls call 50 3 4 [] (λ answer returned. reverts (answer ∷ []))))
    else if code == 5
    then calls call 50 env.address 0 [] (λ answer returned. finish (answer ∷ []))
    else storage_store 0 (6 ∷ []) (finish (1 ∷ []))

abbrev account : ℕ → ℕ → Account
account balance code_hash = record {
  nonce = 1;
  balance = balance;
  code_hash = code_hash;
  storage_root = 0;
}

abbrev accounts : ℕ → Account
accounts a =
    if a == 1
    then account 100 0
    else if a == 2
    then account 10 7
    else if a == 3
    then account 0 9
    else if a == 4
    then account 0 5
    else account 0 0

abbrev before : World Manager
before = record {
  manager = record {
    cache = [];
    trie = record {
      accounts = λ a. some (accounts a);
      codes = (7, 7 ∷ []) ∷ (9, 9 ∷ []) ∷ (5, 5 ∷ []) ∷ [];
    };
    touched = [];
    saved_states = [];
    storage_tries = [];
    accessed = [] ∷ [];
  };
  transient = new_transient_storage;
  refund = 3;
}

abbrev message_to : ℕ → ℕ → Message
message_to to value = record {
  to = some to;
  value = value;
  caller = 1;
  gas_limit = 100;
  call_data = [];
  depth = 0;
  code = none;
  own_code_address = none;
  is_static = false;
  is_compiled = false;
  salt = none;
  selfdestruct = [];
  delegatecall = false;
}

abbrev nothing : EvmResult
nothing = record { gas_used = 0; created_address = none; exec_result = no_result; shared = [] }

abbrev value_or : Result T.Error (EvmResult × World Manager) → EvmResult × World Manager
value_or (ok p) = p
value_or (err e) = (nothing, before)

executed : ℕ → ℕ → EvmResult × World Manager
unfolding run_message runners execute_message run_script new_transient_storage T.checkpoint T.put
    T.revert T.commit T.undo_all T.undo get_account account_in put_account put_contract_code
    get_contract_code storage_trie get_contract_storage modify_contract_storage put_contract_storage
    clear_contract_storage checkpoint commit M.revert flush flush_cache flush_accounts strip_zeros
    add_warmed_address checkpoint_warm commit_warm revert_warm merge merge_slots
executed to value =
    value_or
      (run_message rules library manager_ops script no_precompile (message_to to value) before)

reverted_gas_test : (executed 2 20).0.gas_used ≡ 10
unfolding executed
reverted_gas_test = refl

called_test :
    get_account hashes 3 (executed 3 20).1.manager ≡ record (account 20 9) { storage_root = 6 }
unfolding executed
called_test = refl

-- The call at the depth of the limit is not made, and answers 0.
deep_test : (executed 4 0).0.exec_result.return_value ≡ 1 ∷ []
unfolding executed
deep_test = refl

no_precompile_frugal :
    (levels a : ℕ) (bytes : List ℕ) (gas : ℕ) (w : World Manager)
    → ((runners rules library manager_ops script no_precompile (suc levels)).run_precompile a bytes
        gas w).0.gas_used
      ≤ gas
unfolding runners
no_precompile_frugal levels a bytes gas w = omega arith

reverted' :
    execute_message rules library manager_ops
      (runners rules library manager_ops script no_precompile 4)
      (message_to 2 20)
      before
    ≡ ok (executed 2 20)
unfolding executed
reverted' = refl

execute_message-gas_example :
    ((executed 2 20).0.gas_used ≤ 100)
    × ((executed 2 20).0.exec_result.gas_used ≡ (executed 2 20).0.gas_used)
execute_message-gas_example =
    execute_message-gas rules library manager_ops
      (runners rules library manager_ops script no_precompile 4) (no_precompile_frugal 3)
      (message_to 2 20) before (executed 2 20).1 (executed 2 20).0 reverted'

-- A creation that reverts with data that starts with 0xef gives no gas back and loses the data.
revert_with_ef_test :
    (deposit rules library.has_handler 100 (record no_result {
      exception_error = some revert;
      gas_used = 10;
      return_value = 0xef ∷ [];
    })).0
    ≡ record no_result { exception_error = some invalid_eof_format; gas_used = 100 }
unfolding deposit code_analysis
revert_with_ef_test = refl

-- An EOF container that is accepted where its opcodes are not checked is stored without the fee for its code.
free_container_test :
    (deposit rules library.has_handler 100 (record no_result {
      gas_used = 10;
      return_value = 0xef ∷ 0x00 ∷ 0x01 ∷ 0x01 ∷ 0x00 ∷ 0x01 ∷ 0x00 ∷ 0x00 ∷ [];
    })).0.gas_used
    ≡ 10
unfolding deposit code_analysis
free_container_test = refl

abbrev plain_code : ExecResult
plain_code = record no_result { gas_used = 10; return_value = 0x60 ∷ [] }

plain_code_accepted : (deposit rules library.has_handler 100 plain_code).0.exception_error ≡ none
unfolding deposit
plain_code_accepted = refl

deposit_accepts_example :
    ((deposit rules library.has_handler 100 plain_code).0.return_value ≡ 0x60 ∷ [])
    × (10 + 2 ≤ 100)
    × ((rules.allow_unlimited_contract_size
          || not rules.spurious_dragon
          || leb 1 rules.max_code_size)
        ≡ true)
    × ((deposit rules library.has_handler 100 plain_code).0.gas_used ≡ 12)
deposit_accepts_example =
    deposit_accepts rules library.has_handler 100 plain_code refl plain_code_accepted
