-- ===== src/Evm/Message.antt =====
-- packages/vm/src/evm/message.ts, and what the execution of a message works on: the accounts behind
-- the state manager, the transient storage and the refund counter of packages/vm/src/evm/evm.ts.
pub mod Create
pub mod Checkpoints
pub mod Execute
pub mod Frames
pub mod Balanced
pub mod Atomic
pub mod Requests
pub mod Eei
pub mod Depth
pub mod Accounts
pub mod Gas
pub mod Deposit
mod Tests
use moola_fix.Common.{
  ℕ, zero, suc, ◌+◌, ◌-◌, Bool, true, false, not, ◌&&◌, ◌||◌, Option, none, some, List, [], ◌∷◌,
  Result, ok, err, ◌>>=◌, length, ltb, leb, ◌==◌, if◌then◌else◌,
}
use moola_fix.Common.Assoc.{Assoc}
use moola_fix.Evm.Error.{VmError}
use moola_fix.State.TransientStorage.{TransientStorage, Error}

pub record Account : Type 0 where
  pub nonce : ℕ
  pub balance : ℕ
  pub code_hash : ℕ
  pub storage_root : ℕ

-- The operations of the state manager that the execution of a message calls, on its state `S`.
pub record StateManager (S : Type 0) : Type 0 where
  pub get_account : ℕ → S → Account
  pub put_account : ℕ → Account → S → S
  pub get_contract_code : ℕ → S → List ℕ
  pub put_contract_code : ℕ → List ℕ → S → S
  pub clear_contract_storage : ℕ → S → S
  pub get_contract_storage : ℕ → ℕ → S → List ℕ
  pub put_contract_storage : ℕ → ℕ → List ℕ → S → S
  pub is_warmed_address : ℕ → S → Bool
  pub add_warmed_address : ℕ → S → S
  pub is_warmed_storage : ℕ → ℕ → S → Bool
  pub add_warmed_storage : ℕ → ℕ → S → S
  pub checkpoint : S → S
  pub commit : S → Result Error S
  pub revert : S → Result Error S

-- What is `_state`, `_transientStorage` and `_refund` of the EVM.
pub record World (S : Type 0) : Type 0 where
  pub manager : S
  pub transient : TransientStorage
  pub refund : ℕ

-- `Buffer | PrecompileFunc`; a precompile is known by its address.
pub data Code : Type 0 where
  bytecode : List ℕ → Code
  precompile : ℕ → Code

pub record Message : Type 0 where
  pub to : Option ℕ
  pub value : ℕ
  pub caller : ℕ
  pub gas_limit : ℕ
  pub call_data : List ℕ
  pub depth : ℕ
  pub code : Option Code
  pub own_code_address : Option ℕ
  pub is_static : Bool
  pub is_compiled : Bool
  pub salt : Option ℕ
  pub selfdestruct : Assoc ℕ
  pub delegatecall : Bool

abbrev pub or_zero : Option ℕ → ℕ
or_zero none = 0
or_zero (some a) = a

-- The getter `codeAddress`.
abbrev pub code_address : Message → ℕ
code_address message = elim message.own_code_address [ none ↦ or_zero message.to | some a ↦ a ]

pub record Log : Type 0 where
  pub address : ℕ
  pub topics : List (List ℕ)
  pub log_data : List ℕ

-- Logs and self-destructs that are `undefined` are empty here.
pub record ExecResult : Type 0 where
  pub exception_error : Option VmError
  pub gas_used : ℕ
  pub return_value : List ℕ
  pub logs : List Log
  pub selfdestruct : Assoc ℕ
  pub gas_refund : ℕ

-- `shared` is what the map of self-destructs that the message carries holds at the end: the code that
-- runs writes to it.
pub record EvmResult : Type 0 where
  pub gas_used : ℕ
  pub created_address : Option ℕ
  pub exec_result : ExecResult
  pub shared : Assoc ℕ

-- The environment of the code, as far as a message sets it.
pub record Env : Type 0 where
  pub address : ℕ
  pub caller : ℕ
  pub call_data : List ℕ
  pub call_value : ℕ
  pub code : List ℕ
  pub is_static : Bool
  pub depth : ℕ
  pub contract : Account
  pub code_address : ℕ

-- What the EEI holds when the interpreter ends.
pub record Interpreted : Type 0 where
  pub exception_error : Option VmError
  pub gas_left : ℕ
  pub logs : List Log
  pub return_value : List ℕ
  pub selfdestruct : Assoc ℕ

-- Which rules are active, and the parameters.
pub record Rules : Type 0 where
  pub homestead : Bool
  pub spurious_dragon : Bool
  pub eip2929 : Bool
  pub eip3540 : Bool
  pub eip3541 : Bool
  pub eip3670 : Bool
  pub eip3860 : Bool
  pub stack_limit : ℕ
  pub max_code_size : ℕ
  pub max_init_code_size : ℕ
  pub create_data : ℕ
  pub selfdestruct_refund : ℕ
  pub allow_unlimited_contract_size : Bool

-- What the libraries compute: the addresses of contracts, the first from the nonce of the caller, from
-- which the code takes one; the hash of no code; the balance that is read back where a balance of `-n`
-- was stored; and which opcodes and precompiles there are.
pub record Library : Type 0 where
  pub generate_address : ℕ → ℕ → ℕ
  pub generate_address2 : ℕ → ℕ → List ℕ → ℕ
  pub keccak256_null : ℕ
  pub negative_balance : ℕ → ℕ
  pub has_handler : ℕ → Bool
  pub has_precompile : ℕ → Bool

-- The functions that run code; each is given the state and returns it.
pub record Runners (S : Type 0) : Type 0 where
  -- The code of a message, with its gas and its map of self-destructs.
  pub interpret : Env → ℕ → Assoc ℕ → World S → Result Error (Interpreted × World S)
  -- A precompile, with the data and the gas.
  pub run_precompile : ℕ → List ℕ → ℕ → World S → ExecResult × World S

abbrev pub no_result : ExecResult
no_result = record {
  exception_error = none;
  gas_used = 0;
  return_value = [];
  logs = [];
  selfdestruct = [];
  gas_refund = 0;
}
