-- ===== src/Evm/Message/Requests.antt =====
-- What a run asks of packages/vm/src/evm/eei.ts, and the messages that the EEI makes of it.
use moola_fix.Common.{
  ℕ, ◌+◌, ◌-◌, ◌^◌, ◌≤◌, Bool, true, false, Option, none, some, List, [], ◌∷◌, length,
}
use moola_fix.Common.Assoc.{Assoc, insert}
use moola_fix.Evm.Error.{VmError, revert, codestore_out_of_gas}
use moola_fix.Evm.Message.{Account, Message, Log, Env}

-- The fields of the EEI that change; the refund counter stands in the state.
pub record Eei : Type 0 where
  pub gas_left : ℕ
  pub logs : List Log
  pub selfdestruct : Assoc ℕ
  pub last_returned : List ℕ
  pub contract : Account

pub data CallKind : Type 0 where
  call call_code call_static call_delegate : CallKind

-- The requests of a run, of which it makes finitely many, with what follows each; `finish`, `reverts`, `traps` and `self_destruct` end it.
-- `get_gas_left`, `get_account` and `get_code` only ask; `access_address` and `access_storage` are the accesses
-- of EIP-2929, which tell whether the address or the slot was warm. A
-- value for the transient storage comes from a word, and has 32 bytes at most.
pub data Script : Type 0 where
  finish : List ℕ → Script
  reverts : List ℕ → Script
  traps : VmError → Script
  use_gas : ℕ → Script → Script
  refund_gas : ℕ → Script → Script
  sub_refund : ℕ → Script → Script
  add_stipend : ℕ → Script → Script
  get_gas_left : (ℕ → Script) → Script
  get_account : ℕ → (Account → Script) → Script
  get_code : ℕ → (List ℕ → Script) → Script
  access_address : ℕ → (Bool → Script) → Script
  access_storage : ℕ → (Bool → Script) → Script
  storage_store : ℕ → List ℕ → Script → Script
  storage_load : ℕ → (List ℕ → Script) → Script
  transient_store : (key : ℕ) (value : List ℕ) → length value ≤ 32 → Script → Script
  transient_load : ℕ → (List ℕ → Script) → Script
  log : List ℕ → List (List ℕ) → Script → Script
  self_destruct : ℕ → Script
  calls : CallKind → ℕ → ℕ → ℕ → List ℕ → (ℕ → List ℕ → Script) → Script
  creates : ℕ → ℕ → List ℕ → Option ℕ → (ℕ → List ℕ → Script) → Script

abbrev pub max_uint64 : ℕ
max_uint64 = 2 ^ 64 - 1

-- `Object.assign(target, source)`
unfoldable pub assign_all : Assoc ℕ → Assoc ℕ → Assoc ℕ
assign_all target [] = target
assign_all target ((k, v) ∷ source) = assign_all (insert k v target) source

-- The messages of `call`, `callCode`, `callStatic` and `callDelegate`.
unfoldable pub message_of : CallKind → Env → Eei → ℕ → ℕ → ℕ → List ℕ → Message
message_of kind env eei gas_limit address value call_data =
    let message : Message = record {
      to = some address;
      value = value;
      caller = env.address;
      gas_limit = gas_limit;
      call_data = call_data;
      depth = env.depth + 1;
      code = none;
      own_code_address = none;
      is_static = env.is_static;
      is_compiled = false;
      salt = none;
      selfdestruct = eei.selfdestruct;
      delegatecall = false;
    } in
    elim kind [
      | call ↦ message
      | call_code ↦ record message { to = some env.address; own_code_address = some address }
      | call_static ↦ record message { is_static = true }
      | call_delegate ↦ record message {
        caller = env.caller;
        to = some env.address;
        own_code_address = some address;
        delegatecall = true;
      }
    ]

-- The message of `create`.
unfoldable pub creation_of : Env → Eei → ℕ → ℕ → List ℕ → Option ℕ → Message
creation_of env eei gas_limit value call_data salt = record {
  to = none;
  value = value;
  caller = env.address;
  gas_limit = gas_limit;
  call_data = call_data;
  depth = env.depth + 1;
  code = none;
  own_code_address = none;
  is_static = false;
  is_compiled = false;
  salt = salt;
  selfdestruct = eei.selfdestruct;
  delegatecall = false;
}

abbrev pub is_revert : Option VmError → Bool
is_revert (some revert) = true
is_revert _ = false

abbrev pub is_codestore_error : Option VmError → Bool
is_codestore_error (some codestore_out_of_gas) = true
is_codestore_error _ = false
