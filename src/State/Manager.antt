-- ===== src/State/Manager.antt =====
-- The state manager of packages/vm/src/state: cache.ts, and what baseStateManager.ts and stateManager.ts do
-- with accounts, code, storage and checkpoints. A trie of storage is known by its root; what it shows and
-- becomes is an argument, as are the hashes. The trie of accounts and its database are the maps that they
-- show, which a checkpoint saves (Trie.CheckpointDb). The original values of slots, which only prices
-- read, and the output for debugging are left out.
pub mod Checkpoints
use moola_fix.Common.{
  ℕ, Bool, true, false, Option, none, some, List, [], ◌∷◌, Result, ok, err, ◌==◌, if◌then◌else◌,
}
use moola_fix.Common.Assoc.{Assoc, lookup, insert}
use moola_fix.Util.Padding.{strip_zeros}
use moola_fix.State.TransientStorage.{Error, type_error}
use moola_fix.State.Warm.{
  Frame, mem, add_to_set, is_warmed_address, add_warmed_address, is_warmed_storage,
  add_warmed_storage, checkpoint_warm, commit_warm, revert_warm,
}
use moola_fix.Evm.Message.{Account, StateManager}

-- An entry of the cache, with its mark `modified`. The value of one that is marked `deleted` is always
-- `new Account()`, and it is always `virtual`.
pub data Entry : Type 0 where
  kept : Account → (modified : Bool) → Entry
  deleted : (modified : Bool) → Entry

-- What the trie of accounts and its database show: the accounts, and the codes under their hashes.
pub record Trie : Type 0 where
  pub accounts : ℕ → Option Account
  pub codes : Assoc (List ℕ)

-- What a checkpoint saves: the items of `_checkpoints` of the cache and of the database, and of
-- `_touchedStack`, which are pushed and popped together.
pub record Saved : Type 0 where
  pub cache : Assoc Entry
  pub trie : Trie
  pub touched : List ℕ

-- The last checkpoint stands first; `_checkpointCount` is their number. `accessed` is `_accessedStorage`.
pub record Manager : Type 0 where
  pub cache : Assoc Entry
  pub trie : Trie
  pub touched : List ℕ
  pub saved_states : List Saved
  pub storage_tries : Assoc ℕ
  pub accessed : List Frame

-- Hashes, and the tries of storage by their roots.
pub record Hashes : Type 0 where
  pub keccak256 : List ℕ → ℕ
  pub keccak256_null : ℕ
  pub empty_trie_root : ℕ
  pub trie_get : ℕ → ℕ → List ℕ
  pub trie_put : ℕ → ℕ → List ℕ → ℕ

-- `ripemdPrecompileAddress`
abbrev pub ripemd : ℕ
ripemd = 3

module _ (hashes : Hashes) where
  -- `new Account()`
  abbrev pub new_account : Account
  new_account = record {
    nonce = 0;
    balance = 0;
    code_hash = hashes.keccak256_null;
    storage_root = hashes.empty_trie_root;
  }

  abbrev pub value_of : Entry → Account
  value_of (kept account modified) = account
  value_of (deleted modified) = new_account

  -- `getOrLoad`: the cache, and behind it the trie. That an account of the trie is then cached too changes
  -- no answer.
  unfoldable pub account_in : Assoc Entry → Trie → ℕ → Account
  account_in cache trie address = elim (lookup address cache) [
    | some entry ↦ value_of entry
    | none ↦ elim (trie.accounts address) [ some account ↦ account | none ↦ new_account ]
  ]

  -- The marks that `flush` leaves.
  abbrev pub flushed : Entry → Entry
  flushed (kept account modified) = kept account false
  flushed (deleted modified) = deleted false

  unfoldable pub flush_cache : Assoc Entry → Assoc Entry
  flush_cache [] = []
  flush_cache ((address, entry) ∷ cache) = (address, flushed entry) ∷ flush_cache cache

  abbrev pub written_account : ℕ → Option Account → (ℕ → Option Account) → ℕ → Option Account
  written_account address account accounts a = if a == address then account else accounts a

  -- What the loop of `flush` puts into the trie and deletes from it.
  abbrev pub flush_entry : ℕ → Entry → (ℕ → Option Account) → ℕ → Option Account
  flush_entry address (kept account true) accounts = written_account address (some account) accounts
  flush_entry address (deleted true) accounts = written_account address none accounts
  flush_entry address (kept account false) accounts = accounts
  flush_entry address (deleted false) accounts = accounts

  unfoldable pub flush_accounts : Assoc Entry → (ℕ → Option Account) → ℕ → Option Account
  flush_accounts [] accounts = accounts
  flush_accounts ((address, entry) ∷ cache) accounts =
      flush_accounts cache (flush_entry address entry accounts)

  unfoldable pub flush : Manager → Manager
  unfolding flush_cache flush_accounts
  flush m = record m {
    cache = flush_cache m.cache;
    trie = record m.trie { accounts = flush_accounts m.cache m.trie.accounts };
  }

  unfoldable pub get_account : ℕ → Manager → Account
  unfolding account_in
  get_account address m = account_in m.cache m.trie address

  unfoldable pub put_account : ℕ → Account → Manager → Manager
  put_account address account m = record m {
    cache = insert address (kept account true) m.cache;
    touched = add_to_set address m.touched;
  }

  unfoldable pub delete_account : ℕ → Manager → Manager
  delete_account address m = record m {
    cache = insert address (deleted true) m.cache;
    touched = add_to_set address m.touched;
  }

  unfoldable pub put_contract_code : ℕ → List ℕ → Manager → Manager
  unfolding put_account get_account
  put_contract_code address value m =
      let code_hash = hashes.keccak256 value in
      let stored = record m {
        trie = record m.trie { codes = insert code_hash value m.trie.codes };
      } in
      if code_hash == hashes.keccak256_null
      then m
      else put_account address (record (get_account address stored) { code_hash = code_hash })
          stored

  unfoldable pub get_contract_code : ℕ → Manager → List ℕ
  unfolding get_account
  get_contract_code address m =
      let code_hash = (get_account address m).code_hash in
      if code_hash == hashes.keccak256_null
      then []
      else elim (lookup code_hash m.trie.codes) [ some code ↦ code | none ↦ [] ]

  -- The root of `_getStorageTrie`.
  unfoldable pub storage_trie : ℕ → Manager → ℕ
  unfolding get_account
  storage_trie address m = elim (lookup address m.storage_tries) [
    | some root ↦ root
    | none ↦ (get_account address m).storage_root
  ]

  unfoldable pub get_contract_storage : ℕ → ℕ → Manager → List ℕ
  unfolding storage_trie
  get_contract_storage address key m = hashes.trie_get (storage_trie address m) key

  -- `_modifyContractStorage`, where the trie has the root `root` behind the change.
  unfoldable pub modify_contract_storage : ℕ → ℕ → Manager → Manager
  unfolding put_account get_account
  modify_contract_storage address root m =
      put_account address (record (get_account address m) { storage_root = root })
        (record m { storage_tries = insert address root m.storage_tries })

  -- An empty value, behind the removal of leading zeros, deletes the slot.
  unfoldable pub put_contract_storage : ℕ → ℕ → List ℕ → Manager → Manager
  unfolding modify_contract_storage storage_trie
  put_contract_storage address key value m =
      modify_contract_storage address
        (hashes.trie_put (storage_trie address m) key (strip_zeros value)) m

  unfoldable pub clear_contract_storage : ℕ → Manager → Manager
  unfolding modify_contract_storage
  clear_contract_storage address m = modify_contract_storage address hashes.empty_trie_root m

  unfoldable pub checkpoint : Manager → Manager
  checkpoint m = record m {
    saved_states = record { cache = m.cache; trie = m.trie; touched = m.touched } ∷ m.saved_states;
    accessed = checkpoint_warm m.accessed;
  }

  -- The cache is flushed where no checkpoint is left.
  abbrev pub flush_last : Manager → List Saved → Manager
  flush_last m [] = flush m
  flush_last m (_ ∷ _) = m

  -- `commit` and `revert` throw in the trie where there is no checkpoint.
  unfoldable pub commit : Manager → Result Error Manager
  unfolding flush
  commit m = elim m.saved_states [
    | [] ↦ err type_error
    | _ ∷ rest ↦
        ok (flush_last (record m { saved_states = rest; accessed = commit_warm m.accessed }) rest)
  ]

  unfoldable pub revert : Manager → Result Error Manager
  unfolding flush
  revert m = elim m.saved_states [
    | [] ↦ err type_error
    | before ∷ rest ↦ ok (
        flush_last
          (record m {
            cache = before.cache;
            trie = before.trie;
            touched =
                if mem ripemd m.touched then add_to_set ripemd before.touched else before.touched;
            saved_states = rest;
            storage_tries = [];
            accessed = revert_warm m.accessed;
          })
          rest)
  ]

  -- The operations that the EVM calls.
  abbrev pub default_state_manager : StateManager Manager
  default_state_manager = record {
    get_account = get_account;
    put_account = put_account;
    get_contract_code = get_contract_code;
    put_contract_code = put_contract_code;
    clear_contract_storage = clear_contract_storage;
    get_contract_storage = get_contract_storage;
    put_contract_storage = put_contract_storage;
    is_warmed_address = λ address m. is_warmed_address address m.accessed;
    is_warmed_storage = λ address slot m. is_warmed_storage address slot m.accessed;
    add_warmed_storage =
        λ address slot m. record m { accessed = add_warmed_storage address slot m.accessed };
    add_warmed_address = λ address m. record m { accessed = add_warmed_address address m.accessed };
    checkpoint = checkpoint;
    commit = commit;
    revert = revert;
  }
