-- ===== src/State/Manager/Checkpoints.antt =====
-- The checkpoints of the state manager of packages/vm/src/state: a revert gives the accounts back.
use moola_fix.Common.{
  ℕ, ◌≡◌, refl, ◌∙◌, inl, inr, true, false, Option, List, [], ◌∷◌, ok, ◌==◌, if◌then◌else◌,
  Bool-cases, arith,
}
use moola_fix.Common.Assoc.{Assoc, has, lookup-insert}
use moola_fix.Evm.Message.{Account}
use moola_fix.Evm.Message.Frames.{IsStateManager}
use moola_fix.State.Warm.{mem, add_to_set, commit_warm, revert_warm}
use moola_fix.State.Manager.{
  ripemd, Entry, kept, deleted, Trie, Saved, Manager, Hashes, value_of, account_in, flushed,
  flush_cache, flush_entry, flush_accounts, flush, get_account, put_account, put_contract_code,
  put_contract_storage, clear_contract_storage, modify_contract_storage, checkpoint, flush_last,
  commit, revert, default_state_manager,
}

module _ (hashes : Hashes) where
  abbrev pub Accounts : Type 0
  Accounts = ℕ → Account

  -- The accounts that the manager shows, and those that it showed at the open checkpoints.
  abbrev pub accounts_of : Manager → Accounts
  accounts_of m a = get_account hashes a m

  abbrev pub accounts_at : Saved → Accounts
  accounts_at s = account_in hashes s.cache s.trie

  abbrev pub saved_of : List Saved → List Accounts
  saved_of [] = []
  saved_of (s ∷ states) = accounts_at s ∷ saved_of states

  abbrev pub saved_accounts : Manager → List Accounts
  saved_accounts m = saved_of m.saved_states

  value-flushed : (entry : Entry) → value_of hashes (flushed hashes entry) ≡ value_of hashes entry
  value-flushed (kept account modified) = refl
  value-flushed (deleted modified) = refl

  flush_entry-other :
      (k a : ℕ) (entry : Entry) (accounts : ℕ → Option Account)
      → (a == k) ≡ false
      → flush_entry hashes k entry accounts a ≡ accounts a
  flush_entry-other k a (kept account true) accounts h = rw h refl
  flush_entry-other k a (kept account false) accounts h = refl
  flush_entry-other k a (deleted true) accounts h = rw h refl
  flush_entry-other k a (deleted false) accounts h = refl

  -- An account that is not in the cache is not flushed.
  flush_accounts-missing :
      (cache : Assoc Entry) (accounts : ℕ → Option Account) (a : ℕ)
      → has a cache ≡ false
      → flush_accounts hashes cache accounts a ≡ accounts a
  unfolding flush_accounts
  flush_accounts-missing [] accounts a h = refl
  flush_accounts-missing ((k, entry) ∷ cache) accounts a h =
      let other : (a == k) ≡ false = ground (arith, h) in
      flush_accounts-missing cache (flush_entry hashes k entry accounts) a (ground (arith, h))
      ∙ flush_entry-other k a entry accounts other

  account_in-flush_cache :
      (cache : Assoc Entry) (trie trie' : Trie) (a : ℕ)
      → (has a cache ≡ false → trie'.accounts a ≡ trie.accounts a)
      → account_in hashes (flush_cache hashes cache) trie' a ≡ account_in hashes cache trie a
  unfolding account_in flush_cache
  account_in-flush_cache [] trie trie' a same = rw (same refl) refl
  account_in-flush_cache ((k, entry) ∷ cache) trie trie' a same = elim (Bool-cases (k == a)) [
    | inl here ↦ rw (here, account_in) (value-flushed entry)
    | inr other ↦
        rw (other, account_in) (account_in-flush_cache cache trie trie' a (λ h. same (rw other h)))
  ]

  -- What is flushed shows the same accounts.
  flush-accounts : (m : Manager) → accounts_of (flush hashes m) ≡ accounts_of m
  unfolding flush get_account
  flush-accounts m = λ i a.
      account_in-flush_cache m.cache m.trie
        (record m.trie { accounts = flush_accounts hashes m.cache m.trie.accounts }) a
        (flush_accounts-missing m.cache m.trie.accounts a) i

  flush_last-accounts :
      (m : Manager) (rest : List Saved)
      → (accounts_of (flush_last hashes m rest) ≡ accounts_of m)
        × (saved_accounts (flush_last hashes m rest) ≡ saved_accounts m)
  unfolding flush
  flush_last-accounts m [] = (flush-accounts m, refl)
  flush_last-accounts m (_ ∷ _) = (refl, refl)

  pub put-accounts :
      (a b : ℕ) (x : Account) (m : Manager)
      → get_account hashes b (put_account hashes a x m)
        ≡ (if b == a then x else get_account hashes b m)
  unfolding get_account put_account
  put-accounts a b x m =
      rw (lookup-insert a b (kept x true) m.cache, account_in)
        (elim (Bool-cases (a == b)) [
          | inl same ↦ let same' : (b == a) ≡ true = ground (arith, same) in rw (same, same') refl
          | inr other ↦
              let other' : (b == a) ≡ false = ground (arith, other) in rw (other, other') refl
        ])

  pub saved-put_code :
      (a : ℕ) (code : List ℕ) (m : Manager)
      → saved_accounts (put_contract_code hashes a code m) ≡ saved_accounts m
  unfolding put_contract_code
  saved-put_code a code m = elim (Bool-cases (hashes.keccak256 code == hashes.keccak256_null)) [
    | inl no_code ↦ rw no_code refl
    | inr some_code ↦ rw some_code refl
  ]

  -- A list of states that shows a list of accounts that is not empty.
  saved_of-head :
      (states : List Saved) (v : Accounts) (rest : List Accounts)
      → saved_of states ≡ v ∷ rest
      → (before : Saved) × (others : List Saved) × (states ≡ before ∷ others)
        × (accounts_at before ≡ v)
        × (saved_of others ≡ rest)
  saved_of-head [] v rest h = cc
  saved_of-head (before ∷ others) v rest h = (before, others, refl, cc, cc)

  pub manager-commits :
      (m : Manager) (v : Accounts) (rest : List Accounts)
      → saved_accounts m ≡ v ∷ rest
      → (m' : Manager) × (commit hashes m ≡ ok m')
        × (accounts_of m' ≡ accounts_of m)
        × (saved_accounts m' ≡ rest)
  unfolding commit get_account
  manager-commits m v rest h =
      let (before, others, states, _, below) = saved_of-head m.saved_states v rest h in
      let m' = record m { saved_states = others; accessed = commit_warm m.accessed } in
      let (same, kept_states) = flush_last-accounts m' others in
      (flush_last hashes m' others, rw states refl, same, kept_states ∙ below)

  pub manager-reverts :
      (m : Manager) (v : Accounts) (rest : List Accounts)
      → saved_accounts m ≡ v ∷ rest
      → (m' : Manager) × (revert hashes m ≡ ok m')
        × (accounts_of m' ≡ v)
        × (saved_accounts m' ≡ rest)
  unfolding revert get_account
  manager-reverts m v rest h =
      let (before, others, states, shown, below) = saved_of-head m.saved_states v rest h in
      let m' = record m {
        cache = before.cache;
        trie = before.trie;
        touched = if mem ripemd m.touched then add_to_set ripemd before.touched else before.touched;
        saved_states = others;
        storage_tries = [];
        accessed = revert_warm m.accessed;
      } in
      let (same, kept_states) = flush_last-accounts m' others in
      (flush_last hashes m' others, rw states refl, same ∙ shown, kept_states ∙ below)

  -- The checkpoints of the state manager are those of a map of accounts with saved maps.
  unfoldable pub state_manager_laws : IsStateManager (default_state_manager hashes) Accounts
  unfolding get_account checkpoint put_contract_storage clear_contract_storage
      modify_contract_storage put_account
  state_manager_laws = record {
    view = accounts_of;
    saved = saved_accounts;
    account_of = λ v a. v a;
    reads = λ a m. refl;
    account_of-put = λ a b x m. put-accounts a b x m;
    saved-put = λ a x m. refl;
    saved-put_code = saved-put_code;
    saved-put_storage = λ a key value m. refl;
    saved-clear = λ a m. refl;
    saved-warm = λ a m. refl;
    saved-warm_slot = λ a slot m. refl;
    saved-checkpoint = λ m. refl;
    commits = manager-commits;
    reverts = manager-reverts;
  }
