-- ===== src/Vm/RunTx/CleanUp.antt =====
-- The clean-up of the accounts in packages/vm/src/runTx.ts.
use moola_fix.Common.{
  ℕ, ◌≡◌, refl, sym, ap, Bool, ◌||◌, List, [], ◌∷◌, ◌++◌, ◌∙◌, inl, inr, true, false, ◌==◌,
  if◌then◌else◌, arith, Bool-cases, ==_iff,
}
use moola_fix.Vm.RunTx.{
  GasRules, TxState, Executed, TxAccount, write_account, empty_account, is_empty_account,
  delete_accounts, delete_empty, clean_up,
}

-- Whether a list has an address.
abbrev pub has : ℕ → List ℕ → Bool
has a [] = false
has a (b ∷ addresses) = a == b || has a addresses

delete_accounts_lem :
    (addresses : List ℕ) (state : TxState) (a : ℕ)
    → delete_accounts addresses state a ≡ (if has a addresses then empty_account else state a)
unfolding delete_accounts
delete_accounts_lem [] state a = refl
delete_accounts_lem (b ∷ addresses) state a =
    delete_accounts_lem addresses (write_account b empty_account state) a
    ∙ (elim (Bool-cases (a == b)) [
      | inl same ↦ elim (Bool-cases (has a addresses)) [
        | inl more ↦ rw (same, more) refl
        | inr no_more ↦ rw (same, no_more) refl
      ]
      | inr other ↦ rw other refl
    ])

is_empty-eq : (x : TxAccount) → is_empty_account x ≡ true → x ≡ empty_account
is_empty-eq x h =
    let no_balance : x.balance ≡ 0 = ground (arith, h) in
    let no_nonce : x.account_nonce ≡ 0 = ground (arith, h) in
    let no_code : x.has_code ≡ false = ground (arith, h) in
    λ i. record { account_nonce = no_nonce i; balance = no_balance i; has_code = no_code i }

-- What is deleted because it is empty shows as before.
delete_empty_lem :
    (addresses : List ℕ) (state : TxState) (a : ℕ) → delete_empty addresses state a ≡ state a
unfolding delete_empty
delete_empty_lem [] state a = refl
delete_empty_lem (b ∷ addresses) state a =
    delete_empty_lem addresses _ a ∙ (elim (Bool-cases (is_empty_account (state b))) [
      | inr kept ↦ rw kept refl
      | inl empty ↦ elim (Bool-cases (a == b)) [
        | inr other ↦ rw (empty, other) refl
        | inl same ↦
            rw (empty, same)
              (sym (is_empty-eq (state b) empty) ∙ ap state (sym ((==_iff a b).0 same)))
      ]
    ])

pub clean_up_lem :
    (rules : GasRules) (caller miner : ℕ) (executed : Executed) (state : TxState) (a : ℕ)
    → clean_up rules caller miner executed state a
      ≡ (if has a executed.selfdestruct then empty_account else state a)
unfolding clean_up
clean_up_lem rules caller miner executed state a = elim (Bool-cases rules.spurious_dragon) [
  | inl active ↦ rw active (
      delete_empty_lem (executed.touched ++ caller ∷ miner ∷ executed.selfdestruct)
        (delete_accounts executed.selfdestruct state) a
      ∙ delete_accounts_lem executed.selfdestruct state a)
  | inr frontier ↦ rw frontier (delete_accounts_lem executed.selfdestruct state a)
]
