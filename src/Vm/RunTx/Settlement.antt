-- ===== src/Vm/RunTx/Settlement.antt =====
-- Who pays and who gets what in packages/vm/src/runTx.ts.
use native.Mathlib.Nat.{mul-add, mul-le-mul_right}
use moola_fix.Common.{
  ℕ, ◌+◌, ◌-◌, ◌*◌, ◌≤◌, ◌≡◌, ◌≢◌, refl, ap, ◌∙◌, inl, inr, true, false, not, ◌&&◌, ok-injective,
  >>=-eq-ok, throw_if, ◌>>◌, throw_if-skips, ok, ltb, ◌==◌, if◌then◌else◌, arith, Bool-cases,
  ==_iff, ==_false, ==_refl, subst,
}
use moola_fix.Vm.RunTx.{
  GasRules, TxFee, priced, fee_market, Tx, base_fee_exceeds_limit, fee_below_base_fee,
  sender_has_code, upfront_cost_exceeds_balance, max_cost_exceeds_balance, wrong_nonce,
  is_fee_market, TxState, max_fee_per_gas, inclusion_fee, effective_gas_price, get_base_fee,
  get_upfront_cost, check_tx, buy_gas, Executed, empty_account, clean_up, total_gas, Settled,
  settle, run_tx,
}
use moola_fix.Vm.RunTx.CleanUp.{has, clean_up_lem}

-- What the checks give: the limit covers the base fee, the balance covers the gas, and a unit of gas is
-- worth the base fee.
record IsPayable (rules : GasRules) (base_fee caller : ℕ) (tx : Tx) (state : TxState) : Type 0 where
  limit : get_base_fee rules tx ≤ tx.gas_limit
  covered : tx.gas_limit * effective_gas_price tx.fee base_fee ≤ (state caller).balance
  worth : rules.eip1559 ≡ true → base_fee ≤ max_fee_per_gas tx.fee

check_tx-IsPayable :
    (rules : GasRules) (base_fee caller : ℕ) (tx : Tx) (state : TxState)
    → check_tx rules base_fee caller tx state ≡ ok tt
    → IsPayable rules base_fee caller tx state
unfolding check_tx get_upfront_cost
check_tx-IsPayable rules base_fee caller tx state h =
    let sender = state caller in
    let c5 = throw_if (not (sender.account_nonce == tx.nonce)) wrong_nonce in
    let c4 =
      throw_if
        (is_fee_market tx.fee
          && ltb sender.balance (tx.gas_limit * max_fee_per_gas tx.fee + tx.value))
        max_cost_exceeds_balance
      >> c5 in
    let c3 =
      throw_if (ltb sender.balance (get_upfront_cost tx base_fee)) upfront_cost_exceeds_balance
      >> c4 in
    let c2 = throw_if (rules.eip3607 && sender.has_code) sender_has_code >> c3 in
    let c1 =
      throw_if (rules.eip1559 && ltb (max_fee_per_gas tx.fee) base_fee) fee_below_base_fee >> c2 in
    let (limit, h1) =
      throw_if-skips (ltb tx.gas_limit (get_base_fee rules tx)) base_fee_exceeds_limit c1 h in
    let (worth, h2) =
      throw_if-skips (rules.eip1559 && ltb (max_fee_per_gas tx.fee) base_fee) fee_below_base_fee c2
        h1 in
    let (_, h3) = throw_if-skips (rules.eip3607 && sender.has_code) sender_has_code c3 h2 in
    let (funded, _) =
      throw_if-skips (ltb sender.balance (get_upfront_cost tx base_fee))
        upfront_cost_exceeds_balance c4 h3 in
    record {
      limit = ground (arith, limit);
      covered =
          funded_enough sender.balance (tx.gas_limit * effective_gas_price tx.fee base_fee) tx.value
            funded;
      worth = λ active. ground (arith, worth, active);
    }
  where
    funded_enough : (balance gas value : ℕ) → ltb balance (gas + value) ≡ false → gas ≤ balance
    funded_enough balance gas value h = ground (arith, h)

price_bounds :
    (fee : TxFee) (base_fee : ℕ)
    → base_fee ≤ max_fee_per_gas fee
    → (effective_gas_price fee base_fee ≡ inclusion_fee fee base_fee + base_fee)
      × (effective_gas_price fee base_fee ≤ max_fee_per_gas fee)
price_bounds (priced p) base_fee h = (omega arith, omega arith)
price_bounds (fee_market max_fee max_priority) base_fee h = (refl, ground arith)

total_gas_bound :
    (rules : GasRules) (tx : Tx) (executed : Executed)
    → get_base_fee rules tx ≤ tx.gas_limit
    → executed.message_gas ≤ tx.gas_limit - get_base_fee rules tx
    → total_gas rules tx executed ≤ tx.gas_limit
unfolding total_gas
total_gas_bound rules tx executed limit used = ground (arith, limit, used)

-- The accounts behind a transaction that has used an amount of gas at a price, where the EVM left `state`:
-- the sender has paid the gas used of the gas limit that was bought, the miner has the price less the base
-- fee, and the other accounts stay.
abbrev pub IsSettled : ℕ → ℕ → ℕ → ℕ → ℕ → TxState → Settled → Type 0
IsSettled base_fee caller miner gas_limit price state settled =
    (settled.gas_used ≤ gas_limit)
    × ((settled.final caller).balance + settled.gas_used * price
        ≡ (state caller).balance + gas_limit * price)
    × ((settled.final miner).balance + settled.gas_used * base_fee
        ≡ (state miner).balance + settled.gas_used * price)
    × ((a : ℕ)
        → settled.final a ≡ (
            if a == caller
            then settled.final caller
            else if a == miner
            then settled.final miner
            else state a))

-- States that agree but for two accounts.
others_stay :
    (f g : TxState) (c m : ℕ)
    → ((a : ℕ) → (a == c) ≡ false → (a == m) ≡ false → f a ≡ g a)
    → (a : ℕ) → f a ≡ (if a == c then f c else if a == m then f m else g a)
others_stay f g c m agree a = elim (Bool-cases (a == c)) [
  | inl is_c ↦ rw is_c (ap f ((==_iff a c).0 is_c))
  | inr no_c ↦ elim (Bool-cases (a == m)) [
    | inl is_m ↦ rw (no_c, is_m) (ap f ((==_iff a m).0 is_m))
    | inr no_m ↦ rw (no_c, no_m) (agree a no_c no_m)
  ]
]

settle-IsSettled :
    (rules : GasRules) (base_fee caller miner : ℕ) (tx : Tx) (executed : Executed)
    → rules.eip1559 ≡ true
    → caller ≢ miner
    → base_fee ≤ max_fee_per_gas tx.fee
    → total_gas rules tx executed ≤ tx.gas_limit
    → IsSettled base_fee caller miner tx.gas_limit
        (effective_gas_price tx.fee base_fee)
        executed.state
        (settle rules base_fee caller miner tx executed)
unfolding settle
settle-IsSettled rules base_fee caller miner tx executed active other worth bound =
    let price = effective_gas_price tx.fee base_fee in
    let used = total_gas rules tx executed in
    let inclusion = inclusion_fee tx.fee base_fee in
    let (splits, _) = price_bounds tx.fee base_fee worth in
    let spent : used * price ≡ used * inclusion + used * base_fee =
      ap (λ (p : ℕ). used * p) splits ∙ mul-add used inclusion base_fee in
    let no_more : used * price ≤ tx.gas_limit * price = mul-le-mul_right price bound in
    let apart : (caller == miner) ≡ false = (==_false caller miner).1 other in
    let apart' : (miner == caller) ≡ false = ground (arith, apart) in
    let at_caller : (caller == caller) ≡ true = ==_refl caller in
    let at_miner : (miner == miner) ≡ true = ==_refl miner in
    (
      bound,
      rw (apart, at_caller) (omega arith),
      rw (apart', at_miner, active) (omega arith),
      others_stay (settle rules base_fee caller miner tx executed).final executed.state caller miner
          (λ a no_caller no_miner. rw (no_miner, no_caller) refl),
    )

-- The accounts that a transaction leaves: those that have self-destructed are empty, the others are those of
-- a state in which the gas is settled.
abbrev pub IsEnded : ℕ → ℕ → ℕ → ℕ → ℕ → Executed → Settled → Type 0
IsEnded base_fee caller miner gas_limit price executed settled =
    (paid : TxState) × IsSettled base_fee caller miner gas_limit price executed.state
      (record settled { final = paid })
    × ((a : ℕ) → settled.final a ≡ (if has a executed.selfdestruct then empty_account else paid a))

-- Where `_runTx` returns, EIP 1559 is active, the EVM uses at most the gas of the message and the miner is not
-- the sender: the price of gas is between the base fee and the maximum of the transaction; before the
-- message the sender has paid it for the gas limit; and after it the gas used is at most the gas limit, the
-- accounts that have self-destructed are empty, and of the others the sender has paid the price for the
-- gas used alone, the miner has got the price less the base fee for it, and the rest are as the EVM left
-- them.
pub run_tx-IsEnded :
    (rules : GasRules) (base_fee caller miner : ℕ) (execute : ℕ → TxState → Executed) (tx : Tx)
    (state : TxState) (settled : Settled)
    → rules.eip1559 ≡ true
    → caller ≢ miner
    → ((gas : ℕ) (s : TxState) → (execute gas s).message_gas ≤ gas)
    → run_tx rules base_fee caller miner execute tx state ≡ ok settled
    → (price : ℕ) × (base_fee ≤ price)
      × (price ≤ max_fee_per_gas tx.fee)
      × ((buy_gas base_fee caller tx state caller).balance + tx.gas_limit * price
          ≡ (state caller).balance)
      × IsEnded base_fee caller miner tx.gas_limit price
          (execute (tx.gas_limit - get_base_fee rules tx) (buy_gas base_fee caller tx state))
          settled
unfolding run_tx buy_gas
run_tx-IsEnded rules base_fee caller miner execute tx state settled active other bounded h =
    let gas = tx.gas_limit - get_base_fee rules tx in
    let bought = buy_gas base_fee caller tx state in
    let executed = execute gas bought in
    let before = settle rules base_fee caller miner tx executed in
    let cleaned = record before { final = clean_up rules caller miner executed before.final } in
    let (_, checked, ended) =
      >>=-eq-ok (check_tx rules base_fee caller tx state) (λ _. ok cleaned) h in
    let payable = check_tx-IsPayable rules base_fee caller tx state checked in
    let worth = payable.worth active in
    let (splits, most) = price_bounds tx.fee base_fee worth in
    (
      effective_gas_price tx.fee base_fee,
      omega arith,
      most,
      rw (==_refl caller) (omega (arith, payable.covered)),
      subst
          (IsEnded base_fee caller miner tx.gas_limit (effective_gas_price tx.fee base_fee)
            executed)
          (ok-injective cleaned settled ended)
          (
            before.final,
            settle-IsSettled rules base_fee caller miner tx executed active other worth
                (total_gas_bound rules tx executed payable.limit (bounded gas bought)),
            clean_up_lem rules caller miner executed before.final,
          ),
    )
