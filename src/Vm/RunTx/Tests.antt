-- ===== src/Vm/RunTx/Tests.antt =====
-- A fee market transaction with refund, and its settlement.
use moola_fix.Common.{ℕ, ◌+◌, ◌-◌, ◌*◌, ◌≤◌, ◌≡◌, refl, true, false, [], ◌∷◌, ok, arith, min}
use moola_fix.Vm.RunTx.{
  GasRules, fee_market, Tx, TxState, Executed, Settled, run_tx, buy_gas, get_base_fee,
}
use moola_fix.Vm.RunTx.Settlement.{IsEnded, run_tx-IsEnded}

abbrev rules : GasRules
rules = record {
  tx = 21000;
  tx_creation = 32000;
  tx_data_zero = 4;
  tx_data_non_zero = 16;
  init_code_word_cost = 2;
  access_list_storage_key_cost = 1900;
  access_list_address_cost = 2400;
  max_refund_quotient = 5;
  homestead = true;
  spurious_dragon = true;
  eip1559 = true;
  eip3607 = true;
  eip3860 = false;
}

abbrev transfer : Tx
transfer = record {
  nonce = 0;
  gas_limit = 30000;
  value = 0;
  creates = false;
  payload = 0 ∷ 1 ∷ [];
  access_list = [];
  fee = fee_market 20 2;
}

abbrev state : TxState
state a = record { account_nonce = 0; balance = 1000000; has_code = false }

-- A message that uses at most 980 gas, refunds 100 and destroys account 5.
abbrev execute : ℕ → TxState → Executed
execute gas s = record {
  message_gas = min gas 980;
  gas_refund = 100;
  selfdestruct = 5 ∷ [];
  touched = 5 ∷ 7 ∷ [];
  state = s;
}

abbrev used : ℕ
used = 21900

base_fee_test : get_base_fee rules transfer ≡ 21020
unfolding get_base_fee
base_fee_test = refl

run_tx_test :
    (settled : Settled) × (run_tx rules 10 1 2 execute transfer state ≡ ok settled)
    × (settled.gas_used ≡ used)
    × ((settled.final 5).balance ≡ 0)
    × ((settled.final 2).balance ≡ 1000000 + used * 2)
unfolding run_tx get_base_fee
run_tx_test = (_, refl, refl, refl, refl)

run_tx-IsEnded_example :
    (price : ℕ) × (10 ≤ price)
    × (price ≤ 20)
    × ((buy_gas 10 1 transfer state 1).balance + 30000 * price ≡ 1000000)
    × IsEnded 10 1 2 30000 price
        (execute (30000 - get_base_fee rules transfer) (buy_gas 10 1 transfer state))
        (run_tx_test.0)
run_tx-IsEnded_example =
    run_tx-IsEnded rules 10 1 2 execute transfer state (run_tx_test.0) refl (omega arith)
      (λ gas s. omega arith) (run_tx_test.1)
