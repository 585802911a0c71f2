-- ===== src/Vm/RunTx.antt =====
-- The gas of a transaction: what it needs, packages/tx/src, and how it is bought and settled,
-- packages/vm/src/runTx.ts with the options `skipBalance` and `skipNonce` off. The message that the EVM
-- executes is a parameter.
pub mod CleanUp
pub mod Settlement
mod Tests
use moola_fix.Common.{
  ℕ, ◌+◌, ◌-◌, ◌*◌, ◌/◌, min, Bool, true, false, not, ◌&&◌, List, [], ◌∷◌, ◌++◌, length, Result, ok,
  err, ◌>>=◌, ◌>>◌, throw_if, ltb, ◌==◌, if◌then◌else◌,
}

-- The gas parameters, and which rules are active.
pub record GasRules : Type 0 where
  pub tx : ℕ
  pub tx_creation : ℕ
  pub tx_data_zero : ℕ
  pub tx_data_non_zero : ℕ
  pub init_code_word_cost : ℕ
  pub access_list_storage_key_cost : ℕ
  pub access_list_address_cost : ℕ
  pub max_refund_quotient : ℕ
  pub homestead : Bool
  pub spurious_dragon : Bool
  pub eip1559 : Bool
  pub eip3607 : Bool
  pub eip3860 : Bool

-- The gas price of a transaction, or the fees of a fee market transaction.
pub data TxFee : Type 0 where
  priced : ℕ → TxFee
  fee_market : ℕ → ℕ → TxFee

-- The access list has the number of storage slots of each item.
pub record Tx : Type 0 where
  pub nonce : ℕ
  pub gas_limit : ℕ
  pub value : ℕ
  pub creates : Bool
  pub payload : List ℕ
  pub access_list : List ℕ
  pub fee : TxFee

pub data RunTxError : Type 0 where
  base_fee_exceeds_limit fee_below_base_fee sender_has_code : RunTxError
  upfront_cost_exceeds_balance max_cost_exceeds_balance wrong_nonce : RunTxError

pub record TxAccount : Type 0 where
  pub account_nonce : ℕ
  pub balance : ℕ
  pub has_code : Bool

abbrev pub TxState : Type 0
TxState = ℕ → TxAccount

abbrev pub write_account : ℕ → TxAccount → TxState → TxState
write_account address account state a = if a == address then account else state a

-- An account that is not there shows as the empty one, `new Account()`.
abbrev pub empty_account : TxAccount
empty_account = record { account_nonce = 0; balance = 0; has_code = false }

-- `isEmpty`
abbrev pub is_empty_account : TxAccount → Bool
is_empty_account account =
    account.balance == 0 && account.account_nonce == 0 && not account.has_code

-- The loop of `getDataFee`.
unfoldable pub bytes_fee : GasRules → List ℕ → ℕ
bytes_fee rules [] = 0
bytes_fee rules (b ∷ bytes) =
    (if b == 0 then rules.tx_data_zero else rules.tx_data_non_zero) + bytes_fee rules bytes

-- The loop of `getDataFeeEIP2930`, and what it costs.
unfoldable pub count_slots : List ℕ → ℕ
count_slots [] = 0
count_slots (storage_slots ∷ items) = storage_slots + count_slots items

unfoldable pub access_list_fee : GasRules → List ℕ → ℕ
unfolding count_slots
access_list_fee rules items =
    length items * rules.access_list_address_cost
    + count_slots items * rules.access_list_storage_key_cost

-- `getDataFee`; `Math.ceil` of a quotient by 32.
unfoldable pub get_data_fee : GasRules → Tx → ℕ
unfolding bytes_fee access_list_fee
get_data_fee rules tx =
    bytes_fee rules tx.payload
    + (if tx.creates && rules.eip3860
        then rules.init_code_word_cost * ((length tx.payload + 31) / 32)
        else 0)
    + access_list_fee rules tx.access_list

unfoldable pub get_base_fee : GasRules → Tx → ℕ
unfolding get_data_fee
get_base_fee rules tx =
    get_data_fee rules tx
    + rules.tx
    + (if rules.homestead && tx.creates then rules.tx_creation else 0)

-- The most that a unit of gas may cost, what goes to the miner of it, and what it costs. A difference
-- of fees stands behind the test that the maximum is not below the base fee.
abbrev pub max_fee_per_gas : TxFee → ℕ
max_fee_per_gas (priced gas_price) = gas_price
max_fee_per_gas (fee_market max_fee max_priority) = max_fee

abbrev pub inclusion_fee : TxFee → ℕ → ℕ
inclusion_fee (priced gas_price) base_fee = gas_price - base_fee
inclusion_fee (fee_market max_fee max_priority) base_fee = min max_priority (max_fee - base_fee)

abbrev pub effective_gas_price : TxFee → ℕ → ℕ
effective_gas_price (priced gas_price) base_fee = gas_price
effective_gas_price (fee_market max_fee max_priority) base_fee =
    min max_priority (max_fee - base_fee) + base_fee

unfoldable pub get_upfront_cost : Tx → ℕ → ℕ
get_upfront_cost tx base_fee = tx.gas_limit * effective_gas_price tx.fee base_fee + tx.value

abbrev pub is_fee_market : TxFee → Bool
is_fee_market (priced _) = false
is_fee_market (fee_market _ _) = true

-- The checks of `_runTx`, in its order.
unfoldable pub check_tx : GasRules → ℕ → ℕ → Tx → TxState → Result RunTxError (Unit {0})
unfolding get_base_fee get_upfront_cost
check_tx rules base_fee caller tx state = do
  throw_if (ltb tx.gas_limit (get_base_fee rules tx)) base_fee_exceeds_limit
  throw_if (rules.eip1559 && ltb (max_fee_per_gas tx.fee) base_fee) fee_below_base_fee
  throw_if (rules.eip3607 && (state caller).has_code) sender_has_code
  throw_if (ltb (state caller).balance (get_upfront_cost tx base_fee)) upfront_cost_exceeds_balance
  throw_if
      (is_fee_market tx.fee
        && ltb (state caller).balance (tx.gas_limit * max_fee_per_gas tx.fee + tx.value))
      max_cost_exceeds_balance
  throw_if (not ((state caller).account_nonce == tx.nonce)) wrong_nonce

-- The nonce and the balance of the sender before the message.
unfoldable pub buy_gas : ℕ → ℕ → Tx → TxState → TxState
buy_gas base_fee caller tx state =
    write_account caller
      (record (state caller) {
        account_nonce = (state caller).account_nonce + 1;
        balance = (state caller).balance - tx.gas_limit * effective_gas_price tx.fee base_fee;
      })
      state

-- What the EVM returns for a message: the gas used, the refund and the self-destructed accounts; and the
-- state that it leaves, with the accounts that it has touched.
pub record Executed : Type 0 where
  pub message_gas : ℕ
  pub gas_refund : ℕ
  pub selfdestruct : List ℕ
  pub touched : List ℕ
  pub state : TxState

-- The gas used behind the refund.
unfoldable pub total_gas : GasRules → Tx → Executed → ℕ
unfolding get_base_fee
total_gas rules tx executed =
    let used = executed.message_gas + get_base_fee rules tx in
    if executed.gas_refund == 0
    then used
    else used - min executed.gas_refund (used / rules.max_refund_quotient)

pub record Settled : Type 0 where
  pub gas_used : ℕ
  pub amount_spent : ℕ
  pub final : TxState

-- The sender gets back what was not used, and the miner the fee; the sum stands before the difference.
unfoldable pub settle : GasRules → ℕ → ℕ → ℕ → Tx → Executed → Settled
unfolding total_gas
settle rules base_fee caller miner tx executed =
    let gas_price = effective_gas_price tx.fee base_fee in
    let gas_used = total_gas rules tx executed in
    let amount_spent = gas_used * gas_price in
    let sender = executed.state caller in
    let refunded =
      write_account caller
        (record sender { balance = sender.balance + tx.gas_limit * gas_price - amount_spent })
        executed.state in
    let paid = if rules.eip1559 then gas_used * inclusion_fee tx.fee base_fee else amount_spent in
    let miner_account = refunded miner in
    record {
      gas_used = gas_used;
      amount_spent = amount_spent;
      final =
          write_account miner (record miner_account { balance = miner_account.balance + paid })
            refunded;
    }

-- The loop over the self-destructed accounts.
unfoldable pub delete_accounts : List ℕ → TxState → TxState
delete_accounts [] state = state
delete_accounts (address ∷ addresses) state =
    delete_accounts addresses (write_account address empty_account state)

-- The loop of `cleanupTouchedAccounts`.
unfoldable pub delete_empty : List ℕ → TxState → TxState
delete_empty [] state = state
delete_empty (address ∷ addresses) state =
    delete_empty addresses (
      if is_empty_account (state address) then write_account address empty_account state else state)

-- The clean-up of the accounts; what is written or deleted is touched too.
unfoldable pub clean_up : GasRules → ℕ → ℕ → Executed → TxState → TxState
unfolding delete_accounts delete_empty
clean_up rules caller miner executed state =
    let deleted = delete_accounts executed.selfdestruct state in
    if rules.spurious_dragon
    then delete_empty (executed.touched ++ caller ∷ miner ∷ executed.selfdestruct) deleted
    else deleted

-- `_runTx` from the check of the gas limit on; the message has the gas limit less the base fee.
unfoldable pub run_tx :
    GasRules → ℕ → ℕ → ℕ → (ℕ → TxState → Executed) → Tx → TxState → Result RunTxError Settled
unfolding check_tx buy_gas settle get_base_fee clean_up
run_tx rules base_fee caller miner execute tx state = do
  check_tx rules base_fee caller tx state
  let executed = execute (tx.gas_limit - get_base_fee rules tx) (buy_gas base_fee caller tx state)
  let settled = settle rules base_fee caller miner tx executed
  ok (record settled { final = clean_up rules caller miner executed settled.final })
