-- ===== src/Ganache/TransactionPool/Types.antt =====
-- The transactions, the pool and the functions on one transaction of
-- chains/ethereum/ethereum/src/transaction-pool.ts of ganache-7.4.4.
use moola_fix.Common.{
  ℕ, ◌+◌, ◌*◌, ◌/◌, Bool, true, false, not, ◌||◌, Option, none, some, List, [], ◌∷◌, Result, ok,
  err, throw_if, ltb, ◌==◌, if◌then◌else◌,
}
use moola_fix.Common.Assoc.{Assoc, lookup}
use moola_fix.Ganache.Heap.{Heap}

-- What the pool reads of a transaction. `fees` has the maximum fee and the tip of a fee market
-- transaction; `intrinsic_gas` is the result of `calculateIntrinsicGas`, `none` for -1.
pub record TypedTransaction : Type 0 where
  pub from_address : ℕ
  pub nonce : Option ℕ
  pub gas : ℕ
  pub max_gas_price : ℕ
  pub value : ℕ
  pub effective_gas_price : Option ℕ
  pub fees : Option (ℕ × ℕ)
  pub intrinsic_gas : Option ℕ
  pub locked : Bool
  pub hash : ℕ

pub data PoolError : Type 0 where
  gas_limit intrinsic_gas_too_low insufficient_funds : PoolError
  transaction_locked underpriced nonce_too_low : PoolError

pub data TriageOption : Type 0 where
  future_queue executable replaces_pending_executable replaces_future_transaction : TriageOption

-- `rejected` has the transactions that were finalized because they were replaced, the last one first.
pub record TransactionPool : Type 0 where
  pub pending : Assoc (Heap TypedTransaction)
  pub origins : Assoc (Heap TypedTransaction)
  pub rejected : List TypedTransaction

-- The options, the price that the block gives a transaction, where EIP-1559 is active, the hash behind the
-- signature, where there is a secret key, and the account of the sender.
pub record Context : Type 0 where
  pub block_gas_limit : ℕ
  pub price_bump : ℕ
  pub price : Option (TypedTransaction → ℕ)
  pub sign : Option (TypedTransaction → ℕ)
  pub account_balance : ℕ
  pub account_nonce : ℕ

-- A number, or 0 for `null`, as in `nonce.toBigInt() || 0n`.
abbrev pub number_of : Option ℕ → ℕ
number_of none = 0
number_of (some n) = n

abbrev pub nonce_of : TypedTransaction → ℕ
nonce_of tx = number_of tx.nonce

abbrev pub price_of : TypedTransaction → ℕ
price_of tx = number_of tx.effective_gas_price

abbrev pub tip_of : TypedTransaction → ℕ
tip_of tx = elim tx.fees [ none ↦ price_of tx | some (max_fee, tip) ↦ tip ]

abbrev pub max_fee_of : TypedTransaction → ℕ
max_fee_of tx = elim tx.fees [ none ↦ price_of tx | some (max_fee, tip) ↦ max_fee ]

-- `null` and `undefined` are not equal.
abbrev pub same_nonce : Option ℕ → Option ℕ → Bool
same_nonce (some m) (some n) = n == m
same_nonce _ _ = false

-- `shouldReplace`
unfoldable pub should_replace :
    TypedTransaction → Option ℕ → TypedTransaction → ℕ → Result PoolError Bool
should_replace replacee replacer_nonce replacer price_bump =
    if not (same_nonce replacer_nonce replacee.nonce)
    then ok false
    else if replacee.locked
    then err transaction_locked
    else if ltb (tip_of replacer) (tip_of replacee + tip_of replacee * price_bump / 100)
        || ltb (max_fee_of replacer) (max_fee_of replacee + max_fee_of replacee * price_bump / 100)
    then err underpriced
    else ok true

-- `#validateTransaction`
unfoldable pub validate_transaction : ℕ → TypedTransaction → Result PoolError (Unit {0})
validate_transaction block_gas_limit tx =
    if ltb block_gas_limit tx.gas then err gas_limit else elim tx.intrinsic_gas [
      | none ↦ err intrinsic_gas_too_low
      | some gas ↦ throw_if (ltb tx.gas gas) intrinsic_gas_too_low
    ]

abbrev pub queue_of : ℕ → Assoc (Heap TypedTransaction) → Heap TypedTransaction
queue_of origin map = elim (lookup origin map) [
  | none ↦ record { length = 0; array = [] }
  | some heap ↦ heap
]

-- `signAndHash`, where there is a secret key. What replaces another transaction is the same object, so that
-- it is signed too.
abbrev pub signed : Context → TypedTransaction → TypedTransaction
signed context tx = elim context.sign [ none ↦ tx | some sign ↦ record tx { hash = sign tx } ]

-- The price of the block, where none is set.
abbrev pub priced : Context → TypedTransaction → TypedTransaction
priced context tx = elim tx.effective_gas_price [
  | some _ ↦ tx
  | none ↦ elim context.price [
    | none ↦ tx
    | some price ↦ record tx { effective_gas_price = some (price tx) }
  ]
]

-- `map.delete(k)`
unfoldable pub delete {ℓ} : {V : Type ℓ} → ℕ → Assoc V → Assoc V
delete k [] = []
delete k ((j, v) ∷ m) = if j == k then m else (j, v) ∷ delete k m

abbrev pub cost : TypedTransaction → ℕ
cost tx = tx.gas * tx.max_gas_price + tx.value
