-- ===== src/Ganache/TransactionPool.antt =====
-- chains/ethereum/ethereum/src/transaction-pool.ts of ganache-7.4.4: the transactions of each origin
-- that can be executed, and those that wait for a nonce. Each origin has two heaps of
-- packages/utils/src/utils/heap.ts. An origin and a hash are the numbers that they spell. What
-- `prepareTransaction` waits for, the account of the sender, is an argument, so that a call is one step.
pub mod Types
pub mod Drain
pub mod Heaps
pub mod Scans
pub mod Order
mod Tests
use moola_fix.Common.{
  ℕ, zero, suc, ◌+◌, ◌-◌, ◌*◌, ◌/◌, max, Bool, true, false, not, ◌&&◌, ◌||◌, Option, none, some,
  List, [], ◌∷◌, Result, ok, err, ◌>>=◌, ◌>>◌, throw_if, take, ltb, leb, ◌==◌, if◌then◌else◌,
}
use moola_fix.Common.Assoc.{Assoc, lookup, insert}
use moola_fix.Ganache.Heap.{Heap, Hooks, at, assign, push, peek, remove_best, from}
use moola_fix.Ganache.TransactionPool.Types.{
  TypedTransaction, PoolError, gas_limit, intrinsic_gas_too_low, insufficient_funds,
  transaction_locked, underpriced, nonce_too_low, TriageOption, future_queue, executable,
  replaces_pending_executable, replaces_future_transaction, TransactionPool, Context, nonce_of,
  price_of, tip_of, max_fee_of, same_nonce, should_replace, validate_transaction, queue_of, signed,
  priced, delete, cost,
}

module _ (undefined : TypedTransaction) where
  -- `byNonce`; the pool never refreshes its heaps.
  abbrev pub by_nonce : Hooks TypedTransaction
  by_nonce = record {
    less = λ array i j. ltb (nonce_of (at undefined array i)) (nonce_of (at undefined array j));
    refresher = λ tx. tx;
  }

  -- The loops over the raw array of a heap, from position `i`: the array, with the new transaction in the
  -- place of the one that it replaces, which is returned, and the highest nonce before it.
  pub record Scan : Type 0 where
    pub scanned : List TypedTransaction
    pub highest_nonce : ℕ
    pub replaced : Option TypedTransaction

  unfoldable pub scan_loop :
      ℕ → ℕ → ℕ → TypedTransaction → ℕ → List TypedTransaction → Result PoolError Scan
  scan_loop zero i highest tx price_bump array =
      ok (record { scanned = array; highest_nonce = highest; replaced = none })
  scan_loop (suc rounds) i highest tx price_bump array =
      should_replace (at undefined array i) tx.nonce tx price_bump >>= λ replaces. elim replaces [
        | true ↦ ok (record {
          scanned = assign undefined array i tx;
          highest_nonce = highest;
          replaced = some (at undefined array i);
        })
        | false ↦
            scan_loop rounds (i + 1) (max highest (nonce_of (at undefined array i))) tx price_bump
              array
      ]

  unfoldable pub scan : TypedTransaction → ℕ → Heap TypedTransaction → Result PoolError Scan
  unfolding scan_loop
  scan tx price_bump heap = scan_loop heap.length 0 0 tx price_bump heap.array

  -- A transaction with its place, and the pool behind the replacement, if there was one.
  pub record Placed : Type 0 where
    pub placement : TriageOption
    pub transaction : TypedTransaction
    pub pool : TransactionPool

  abbrev pub with_nonce : ℕ → TypedTransaction → TypedTransaction
  with_nonce n tx = record tx { nonce = some n }

  abbrev pub reject : Option TypedTransaction → TransactionPool → TransactionPool
  reject none pool = pool
  reject (some old) pool = record pool { rejected = old ∷ pool.rejected }

  abbrev pub replaces_or : TriageOption → Option TypedTransaction → TriageOption
  replaces_or placement none = future_queue
  replaces_or placement (some _) = placement

  -- Where the origin has executable transactions.
  unfoldable pub place_behind_pending :
      Scan → Heap TypedTransaction → TypedTransaction → TransactionPool → Placed
  place_behind_pending s heap tx pool = record {
    placement = elim tx.nonce [
      | none ↦ executable
      | some n ↦
          if n == s.highest_nonce + 1
          then executable
          else replaces_or replaces_pending_executable s.replaced
    ];
    transaction = elim tx.nonce [ none ↦ with_nonce (s.highest_nonce + 1) tx | some _ ↦ tx ];
    pool = reject s.replaced (record pool {
      pending = insert tx.from_address (record heap { array = s.scanned }) pool.pending;
    });
  }

  -- Where it has none, from the nonce that the transaction has.
  unfoldable pub place_by_account :
      ℕ → Option ℕ → TypedTransaction → TransactionPool → Result PoolError Placed
  place_by_account account_nonce none tx pool =
      ok (record { placement = executable; transaction = with_nonce account_nonce tx; pool = pool })
  place_by_account account_nonce (some n) tx pool =
      if ltb n account_nonce
      then err nonce_too_low
      else ok (record {
        placement = if n == account_nonce then executable else future_queue;
        transaction = tx;
        pool = pool;
      })

  unfoldable pub place : Context → TypedTransaction → TransactionPool → Result PoolError Placed
  unfolding scan place_behind_pending place_by_account
  place context tx pool =
      let heap = queue_of tx.from_address pool.pending in
      if ltb 0 heap.length
      then (scan (signed context tx) context.price_bump heap >>= λ s.
          ok (place_behind_pending s heap tx pool))
      else place_by_account context.account_nonce tx.nonce tx pool

  abbrev pub is_future : TriageOption → Bool
  is_future future_queue = true
  is_future _ = false

  -- A transaction for the queue may replace one in it.
  unfoldable pub place_in_queue : Context → Placed → Result PoolError Placed
  unfolding scan
  place_in_queue context placed =
      let tx = placed.transaction in
      let heap = queue_of tx.from_address placed.pool.origins in
      if is_future placed.placement && ltb 0 heap.length
      then (scan (signed context tx) context.price_bump heap >>= λ s. ok (record placed {
        placement = replaces_or replaces_future_transaction s.replaced;
        pool = reject s.replaced (record placed.pool {
          origins = insert tx.from_address (record heap { array = s.scanned }) placed.pool.origins;
        });
      }))
      else ok placed

  -- `push`, or a heap of its own where there is none.
  abbrev pub push_to : ℕ → TypedTransaction → Assoc (Heap TypedTransaction) → Heap TypedTransaction
  push_to origin tx map = elim (lookup origin map) [
    | none ↦ from undefined tx
    | some heap ↦ push undefined by_nonce tx heap
  ]

  -- The loop that drains the queue: the executable transactions, and what is left of the queue. A round
  -- takes a transaction, so that the length of the queue is fuel enough.
  unfoldable pub drain_loop :
      ℕ
      → ℕ
      → Heap TypedTransaction
      → Heap TypedTransaction
      → Heap TypedTransaction × Option (Heap TypedTransaction)
  drain_loop zero expected executables queue = (executables, some queue)
  drain_loop (suc fuel) expected executables queue =
      let next_tx = peek undefined by_nonce queue in
      elim (nonce_of next_tx == expected) [
        | false ↦ (executables, some queue)
        | true ↦
            let pushed = push undefined by_nonce next_tx executables in
            let (more, rest) = remove_best undefined by_nonce queue in
            elim more [ false ↦ (pushed, none) | true ↦ drain_loop fuel (expected + 1) pushed rest ]
      ]

  -- An executable transaction, and the ones that it makes executable.
  unfoldable pub add_executable : TypedTransaction → TransactionPool → TransactionPool
  unfolding drain_loop delete
  add_executable tx pool =
      let origin = tx.from_address in
      let executables = push_to origin tx pool.pending in
      elim (lookup origin pool.origins) [
        | none ↦ record pool { pending = insert origin executables pool.pending }
        | some queue ↦
            let (executables', left) =
              drain_loop queue.length (nonce_of tx + 1) executables queue in
            record pool {
              pending = insert origin executables' pool.pending;
              origins = elim left [
                | none ↦ delete origin pool.origins
                | some queue' ↦ insert origin queue' pool.origins
              ];
            }
      ]

  -- The `switch` on the placement, with whether the transaction can be executed.
  unfoldable pub add : TriageOption → TypedTransaction → TransactionPool → Bool × TransactionPool
  unfolding add_executable
  add executable tx pool = (true, add_executable tx pool)
  add future_queue tx pool = (
    false,
    record pool {
      origins = insert tx.from_address (push_to tx.from_address tx pool.origins) pool.origins;
    },
  )
  add replaces_pending_executable tx pool = (true, pool)
  add replaces_future_transaction tx pool = (false, pool)

  -- `prepareTransaction`
  unfoldable pub prepare_transaction :
      Context → TypedTransaction → TransactionPool → Result PoolError (Bool × TransactionPool)
  unfolding validate_transaction place place_in_queue add
  prepare_transaction context transaction pool = do
    validate_transaction context.block_gas_limit transaction
    let tx = priced context transaction
    throw_if (ltb context.account_balance (cost tx)) insufficient_funds
    placed ← place context tx pool
    queued ← place_in_queue context placed
    ok (add queued.placement (signed context queued.transaction) queued.pool)

  -- `find`: in the queues, in the executable transactions, and in those that are mined.
  unfoldable pub find_in : ℕ → List TypedTransaction → Option TypedTransaction
  find_in hash [] = none
  find_in hash (tx ∷ txs) = if tx.hash == hash then some tx else find_in hash txs

  unfoldable pub find_in_heaps : ℕ → Assoc (Heap TypedTransaction) → Option TypedTransaction
  unfolding find_in
  find_in_heaps hash [] = none
  find_in_heaps hash ((origin, heap) ∷ heaps) = elim (find_in hash (take heap.length heap.array)) [
    | some tx ↦ some tx
    | none ↦ find_in_heaps hash heaps
  ]

  unfoldable pub find : ℕ → List TypedTransaction → TransactionPool → Option TypedTransaction
  unfolding find_in_heaps
  find hash in_progress pool = elim (find_in_heaps hash pool.origins) [
    | some tx ↦ some tx
    | none ↦ elim (find_in_heaps hash pool.pending) [
      | some tx ↦ some tx
      | none ↦ find_in hash in_progress
    ]
  ]

  -- `clear`
  unfoldable pub clear : TransactionPool → TransactionPool
  clear pool = record pool { pending = []; origins = [] }
