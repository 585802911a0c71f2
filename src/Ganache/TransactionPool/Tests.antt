-- ===== src/Ganache/TransactionPool/Tests.antt =====
-- Calls of the pool, and its theorems at these.
use moola_fix.Common.{ℕ, ◌≡◌, refl, subst, true, false, none, some, List, [], ◌∷◌, ok, err, arith}
use moola_fix.Ganache.Heap.{Heap, at}
use moola_fix.Ganache.Heap.Order.{parent}
use moola_fix.Ganache.TransactionPool.Types.{
  TypedTransaction, TransactionPool, Context, transaction_locked, underpriced, nonce_too_low,
}
use moola_fix.Ganache.TransactionPool.{drain_loop, find, clear, prepare_transaction}
use moola_fix.Ganache.TransactionPool.Drain.{before, Ordered, IsDrained, drain_loop-IsDrained}
use moola_fix.Ganache.TransactionPool.Heaps.{IsValid}
use moola_fix.Ganache.TransactionPool.Order.{prepare_transaction-IsValid}

abbrev transaction : ℕ → ℕ → ℕ → TypedTransaction
transaction nonce price hash = record {
  from_address = 1;
  nonce = some nonce;
  gas = 21;
  max_gas_price = price;
  value = 0;
  effective_gas_price = some price;
  fees = none;
  intrinsic_gas = some 21;
  locked = false;
  hash = hash;
}

abbrev undefined : TypedTransaction
undefined = record (transaction 0 0 0) { nonce = none }

abbrev context : Context
context = record {
  block_gas_limit = 100;
  price_bump = 10;
  price = none;
  sign = none;
  account_balance = 10000;
  account_nonce = 5;
}

abbrev heap_of : List TypedTransaction → ℕ → Heap TypedTransaction
heap_of array n = record { length = n; array = array }

-- Nonces 5 and 6 can be executed; 8 and 9 wait.
abbrev executables : Heap TypedTransaction
executables = heap_of (transaction 5 100 50 ∷ transaction 6 100 60 ∷ []) 2

abbrev queue : Heap TypedTransaction
queue = heap_of (transaction 8 100 80 ∷ transaction 9 100 90 ∷ []) 2

abbrev pool : TransactionPool
pool = record { pending = (1, executables) ∷ []; origins = (1, queue) ∷ []; rejected = [] }

abbrev drained : TransactionPool
drained = record {
  pending =
      (
        1,
        heap_of
            (transaction 5 100 50
              ∷ transaction 6 100 60
              ∷ transaction 7 100 70
              ∷ transaction 8 100 80
              ∷ transaction 9 100 90
              ∷ [])
            5,
      )
      ∷ [];
  origins = [];
  rejected = [];
}

-- Nonce 7 makes 8 and 9 executable.
drained_test :
    prepare_transaction undefined context (transaction 7 100 70) pool ≡ ok (true, drained)
unfolding prepare_transaction moola_fix.Ganache.TransactionPool.Types.should_replace
    moola_fix.Ganache.Heap.peek moola_fix.Ganache.Heap.remove_best moola_fix.Ganache.Heap.push
    moola_fix.Ganache.Heap.down moola_fix.Ganache.Heap.down_loop moola_fix.Ganache.Heap.up
    moola_fix.Ganache.Heap.up_loop moola_fix.Ganache.Heap.child moola_fix.Ganache.Heap.swap
drained_test = refl

-- A transaction that replaces the one with nonce 6 stands in the heap twice behind the call.
replaced_twice_test :
    prepare_transaction undefined context (transaction 6 110 61) pool
    ≡ ok (
      true,
      record {
        pending =
            (1, heap_of (transaction 5 100 50 ∷ transaction 6 110 61 ∷ transaction 6 110 61 ∷ []) 3)
            ∷ [];
        origins = pool.origins;
        rejected = transaction 6 100 60 ∷ [];
      },
    )
unfolding prepare_transaction moola_fix.Ganache.TransactionPool.Types.should_replace
    moola_fix.Ganache.Heap.peek moola_fix.Ganache.Heap.remove_best moola_fix.Ganache.Heap.push
    moola_fix.Ganache.Heap.down moola_fix.Ganache.Heap.down_loop moola_fix.Ganache.Heap.up
    moola_fix.Ganache.Heap.up_loop moola_fix.Ganache.Heap.child moola_fix.Ganache.Heap.swap
replaced_twice_test = refl

underpriced_test :
    prepare_transaction undefined context (transaction 6 109 61) pool ≡ err underpriced
unfolding prepare_transaction moola_fix.Ganache.TransactionPool.Types.should_replace
underpriced_test = refl

queued_replacement_test :
    prepare_transaction undefined context (transaction 9 120 91) pool
    ≡ ok (
      false,
      record {
        pending = pool.pending;
        origins = (1, heap_of (transaction 8 100 80 ∷ transaction 9 120 91 ∷ []) 2) ∷ [];
        rejected = transaction 9 100 90 ∷ [];
      },
    )
unfolding prepare_transaction moola_fix.Ganache.TransactionPool.Types.should_replace
queued_replacement_test = refl

nonce_too_low_test :
    prepare_transaction undefined context (transaction 4 100 40) (clear undefined pool)
    ≡ err nonce_too_low
unfolding prepare_transaction clear
nonce_too_low_test = refl

find_test : find undefined 80 [] pool ≡ some (transaction 8 100 80)
unfolding find
find_test = refl

pair-Ordered :
    (x y : TypedTransaction) → before y x ≡ false → Ordered undefined (heap_of (x ∷ y ∷ []) 2)
pair-Ordered x y h c pos inside =
    let second : 1 ≡ c = omega arith in
    subst (λ c. before (at undefined (x ∷ y ∷ []) c) (at undefined (x ∷ y ∷ []) (parent c)) ≡ false)
      second h

pool-IsValid : IsValid undefined pool
pool-IsValid = record {
  pending_ordered = (pair-Ordered (transaction 5 100 50) (transaction 6 100 60) refl, tt);
  queues_ordered =
      ((pair-Ordered (transaction 8 100 80) (transaction 9 100 90) refl, omega arith), tt);
}

prepare_transaction-IsValid_example : IsValid undefined drained
prepare_transaction-IsValid_example =
    prepare_transaction-IsValid undefined context (transaction 7 100 70) pool drained true
      pool-IsValid drained_test

drain_loop-IsDrained_example :
    IsDrained undefined 8 executables queue
      (drain_loop undefined 2 8 executables queue).0
      (drain_loop undefined 2 8 executables queue).1
drain_loop-IsDrained_example =
    drain_loop-IsDrained undefined 2 8 executables queue
      (pair-Ordered (transaction 5 100 50) (transaction 6 100 60) refl)
      (pair-Ordered (transaction 8 100 80) (transaction 9 100 90) refl) (omega arith) (omega arith)
