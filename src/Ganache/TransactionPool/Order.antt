-- ===== src/Ganache/TransactionPool/Order.antt =====
-- The heaps of the pool stay ordered by nonce: transaction-pool.ts of ganache-7.4.4.
use moola_fix.Common.{
  ℕ, ◌+◌, ◌≡◌, ap, inl, inr, Bool, ◌&&◌, Option, none, some, ok, throw_if, >>=-eq-ok, ok-injective,
  ltb, Bool-cases, Option-cases, subst, arith,
}
use moola_fix.Common.Assoc.{Assoc, lookup, insert}
use moola_fix.Ganache.Heap.{Heap}
use moola_fix.Ganache.TransactionPool.Types.{
  TypedTransaction, TransactionPool, Context, insufficient_funds, TriageOption, future_queue,
  executable, replaces_pending_executable, replaces_future_transaction, nonce_of, queue_of, signed,
  priced, delete, cost, validate_transaction,
}
use moola_fix.Ganache.TransactionPool.{
  scan, Placed, reject, place_behind_pending, place_by_account, place, place_in_queue, is_future,
  push_to, add_executable, add, prepare_transaction,
}
use moola_fix.Ganache.TransactionPool.Drain.{Ordered, Waits, drain_loop-IsDrained}
use moola_fix.Ganache.TransactionPool.Heaps.{
  AllHeaps, AllHeaps-lookup, AllHeaps-insert, AllHeaps-delete, Queued, IsValid, pushed-Queued,
  found-Ordered,
}
use moola_fix.Ganache.TransactionPool.Scans.{scan_loop-SameNonces, Ordered-SameNonces}

module _ (undefined : TypedTransaction) where
  reject-IsValid :
      (old : Option TypedTransaction) (pool : TransactionPool)
      → IsValid undefined pool
      → IsValid undefined (reject undefined old pool)
  reject-IsValid none pool v = v
  reject-IsValid (some old) pool v = record {
    pending_ordered = v.pending_ordered;
    queues_ordered = v.queues_ordered;
  }

  placed_by_account :
      (account_nonce : ℕ) (nonce : Option ℕ) (tx : TypedTransaction) (pool : TransactionPool)
      (placed : Placed undefined)
      → place_by_account undefined account_nonce nonce tx pool ≡ ok placed
      → pool ≡ placed.pool
  unfolding place_by_account
  placed_by_account account_nonce none tx pool placed h = ap (λ p. p.pool) (ok-injective _ placed h)
  placed_by_account account_nonce (some n) tx pool placed h =
      elim (Bool-cases (ltb n account_nonce)) [
        | inl low ↦ cc (rw low at h)
        | inr fine ↦ ap (λ p. p.pool) (ok-injective _ placed (rw fine at h))
      ]

  place-IsValid :
      (context : Context) (tx : TypedTransaction) (pool : TransactionPool)
      (placed : Placed undefined)
      → IsValid undefined pool
      → place undefined context tx pool ≡ ok placed
      → IsValid undefined placed.pool
  unfolding place place_behind_pending scan
  place-IsValid context tx pool placed v h =
      let heap = queue_of tx.from_address pool.pending in
      let ordered : Ordered undefined heap =
        found-Ordered undefined (lookup tx.from_address pool.pending) (λ heap found.
          AllHeaps-lookup (Ordered undefined) tx.from_address pool.pending heap v.pending_ordered
            found) in
      elim (Bool-cases (ltb 0 heap.length)) [
        | inr nothing ↦
            subst (IsValid undefined)
              (placed_by_account context.account_nonce tx.nonce tx pool placed (rw nothing at h)) v
        | inl some_pending ↦
            let (s, scanned, ended) =
              >>=-eq-ok (scan undefined (signed context tx) context.price_bump heap) _
                (rw some_pending at h) in
            let same =
              scan_loop-SameNonces undefined heap.length 0 0 (signed context tx) context.price_bump
                heap.array s scanned in
            subst (IsValid undefined) (ap (λ p. p.pool) (ok-injective _ placed ended)) (
              reject-IsValid s.replaced _ (record {
                pending_ordered =
                    AllHeaps-insert (Ordered undefined) tx.from_address
                      (record heap { array = s.scanned }) pool.pending v.pending_ordered
                      (Ordered-SameNonces undefined heap s.scanned same ordered);
                queues_ordered = v.queues_ordered;
              }))
      ]

  place_in_queue-IsValid :
      (context : Context) (placed queued : Placed undefined)
      → IsValid undefined placed.pool
      → place_in_queue undefined context placed ≡ ok queued
      → IsValid undefined queued.pool
  unfolding place_in_queue scan
  place_in_queue-IsValid context placed queued v h =
      let tx = placed.transaction in
      let heap = queue_of tx.from_address placed.pool.origins in
      let ordered : Ordered undefined heap =
        found-Ordered undefined (lookup tx.from_address placed.pool.origins) (λ heap found.
          (AllHeaps-lookup (Queued undefined) tx.from_address placed.pool.origins heap
            v.queues_ordered found).0) in
      elim (Bool-cases (is_future undefined placed.placement && ltb 0 heap.length)) [
        | inr other ↦
            subst (IsValid undefined) (ap (λ p. p.pool) (ok-injective _ queued (rw other at h))) v
        | inl waits ↦
            let (s, scanned, ended) =
              >>=-eq-ok (scan undefined (signed context tx) context.price_bump heap) _
                (rw waits at h) in
            let same =
              scan_loop-SameNonces undefined heap.length 0 0 (signed context tx) context.price_bump
                heap.array s scanned in
            subst (IsValid undefined) (ap (λ p. p.pool) (ok-injective _ queued ended)) (
              reject-IsValid s.replaced _ (record {
                pending_ordered = v.pending_ordered;
                queues_ordered =
                    AllHeaps-insert (Queued undefined) tx.from_address
                      (record heap { array = s.scanned }) placed.pool.origins v.queues_ordered
                      (
                        Ordered-SameNonces undefined heap s.scanned same ordered,
                        ground (arith, waits),
                      );
              }))
      ]

  left-AllHeaps :
      (origin expected : ℕ) (left : Option (Heap TypedTransaction))
      (map : Assoc (Heap TypedTransaction))
      → AllHeaps (Queued undefined) map
      → Waits undefined expected left
      → AllHeaps
          (Queued undefined)
          (elim left [ none ↦ delete origin map | some queue ↦ insert origin queue map ])
  left-AllHeaps origin expected none map h w = AllHeaps-delete (Queued undefined) origin map h
  left-AllHeaps origin expected (some queue) map h w =
      AllHeaps-insert (Queued undefined) origin queue map h (w.0, w.1)

  add_executable-IsValid :
      (tx : TypedTransaction) (pool : TransactionPool)
      → IsValid undefined pool
      → IsValid undefined (add_executable undefined tx pool)
  unfolding add_executable
  add_executable-IsValid tx pool v =
      let origin = tx.from_address in
      let (pushed, _) = pushed-Queued undefined (lookup origin pool.pending) tx (λ heap found.
        AllHeaps-lookup (Ordered undefined) origin pool.pending heap v.pending_ordered found) in
      let executables = push_to undefined origin tx pool.pending in
      elim (Option-cases (lookup origin pool.origins)) [
        | inl no_queue ↦
            rw (no_queue, add_executable)
              (record {
                pending_ordered =
                    AllHeaps-insert (Ordered undefined) origin executables pool.pending
                      v.pending_ordered pushed;
                queues_ordered = v.queues_ordered;
              })
        | inr (queue, found) ↦
            let (ordered, pos) =
              AllHeaps-lookup (Queued undefined) origin pool.origins queue v.queues_ordered found in
            let d =
              drain_loop-IsDrained undefined queue.length (nonce_of tx + 1) executables queue pushed
                ordered pos (omega arith) in
            rw (found, add_executable)
              (record {
                pending_ordered =
                    AllHeaps-insert (Ordered undefined) origin _ pool.pending v.pending_ordered
                      d.ordered;
                queues_ordered =
                    left-AllHeaps origin (nonce_of tx + 1 + d.moved) _ pool.origins v.queues_ordered
                      d.waits;
              })
      ]

  add-IsValid :
      (placement : TriageOption) (tx : TypedTransaction) (pool : TransactionPool)
      → IsValid undefined pool
      → IsValid undefined (add undefined placement tx pool).1
  unfolding add
  add-IsValid executable tx pool v = add_executable-IsValid tx pool v
  add-IsValid future_queue tx pool v = record {
    pending_ordered = v.pending_ordered;
    queues_ordered =
        AllHeaps-insert (Queued undefined) tx.from_address _ pool.origins v.queues_ordered (
          pushed-Queued undefined (lookup tx.from_address pool.origins) tx (λ heap found.
            (AllHeaps-lookup (Queued undefined) tx.from_address pool.origins heap v.queues_ordered
              found).0));
  }
  add-IsValid replaces_pending_executable tx pool v = v
  add-IsValid replaces_future_transaction tx pool v = v

  -- From a pool in which every heap is ordered by nonce and no queue is empty, whatever the transaction and
  -- the account of its sender, a call of `prepareTransaction` that returns leaves such a pool, also where
  -- it replaces a transaction in place or drains the queue.
  pub prepare_transaction-IsValid :
      (context : Context) (tx : TypedTransaction) (pool pool' : TransactionPool)
      (is_executable : Bool)
      → IsValid undefined pool
      → prepare_transaction undefined context tx pool ≡ ok (is_executable, pool')
      → IsValid undefined pool'
  unfolding prepare_transaction
  prepare_transaction-IsValid context tx pool pool' is_executable v h =
      let (_, _, h1) = >>=-eq-ok (validate_transaction context.block_gas_limit tx) _ h in
      let priced_tx = priced context tx in
      let (_, _, h2) =
        >>=-eq-ok (throw_if (ltb context.account_balance (cost priced_tx)) insufficient_funds) _
          h1 in
      let (placed, is_placed, h3) = >>=-eq-ok (place undefined context priced_tx pool) _ h2 in
      let (queued, is_queued, h4) = >>=-eq-ok (place_in_queue undefined context placed) _ h3 in
      subst (IsValid undefined) (ap (λ p. p.1) (ok-injective _ (is_executable, pool') h4)) (
        add-IsValid queued.placement (signed context queued.transaction) queued.pool (
          place_in_queue-IsValid context placed queued
            (place-IsValid context priced_tx pool placed v is_placed) is_queued))
