-- ===== src/Ganache/TransactionPool/Heaps.antt =====
-- The heaps of all origins: transaction-pool.ts of ganache-7.4.4.
use moola_fix.Common.{
  ℕ, ◌<◌, ◌≡◌, refl, inl, inr, Option, none, some, [], ◌∷◌, All, ◌==◌, Bool-cases, subst, arith,
}
use mathlib.Core.Option.{some-injective}
use moola_fix.Common.Assoc.{Assoc, lookup, insert}
use moola_fix.Ganache.Heap.{Heap, push, from}
use moola_fix.Ganache.Heap.Operations.{push-IsOrdered}
use moola_fix.Ganache.TransactionPool.Types.{TypedTransaction, TransactionPool, delete}
use moola_fix.Ganache.TransactionPool.{by_nonce}
use moola_fix.Ganache.TransactionPool.Drain.{before, by_nonce-IsComparator, Ordered}

-- A property of the heap of every origin.
abbrev pub AllHeaps : (Heap TypedTransaction → Type 0) → Assoc (Heap TypedTransaction) → Type 0
AllHeaps P = All (λ e. P e.1)

module _ (P : Heap TypedTransaction → Type 0) where
  pub AllHeaps-lookup :
      (k : ℕ) (m : Assoc (Heap TypedTransaction)) (heap : Heap TypedTransaction)
      → AllHeaps P m
      → lookup k m ≡ some heap
      → P heap
  AllHeaps-lookup k [] heap h found = cc
  AllHeaps-lookup k ((j, v) ∷ m) heap h found = elim (Bool-cases (j == k)) [
    | inl same ↦ subst P (some-injective v heap (rw same at found)) h.0
    | inr other ↦ AllHeaps-lookup k m heap h.1 (rw other at found)
  ]

  pub AllHeaps-insert :
      (k : ℕ) (heap : Heap TypedTransaction) (m : Assoc (Heap TypedTransaction))
      → AllHeaps P m
      → P heap
      → AllHeaps P (insert k heap m)
  AllHeaps-insert k heap [] h p = (p, tt)
  AllHeaps-insert k heap ((j, v) ∷ m) h p = elim (Bool-cases (j == k)) [
    | inl same ↦ rw same (p, h.1)
    | inr other ↦ rw other (h.0, AllHeaps-insert k heap m h.1 p)
  ]

  pub AllHeaps-delete :
      (k : ℕ) (m : Assoc (Heap TypedTransaction)) → AllHeaps P m → AllHeaps P (delete k m)
  unfolding delete
  AllHeaps-delete k [] h = tt
  AllHeaps-delete k ((j, v) ∷ m) h = elim (Bool-cases (j == k)) [
    | inl same ↦ rw same h.1
    | inr other ↦ rw other (h.0, AllHeaps-delete k m h.1)
  ]

module _ (undefined : TypedTransaction) where
  -- Every heap is ordered by nonce, and no queue is empty.
  abbrev pub Queued : Heap TypedTransaction → Type 0
  Queued heap = Ordered undefined heap × (0 < heap.length)

  pub record IsValid (pool : TransactionPool) : Type 0 where
    pub pending_ordered : AllHeaps (Ordered undefined) pool.pending
    pub queues_ordered : AllHeaps Queued pool.origins

  -- What is pushed for an origin joins its heap, or makes one.
  pub pushed-Queued :
      (old : Option (Heap TypedTransaction)) (tx : TypedTransaction)
      → ((heap : Heap TypedTransaction) → old ≡ some heap → Ordered undefined heap)
      → Queued (elim old [
        | none ↦ from undefined tx
        | some heap ↦ push undefined (by_nonce undefined) tx heap
      ])
  unfolding from push
  pushed-Queued none tx ordered = (λ c pos inside. absurd (omega arith), omega arith)
  pushed-Queued (some heap) tx ordered = (
    (push-IsOrdered undefined (by_nonce undefined) before (by_nonce-IsComparator undefined) tx heap
        (ordered heap refl)).0,
    omega arith,
  )

  pub found-Ordered :
      (old : Option (Heap TypedTransaction))
      → ((heap : Heap TypedTransaction) → old ≡ some heap → Ordered undefined heap)
      → Ordered undefined (elim old [ none ↦ record { length = 0; array = [] } | some heap ↦ heap ])
  found-Ordered none ordered = λ c pos inside. absurd (omega arith)
  found-Ordered (some heap) ordered = ordered heap refl
