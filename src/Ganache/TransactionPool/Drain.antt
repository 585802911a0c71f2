-- ===== src/Ganache/TransactionPool/Drain.antt =====
-- Draining the queue of an origin: transaction-pool.ts of ganache-7.4.4.
use moola_fix.Common.{
  ℕ, zero, suc, ◌+◌, ◌≤◌, ◌<◌, ◌≡◌, refl, sym, ap, ◌∙◌, inl, inr, Bool, true, false, not, ◌&&◌,
  Option, none, some, ltb, leb, ◌==◌, if◌then◌else◌, Bool-cases, ==_iff, subst, arith,
}
use moola_fix.Ganache.Heap.{Heap, push, peek, shift, remove_best}
use moola_fix.Ganache.Heap.Order.{IsComparator}
use moola_fix.Ganache.Heap.Operations.{IsOrdered, count, push-IsOrdered, shift-best}
use moola_fix.Ganache.TransactionPool.Types.{TypedTransaction, nonce_of}
use moola_fix.Ganache.TransactionPool.{by_nonce, drain_loop}

abbrev pub before : TypedTransaction → TypedTransaction → Bool
before x y = ltb (nonce_of x) (nonce_of y)

module _ (undefined : TypedTransaction) where
  pub by_nonce-IsComparator : IsComparator undefined (by_nonce undefined) before
  by_nonce-IsComparator = record {
    reads = λ array i j. refl;
    asym = λ x y h. ground arith;
    trans = λ x y z h k. ground arith;
  }

  -- `removeBest` takes what `shift` takes, and tells whether something is left.
  remove_best-shift :
      (heap : Heap TypedTransaction)
      → 0 < heap.length
      → remove_best undefined (by_nonce undefined) heap
        ≡ (not (heap.length == 1), (shift undefined (by_nonce undefined) heap).1)
  unfolding remove_best shift
  remove_best-shift heap pos =
      let not_empty : (heap.length == 0) ≡ false = ground arith in
      elim (Bool-cases (heap.length == 1)) [
        | inl one ↦ rw (one, not_empty) refl
        | inr more ↦ rw (more, not_empty) refl
      ]

  shift-peek :
      (heap : Heap TypedTransaction)
      → 0 < heap.length
      → (shift undefined (by_nonce undefined) heap).0 ≡ peek undefined (by_nonce undefined) heap
  unfolding shift peek
  shift-peek heap pos =
      let not_empty : (heap.length == 0) ≡ false = ground arith in
      elim (Bool-cases (heap.length == 1)) [
        | inl one ↦ rw (not_empty, one) refl
        | inr more ↦ rw (not_empty, more) refl
      ]

  abbrev pub Ordered : Heap TypedTransaction → Type 0
  Ordered = IsOrdered undefined before

  abbrev pub items : (TypedTransaction → Bool) → Heap TypedTransaction → ℕ
  items = count undefined before

  -- What is taken from a queue that is not empty.
  record IsTaken (heap rest : Heap TypedTransaction) : Type 0 where
    ordered : Ordered rest
    shorter : rest.length + 1 ≡ heap.length
    others :
        (test : TypedTransaction → Bool)
        → (if test (peek undefined (by_nonce undefined) heap) then 1 else 0) + items test rest
          ≡ items test heap

  remove_best-IsTaken :
      (heap : Heap TypedTransaction)
      → Ordered heap
      → 0 < heap.length
      → (rest : Heap TypedTransaction) × (remove_best undefined (by_nonce undefined) heap
          ≡ (not (heap.length == 1), rest))
        × IsTaken heap rest
  remove_best-IsTaken heap ordered pos =
      let (best, rest, shifted, _, order, shorter, others) =
        shift-best undefined (by_nonce undefined) before by_nonce-IsComparator heap ordered pos in
      let first : peek undefined (by_nonce undefined) heap ≡ best =
        sym (shift-peek heap pos) ∙ ap (λ p. p.0) shifted in
      (
        rest,
        remove_best-shift heap pos ∙ ap (λ p. (not (heap.length == 1), p.1)) shifted,
        record { ordered = order; shorter = shorter; others = λ test. rw first (others test) },
      )

  abbrev pub left_items : (TypedTransaction → Bool) → Option (Heap TypedTransaction) → ℕ
  left_items test none = 0
  left_items test (some queue) = items test queue

  -- What is left of a queue does not start with the nonce that is expected next.
  abbrev pub Waits : ℕ → Option (Heap TypedTransaction) → Type 0
  Waits expected none = Unit
  Waits expected (some queue) =
      Ordered queue
      × (0 < queue.length)
      × ((nonce_of (peek undefined (by_nonce undefined) queue) == expected) ≡ false)

  -- A number of transactions has been moved, one for each nonce from the expected one on.
  pub record IsDrained (expected : ℕ) (executables queue executables' : Heap TypedTransaction)
      (left : Option (Heap TypedTransaction)) : Type 0 where
    pub moved : ℕ
    pub longer : executables'.length ≡ executables.length + moved
    pub ordered : Ordered executables'
    pub waits : Waits (expected + moved) left
    pub kept :
        (test : TypedTransaction → Bool)
        → items test executables' + left_items test left ≡ items test executables + items test queue
    pub nonces :
        (n : ℕ)
        → items (λ tx. nonce_of tx == n) executables'
          ≡ items (λ tx. nonce_of tx == n) executables
            + (if leb expected n && ltb n (expected + moved) then 1 else 0)

  length-push :
      (tx : TypedTransaction) (heap : Heap TypedTransaction)
      → (push undefined (by_nonce undefined) tx heap).length ≡ heap.length + 1
  unfolding push
  length-push tx heap = refl

  other_nonce :
      (expected : ℕ) (executables queue : Heap TypedTransaction)
      → Ordered executables
      → Waits expected (some queue)
      → IsDrained expected executables queue executables (some queue)
  other_nonce expected executables queue ordered waits =
      let none_moved : expected + 0 ≡ expected = omega arith in
      record {
        moved = 0;
        longer = omega arith;
        ordered = ordered;
        waits = rw none_moved waits;
        kept = λ test. refl;
        nonces = λ n. ground arith;
      }

  emptied :
      (expected : ℕ) (executables rest : Heap TypedTransaction)
      → Ordered executables
      → rest.length ≡ 0
      → IsDrained expected executables rest executables none
  emptied expected executables rest ordered nothing = record {
    moved = 0;
    longer = omega arith;
    ordered = ordered;
    waits = tt;
    kept = λ test. rw nothing refl;
    nonces = λ n. ground arith;
  }

  -- One transaction has been moved before the others.
  one_more :
      (expected : ℕ) (executables queue rest executables' : Heap TypedTransaction)
      (left : Option (Heap TypedTransaction))
      → Ordered executables
      → nonce_of (peek undefined (by_nonce undefined) queue) ≡ expected
      → IsTaken queue rest
      → IsDrained
          (expected + 1)
          (push undefined
            (by_nonce undefined)
            (peek undefined (by_nonce undefined) queue)
            executables)
          rest
          executables'
          left
      → IsDrained expected executables queue executables' left
  one_more expected executables queue rest executables' left ordered same taken d =
      let next_tx = peek undefined (by_nonce undefined) queue in
      let (_, pushed) =
        push-IsOrdered undefined (by_nonce undefined) before by_nonce-IsComparator next_tx
          executables ordered in
      let moved_on : expected + 1 + d.moved ≡ expected + suc d.moved = omega arith in
      record {
        moved = suc d.moved;
        longer = omega (arith, d.longer, length-push next_tx executables);
        ordered = d.ordered;
        waits = subst (λ n. Waits n left) moved_on d.waits;
        kept = λ test. omega (arith, d.kept test, pushed test, taken.others test);
        nonces = λ n. ground (arith, d.nonces n, pushed (λ tx. nonce_of tx == n), same);
      }

  -- From an ordered queue that is not empty, with as much fuel as it has transactions: the loop moves the
  -- transactions with the expected nonce, the next one and so on, one for each, until the queue is
  -- empty or starts with another nonce; what it moves it takes from the queue, and both heaps stay ordered.
  pub drain_loop-IsDrained :
      (fuel expected : ℕ) (executables queue : Heap TypedTransaction)
      → Ordered executables
      → Ordered queue
      → 0 < queue.length
      → queue.length ≤ fuel
      → IsDrained expected executables queue
          (drain_loop undefined fuel expected executables queue).0
          (drain_loop undefined fuel expected executables queue).1
  unfolding drain_loop
  drain_loop-IsDrained zero expected executables queue oe oq pos enough = absurd (omega arith)
  drain_loop-IsDrained (suc fuel) expected executables queue oe oq pos enough =
      let next_tx = peek undefined (by_nonce undefined) queue in
      elim (Bool-cases (nonce_of next_tx == expected)) [
        | inr other ↦
            rw (other, drain_loop) (other_nonce expected executables queue oe (oq, pos, other))
        | inl same ↦
            let nonce_is : nonce_of next_tx ≡ expected =
              (==_iff (nonce_of next_tx) expected).0 same in
            let pushed = push undefined (by_nonce undefined) next_tx executables in
            let (order, _) =
              push-IsOrdered undefined (by_nonce undefined) before by_nonce-IsComparator next_tx
                executables oe in
            let (rest, removed, taken) = remove_best-IsTaken queue oq pos in
            elim (Bool-cases (queue.length == 1)) [
              | inl one ↦
                  let last : remove_best undefined (by_nonce undefined) queue ≡ (false, rest) =
                    removed ∙ ap (λ b. (not b, rest)) one in
                  rw (same, ap (λ p. p.0) last, drain_loop)
                    (one_more expected executables queue rest pushed none oe nonce_is taken (
                      emptied (expected + 1) pushed rest order
                        (ground (arith, taken.shorter, one))))
              | inr several ↦
                  let more : remove_best undefined (by_nonce undefined) queue ≡ (true, rest) =
                    removed ∙ ap (λ b. (not b, rest)) several in
                  rw (same, ap (λ p. p.0) more, ap (λ p. p.1) more, drain_loop)
                    (one_more expected executables queue rest _ _ oe nonce_is taken (
                      drain_loop-IsDrained fuel (expected + 1) pushed rest order taken.ordered
                        (ground (arith, taken.shorter, several)) (omega (arith, taken.shorter))))
            ]
      ]
