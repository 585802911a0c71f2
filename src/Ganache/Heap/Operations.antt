-- ===== src/Ganache/Heap/Operations.antt =====
-- What the operations of packages/utils/src/utils/heap.ts make of a heap.
use moola_fix.Common.{
  length as array_length, ℕ, zero, suc, ◌+◌, ◌-◌, ◌/◌, ◌≤◌, ◌<◌, ◌≡◌, refl, ap, ◌∙◌, sym, inl, inr,
  Bool, false, List, arith, Bool-cases, ==_iff, ◌==◌, if◌then◌else◌,
}
use moola_fix.Ganache.Heap.{
  Heap, Hooks, at, assign, swap, down, init_loop, init, push, shift, clear, fix, replace, remove,
}
use moola_fix.Ganache.Heap.Arrays.{
  at-assign, at-swap, swap-SameItems, tally, tally-assign, tally-assign_past,
}
use moola_fix.Ganache.Heap.Order.{IsComparator, parent, Settled, IsHeapFrom, IsHeap, DownInv}
use moola_fix.Ganache.Heap.Up.{Restored, up_restores}
use moola_fix.Ganache.Heap.Down.{down_restores, down_or_up_restores}

module _ {T : Type 0} (undefined : T) (before : T → T → Bool) where
  -- No item comes before its parent.
  abbrev pub IsOrdered : Heap T → Type 0
  IsOrdered heap = IsHeap undefined before heap.array heap.length

  -- How many items pass a test.
  abbrev pub count : (T → Bool) → Heap T → ℕ
  count test heap = tally undefined test heap.array heap.length

module _ {T : Type 0} (undefined : T) (hooks : Hooks T) (before : T → T → Bool)
    (laws : IsComparator undefined hooks before) where
  init_loop_restores :
      (i : ℕ) (array : List T) (l : ℕ)
      → IsHeapFrom undefined before i array l
      → Restored undefined hooks before laws l array (init_loop undefined hooks i array l)
  unfolding init_loop
  init_loop_restores zero array l h = (λ c pos inside. h c pos inside (omega arith), λ test. refl)
  init_loop_restores (suc i) array l h =
      let (order, items) = down_restores undefined hooks before laws i array l i (record {
        edges = λ c pos inside from other. h c pos inside (omega arith);
        bridged = λ c pos inside above i_pos from. absurd (omega arith);
      }) in
      let (order', items') = init_loop_restores i (down undefined hooks array i l).1 l order in
      (order', λ test. items' test ∙ items test)

  -- Where the comparator is a strict weak order, `init` makes a heap with the items of the array, each as
  -- often as it is in the array: no item comes before its parent.
  pub init-IsOrdered :
      (array : List T)
      → IsOrdered undefined before (init undefined hooks array)
        × ((test : T → Bool)
            → count undefined before test (init undefined hooks array)
              ≡ tally undefined test array (array_length array))
  unfolding init
  init-IsOrdered array =
      init_loop_restores (array_length array / 2) array (array_length array)
        (λ c pos inside from. absurd (omega arith))

  -- Where the comparator is a strict weak order, `push` on a heap gives a heap with the item added.
  pub push-IsOrdered :
      (value : T) (heap : Heap T)
      → IsOrdered undefined before heap
      → IsOrdered undefined before (push undefined hooks value heap)
        × ((test : T → Bool)
            → count undefined before test (push undefined hooks value heap)
              ≡ (if test value then 1 else 0) + count undefined before test heap)
  unfolding push
  push-IsOrdered value heap h =
      let l = heap.length in
      let array = assign undefined heap.array l value in
      let (order, items) =
        up_restores undefined hooks before laws array (l + 1) l (omega arith) (record {
          edges = λ c pos inside other. ground (
            arith,
            at-assign undefined heap.array l c value,
            at-assign undefined heap.array l (parent c) value,
            h c pos,
          );
          bridged = λ c pos inside above l_pos from. absurd (omega arith);
        }) in
      (
        order,
        λ test.
            items test
            ∙ ground (
              arith,
              at-assign undefined heap.array l l value,
              tally-assign_past undefined test heap.array l l value (omega arith),
            ),
      )

  root_first_below :
      (k : ℕ) (array : List T) (l i : ℕ)
      → IsHeap undefined before array l
      → i < k
      → i < l
      → Settled undefined before array i 0
  root_first_below zero array l i h f inside = absurd (omega arith)
  root_first_below (suc k) array l zero h f inside =
      ground (arith, laws.asym (at undefined array 0) (at undefined array 0))
  root_first_below (suc k) array l (suc i) h f inside =
      let value = at undefined array in
      laws.trans (value 0) (value (parent (suc i))) (value (suc i))
        (root_first_below k array l (parent (suc i)) h (omega arith) (omega arith))
        (h (suc i) (omega arith) inside)

  -- A heap whose first item is replaced.
  assign_first-DownInv :
      (array : List T) (l : ℕ) (v : T)
      → IsHeap undefined before array l
      → (n : ℕ) → n ≤ l
      → DownInv undefined before 0 (assign undefined array 0 v) n 0
  assign_first-DownInv array l v h n shorter = record {
    edges = λ c pos inside from other.
        ground (
          arith,
          at-assign undefined array 0 c v,
          at-assign undefined array 0 (parent c) v,
          h c pos,
        );
    bridged = λ c pos inside above zero_pos from. absurd (omega arith);
  }

  -- Where the comparator is a strict weak order, `shift` on a heap that is not empty returns an item that
  -- no item of the heap comes before, and leaves a heap with the other items, which is one shorter.
  pub shift-best :
      (heap : Heap T)
      → IsOrdered undefined before heap
      → 0 < heap.length
      → (best : T) × (rest : Heap T) × (shift undefined hooks heap ≡ (best, rest))
        × ((i : ℕ) → i < heap.length → before (at undefined heap.array i) best ≡ false)
        × IsOrdered undefined before rest
        × (rest.length + 1 ≡ heap.length)
        × ((test : T → Bool)
            → (if test best then 1 else 0) + count undefined before test rest
              ≡ count undefined before test heap)
  unfolding shift clear
  shift-best heap h pos =
      let array = heap.array in
      let best = at undefined array 0 in
      let not_empty : (heap.length == 0) ≡ false = ground arith in
      let first = λ (i : ℕ) (inside : i < heap.length).
        root_first_below (suc i) array heap.length i h (omega arith) inside in
      elim (Bool-cases (heap.length == 1)) [
        | inl one ↦ (
          best,
          clear undefined hooks heap,
          rw (not_empty, one, shift) refl,
          first,
          λ c c_pos inside. absurd (omega arith),
          ground arith,
          λ test. sym (ap (tally undefined test array) ((==_iff heap.length 1).0 one)),
        )
        | inr more ↦
            let n = heap.length - 1 in
            let last = at undefined array n in
            let whole : heap.length ≡ suc n = omega arith in
            let (order, items) =
              down_restores undefined hooks before laws 0 (assign undefined array 0 last) n 0
                (assign_first-DownInv array heap.length last h n (omega arith)) in
            (
              best,
              record {
                length = n;
                array = (down undefined hooks (assign undefined array 0 last) 0 n).1;
              },
              rw (not_empty, more, shift) refl,
              first,
              λ c c_pos inside. order c c_pos inside (omega arith),
              omega arith,
              λ test. ground (
                arith,
                items test,
                tally-assign undefined test array 0 n last (ground arith),
                ap (tally undefined test array) whole,
              ),
            )
      ]

  -- The last item, which is swapped with another, is the one that is left out.
  remove_items :
      (test : T → Bool) (array : List T) (i l : ℕ) {rest : ℕ}
      → i < l
      → rest ≡ tally undefined test (swap undefined array i (l - 1)) (l - 1)
      → (if test (at undefined array i) then 1 else 0) + rest ≡ tally undefined test array l
  remove_items test array i zero h e = absurd (omega arith)
  remove_items test array i (suc n) h e = ground (
    arith,
    swap-SameItems undefined array i n (suc n) h (omega arith) test,
    at-swap undefined array i n n,
  )

  -- Where the comparator is a strict weak order, `remove` takes the item at a position of a heap, and
  -- leaves a heap with the other items.
  pub remove-IsOrdered :
      (i : ℕ) (heap : Heap T)
      → IsOrdered undefined before heap
      → i < heap.length
      → IsOrdered undefined before (remove undefined hooks i heap)
        × ((test : T → Bool)
            → (if test (at undefined heap.array i) then 1 else 0)
                + count undefined before test (remove undefined hooks i heap)
              ≡ count undefined before test heap)
  unfolding remove
  remove-IsOrdered i heap h inside = elim (Bool-cases (heap.length - 1 == i)) [
    | inl last ↦
        let whole : heap.length ≡ suc i = ground arith in
        let shorter : heap.length - 1 ≡ i = ground arith in
        rw (last, remove)
          (
            λ c pos c_inside. h c pos (omega arith),
            λ test. ground (
              arith,
              ap (tally undefined test heap.array) whole,
              ap (tally undefined test heap.array) shorter,
            ),
          )
    | inr other ↦
        let n = heap.length - 1 in
        let array = swap undefined heap.array i n in
        let v = at undefined heap.array in
        let (order, items) =
          down_or_up_restores undefined hooks before laws array n i (ground arith) (record {
            edges = λ c pos c_inside from off self. ground (
              arith,
              at-swap undefined heap.array i n c,
              at-swap undefined heap.array i n (parent c),
              h c pos,
            );
            bridged = λ c pos c_inside above i_pos from. ground (
              arith,
              at-swap undefined heap.array i n c,
              at-swap undefined heap.array i n (parent i),
              h c pos,
              h i i_pos inside,
              laws.trans (v (parent i)) (v i) (v c),
            );
          }) in
        rw (other, remove)
          (order, λ test. remove_items test heap.array i heap.length inside (items test))
  ]

  -- Where the comparator is a strict weak order, `replace` puts an item in the place of another of a heap,
  -- and leaves a heap.
  pub replace-IsOrdered :
      (i : ℕ) (value : T) (heap : Heap T)
      → IsOrdered undefined before heap
      → i < heap.length
      → IsOrdered undefined before (replace undefined hooks i value heap)
        × ((test : T → Bool)
            → (if test (at undefined heap.array i) then 1 else 0)
                + count undefined before test (replace undefined hooks i value heap)
              ≡ (if test value then 1 else 0) + count undefined before test heap)
  unfolding replace fix
  replace-IsOrdered i value heap h inside =
      let array = assign undefined heap.array i value in
      let v = at undefined heap.array in
      let (order, items) =
        down_or_up_restores undefined hooks before laws array heap.length i inside (record {
          edges = λ c pos c_inside from other self. ground (
            arith,
            at-assign undefined heap.array i c value,
            at-assign undefined heap.array i (parent c) value,
            h c pos c_inside,
          );
          bridged = λ c pos c_inside above i_pos from. ground (
            arith,
            at-assign undefined heap.array i c value,
            at-assign undefined heap.array i (parent i) value,
            h c pos c_inside,
            h i i_pos inside,
            laws.trans (v (parent i)) (v i) (v c),
          );
        }) in
      (
        order,
        λ test.
            ground (
              arith,
              items test,
              tally-assign undefined test heap.array i heap.length value inside,
            ),
      )
