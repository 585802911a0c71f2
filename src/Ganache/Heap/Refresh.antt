-- ===== src/Ganache/Heap/Refresh.antt =====
-- What `refresh` of packages/utils/src/utils/heap.ts makes of a heap.
use moola_fix.Common.{ℕ, zero, suc, ◌+◌, ◌-◌, ◌/◌, ◌≤◌, ◌<◌, ◌≡◌, refl, ap, ◌∙◌, Bool, List, arith}
use moola_fix.Ganache.Heap.{Heap, Hooks, at, assign, down, refresh_leaves, refresh_loop, refresh}
use moola_fix.Ganache.Heap.Arrays.{at-assign, tally, tally-assign, tally-assign_past}
use moola_fix.Ganache.Heap.Order.{IsComparator, parent, IsHeapFrom, IsHeap}
use moola_fix.Ganache.Heap.Down.{down_restores, down_above}
use moola_fix.Ganache.Heap.Operations.{IsOrdered, count}

module _ {T : Type 0} (undefined : T) (hooks : Hooks T) (before : T → T → Bool)
    (laws : IsComparator undefined hooks before) where
  abbrev fresh : (T → Bool) → T → Bool
  fresh test item = test (hooks.refresher item)

  -- Items that agree on the first positions are counted alike.
  tally_same :
      (test : T → Bool) (a b : List T) (l : ℕ)
      → ((k : ℕ) → k < l → at undefined a k ≡ at undefined b k)
      → tally undefined test a l ≡ tally undefined test b l
  tally_same test a b zero same = refl
  tally_same test a b (suc l) same =
      ground (arith, same l (omega arith), tally_same test a b l (λ k h. same k (omega arith)))

  at-refresh_leaves :
      (rounds i : ℕ) (array : List T) (k : ℕ)
      → k < i
      → at undefined (refresh_leaves undefined hooks rounds i array) k ≡ at undefined array k
  unfolding refresh_leaves
  at-refresh_leaves zero i array k h = refl
  at-refresh_leaves (suc rounds) i array k h = ground (
    arith,
    at-refresh_leaves rounds (i + 1)
        (assign undefined array i (hooks.refresher (at undefined array i))) k (omega arith),
    at-assign undefined array i k (hooks.refresher (at undefined array i)),
  )

  -- The first loop refreshes the items from `i`.
  tally-refresh_leaves :
      (test : T → Bool) (rounds i : ℕ) (array : List T) (l : ℕ)
      → i + rounds ≡ l
      → tally undefined test (refresh_leaves undefined hooks rounds i array) l
          + tally undefined (fresh test) array i
        ≡ tally undefined (fresh test) array l + tally undefined test array i
  unfolding refresh_leaves
  tally-refresh_leaves test zero i array l h =
      let e : i ≡ l = omega arith in
      ground (arith, ap (tally undefined test array) e, ap (tally undefined (fresh test) array) e)
  tally-refresh_leaves test (suc rounds) i array l h =
      let item = hooks.refresher (at undefined array i) in
      let array' = assign undefined array i item in
      let next : i + 1 ≡ suc i = omega arith in
      ground (
        arith,
        tally-refresh_leaves test rounds (i + 1) array' l (omega arith),
        tally-assign undefined (fresh test) array i l item (omega arith),
        tally-assign_past undefined test array i i item (omega arith),
        tally-assign_past undefined (fresh test) array i i item (omega arith),
        at-assign undefined array i i item,
        ap (tally undefined test array') next,
        ap (tally undefined (fresh test) array') next,
      )

  refresh_loop_restores :
      (i : ℕ) (array : List T) (l : ℕ)
      → i ≤ l
      → IsHeapFrom undefined before i array l
      → IsHeap undefined before (refresh_loop undefined hooks i array l) l
        × ((test : T → Bool)
            → tally undefined test (refresh_loop undefined hooks i array l) l
                + tally undefined test array i
              ≡ tally undefined test array l + tally undefined (fresh test) array i)
  unfolding refresh_loop
  refresh_loop_restores zero array l inside h =
      (λ c pos c_inside. h c pos c_inside (omega arith), λ test. refl)
  refresh_loop_restores (suc i) array l inside h =
      let item = hooks.refresher (at undefined array i) in
      let array' = assign undefined array i item in
      let (order, items) = down_restores undefined hooks before laws i array' l i (record {
        edges = λ c pos c_inside from other. ground (
          arith,
          at-assign undefined array i c item,
          at-assign undefined array i (parent c) item,
          h c pos c_inside,
        );
        bridged = λ c pos c_inside above i_pos from. absurd (omega arith);
      }) in
      let next = (down undefined hooks array' i l).1 in
      let same = λ (test : T → Bool). tally_same test next array i (λ k below.
        down_above undefined hooks before laws array' l i k below
        ∙ ground (arith, at-assign undefined array i k item)) in
      let (order', items') = refresh_loop_restores i next l (omega arith) order in
      (
        order',
        λ test. ground (
          arith,
          items' test,
          items test,
          same test,
          same (fresh test),
          tally-assign undefined test array i l item (omega arith),
        ),
      )

  -- Where the comparator is a strict weak order, `refresh` makes a heap whose items are what the refresher
  -- makes of the items that there were; the order may fail before.
  pub refresh-IsOrdered :
      (heap : Heap T)
      → IsOrdered undefined before (refresh undefined hooks heap)
        × ((test : T → Bool)
            → count undefined before test (refresh undefined hooks heap)
              ≡ count undefined before (fresh test) heap)
  unfolding refresh
  refresh-IsOrdered heap =
      let l = heap.length in
      let mid = l / 2 in
      let leaves = refresh_leaves undefined hooks (l - mid) mid heap.array in
      let (order, items) =
        refresh_loop_restores mid leaves l (omega arith)
          (λ c pos inside from. absurd (omega arith)) in
      let same = λ (test : T → Bool).
        tally_same test leaves heap.array mid (λ k. at-refresh_leaves (l - mid) mid heap.array k) in
      (
        order,
        λ test. omega (
          arith,
          items test,
          same test,
          same (fresh test),
          tally-refresh_leaves test (l - mid) mid heap.array l (omega arith),
        ),
      )
