-- ===== src/Ganache/Heap/Tests.antt =====
-- The heap on numbers, and its theorems applied to a heap.
use moola_fix.Common.{
  ℕ, ◌+◌, ◌*◌, ◌%◌, ◌<◌, ◌≡◌, refl, Bool, false, [], ◌∷◌, ltb, if◌then◌else◌, arith,
}
use moola_fix.Ganache.Heap.{
  Heap, Hooks, at, init, push, shift, remove, replace, refresh, peek, remove_best, replace_best,
  from,
}
use moola_fix.Ganache.Heap.Arrays.{tally}
use moola_fix.Ganache.Heap.Order.{IsComparator}
use moola_fix.Ganache.Heap.Operations.{
  IsOrdered, count, init-IsOrdered, push-IsOrdered, shift-best, remove-IsOrdered,
}
use moola_fix.Ganache.Heap.Refresh.{refresh-IsOrdered}

abbrev hooks : Hooks ℕ
hooks = record {
  less = λ array i j. ltb (at 0 array i) (at 0 array j);
  refresher = λ x. x * 7 % 10;
}

hooks-IsComparator : IsComparator 0 hooks ltb
hooks-IsComparator = record {
  reads = λ array i j. refl;
  asym = λ x y h. ground arith;
  trans = λ x y z h k. ground arith;
}

abbrev heap : Heap ℕ
heap = record { length = 4; array = 1 ∷ 2 ∷ 5 ∷ 4 ∷ [] }

init_test : init 0 hooks (4 ∷ 2 ∷ 5 ∷ 1 ∷ []) ≡ heap
unfolding init moola_fix.Ganache.Heap.init_loop moola_fix.Ganache.Heap.down
    moola_fix.Ganache.Heap.down_loop moola_fix.Ganache.Heap.child moola_fix.Ganache.Heap.swap
init_test = refl

heap-IsOrdered : IsOrdered 0 ltb heap
unfolding init moola_fix.Ganache.Heap.init_loop moola_fix.Ganache.Heap.down
    moola_fix.Ganache.Heap.down_loop moola_fix.Ganache.Heap.child moola_fix.Ganache.Heap.swap
heap-IsOrdered = (init-IsOrdered 0 hooks ltb hooks-IsComparator (4 ∷ 2 ∷ 5 ∷ 1 ∷ [])).0

init-IsOrdered_example :
    IsOrdered 0 ltb (init 0 hooks (4 ∷ 2 ∷ 5 ∷ 1 ∷ []))
    × ((test : ℕ → Bool)
        → count 0 ltb test (init 0 hooks (4 ∷ 2 ∷ 5 ∷ 1 ∷ []))
          ≡ tally 0 test (4 ∷ 2 ∷ 5 ∷ 1 ∷ []) 4)
init-IsOrdered_example = init-IsOrdered 0 hooks ltb hooks-IsComparator (4 ∷ 2 ∷ 5 ∷ 1 ∷ [])

push-IsOrdered_example :
    IsOrdered 0 ltb (push 0 hooks 3 heap)
    × ((test : ℕ → Bool)
        → count 0 ltb test (push 0 hooks 3 heap)
          ≡ (if test 3 then 1 else 0) + count 0 ltb test heap)
push-IsOrdered_example = push-IsOrdered 0 hooks ltb hooks-IsComparator 3 heap heap-IsOrdered

shift-best_example :
    (best : ℕ) × (rest : Heap ℕ) × (shift 0 hooks heap ≡ (best, rest))
    × ((i : ℕ) → i < 4 → ltb (at 0 heap.array i) best ≡ false)
    × IsOrdered 0 ltb rest
    × (rest.length + 1 ≡ 4)
    × ((test : ℕ → Bool)
        → (if test best then 1 else 0) + count 0 ltb test rest ≡ count 0 ltb test heap)
shift-best_example = shift-best 0 hooks ltb hooks-IsComparator heap heap-IsOrdered (omega arith)

remove-IsOrdered_example :
    IsOrdered 0 ltb (remove 0 hooks 1 heap)
    × ((test : ℕ → Bool)
        → (if test 2 then 1 else 0) + count 0 ltb test (remove 0 hooks 1 heap)
          ≡ count 0 ltb test heap)
remove-IsOrdered_example =
    remove-IsOrdered 0 hooks ltb hooks-IsComparator 1 heap heap-IsOrdered (omega arith)

refresh-IsOrdered_example :
    IsOrdered 0 ltb (refresh 0 hooks heap)
    × ((test : ℕ → Bool)
        → count 0 ltb test (refresh 0 hooks heap) ≡ count 0 ltb (λ item. test (item * 7 % 10)) heap)
refresh-IsOrdered_example = refresh-IsOrdered 0 hooks ltb hooks-IsComparator heap
