-- ===== src/Ganache/Heap/Up.antt =====
-- `up` of packages/utils/src/utils/heap.ts.
use moola_fix.Common.{
  ℕ, zero, suc, ◌≤◌, ◌<◌, sym, refl, ◌∙◌, inl, inr, Bool, List, arith, Bool-cases, ◌==◌,
}
use moola_fix.Ganache.Heap.{Hooks, swap, up_loop, up}
use moola_fix.Ganache.Heap.Arrays.{SameItems, swap-SameItems}
use moola_fix.Ganache.Heap.Order.{IsComparator, parent, IsHeap, UpInv, swap-UpInv}

module _ {T : Type 0} (undefined : T) (hooks : Hooks T) (before : T → T → Bool)
    (laws : IsComparator undefined hooks before) where
  -- A heap with the same items.
  abbrev pub Restored : ℕ → List T → List T → Type 0
  Restored l array result = IsHeap undefined before result l × SameItems undefined l result array

  up_loop_restores :
      (fuel : ℕ) (array : List T) (l j : ℕ)
      → j ≤ fuel
      → j < l
      → UpInv undefined before array l j
      → Restored l array (up_loop undefined hooks fuel array j)
  unfolding up_loop
  up_loop_restores zero array l j f h v =
      (λ c pos inside. v.edges c pos inside (omega arith), λ test. refl)
  up_loop_restores (suc fuel) array l j f h v = elim (Bool-cases (parent j == j)) [
    | inl top ↦
        rw (top, up_loop) (λ c pos inside. v.edges c pos inside (ground arith), λ test. refl)
    | inr lower ↦ elim (Bool-cases (hooks.less array j (parent j))) [
      | inl less ↦
          let next =
            up_loop_restores fuel (swap undefined array (parent j) j) l (parent j) (ground arith)
              (ground arith)
              (swap-UpInv undefined before laws array l j v (ground arith) h
                (sym (laws.reads array j (parent j)) ∙ less)) in
          rw (lower, less, up_loop)
            (
              next.0,
              λ test.
                  next.1 test ∙ swap-SameItems undefined array (parent j) j l (ground arith) h test,
            )
      | inr settled ↦
          rw (lower, settled, up_loop)
            (
              λ c pos inside. ground (arith, v.edges c pos inside, laws.reads array j (parent j)),
              λ test. refl,
            )
    ]
  ]

  -- An array where the order may fail at one item becomes a heap of the same items.
  pub up_restores :
      (array : List T) (l j : ℕ)
      → j < l
      → UpInv undefined before array l j
      → Restored l array (up undefined hooks array j)
  unfolding up
  up_restores array l j h v = up_loop_restores j array l j (omega arith) h v
