-- ===== src/Ganache/Heap/Down.antt =====
-- `down` of packages/utils/src/utils/heap.ts, and `fix`, which may go either way.
use moola_fix.Common.{
  ℕ, zero, suc, ◌+◌, ◌*◌, ◌≤◌, ◌<◌, ◌≡◌, refl, ◌∙◌, sym, ◌⊎◌, inl, inr, Bool, true, false, List,
  arith, Bool-cases, ltb, ltb-false, lt→ltb,
}
use moola_fix.Ganache.Heap.{Hooks, at, swap, child, down_loop, down, down_or_up, up}
use moola_fix.Ganache.Heap.Arrays.{at-swap, SameItems, swap-SameItems}
use moola_fix.Ganache.Heap.Order.{
  IsComparator, parent, Settled, IsHeapFrom, DownInv, FixInv, UpInv, DownInv-FixInv, irrefl,
  swap-DownInv, Settled-children,
}
use moola_fix.Ganache.Heap.Up.{Restored, up_restores}

module _ {T : Type 0} (undefined : T) (hooks : Hooks T) (before : T → T → Bool)
    (laws : IsComparator undefined hooks before) where
  -- The child that `down` picks is the first of the children.
  record IsFirstChild (array : List T) (l i j : ℕ) : Type 0 where
    pub pos : 0 < j
    pub inside : j < l
    pub above : parent j ≡ i
    pub first : (c : ℕ) → 0 < c → c < l → parent c ≡ i → Settled undefined before array c j

  child-IsFirstChild :
      (array : List T) (l i : ℕ)
      → 2 * i + 1 < l
      → IsFirstChild array l i (child undefined hooks array i l)
  unfolding child
  child-IsFirstChild array l i h =
      let j1 = 2 * i + 1 in
      let j2 = j1 + 1 in
      let value = at undefined array in
      let read = laws.reads array j2 j1 in
      let asym = laws.asym (value j2) (value j1) in
      record {
        pos = ground arith;
        inside = ground arith;
        above = ground arith;
        first = λ c pos inside above.
            let which : (c ≡ j1) ⊎ (c ≡ j2) = omega arith in
            ground (
              arith,
              which,
              read,
              asym,
              irrefl undefined before laws (value j1),
              irrefl undefined before laws (value j2),
            );
      }

  -- What `down` makes of an array.
  abbrev pub Lowered : ℕ → List T → ℕ → ℕ → List T × ℕ → Type 0
  Lowered lo array l i r =
      IsHeapFrom undefined before lo r.0 l × SameItems undefined l r.0 array × (i ≤ r.1)

  -- A step down leaves the order to fail at the children of the child alone.
  step-DownInv :
      (lo : ℕ) (array : List T) (l i j : ℕ)
      → FixInv undefined before lo array l i
      → IsFirstChild array l i j
      → hooks.less array j i ≡ true
      → DownInv undefined before lo (swap undefined array i j) l j
  step-DownInv lo array l i j v picked less =
      swap-DownInv undefined before laws lo array l i j v picked.pos picked.inside picked.above
        picked.first (sym (laws.reads array j i) ∙ less)

  -- Where `down` does not move an item, its children are in order.
  stopped :
      (array : List T) (l i j : ℕ)
      → IsFirstChild array l i j
      → hooks.less array j i ≡ false
      → (c : ℕ) → 0 < c
      → c < l
      → parent c ≡ i
      → Settled undefined before array c i
  stopped array l i j picked settled =
      Settled-children undefined before laws array l i j picked.first
        (sym (laws.reads array j i) ∙ settled)

  pub down_loop_restores :
      (fuel lo : ℕ) (array : List T) (l i : ℕ)
      → l ≤ i + fuel
      → DownInv undefined before lo array l i
      → Lowered lo array l i (down_loop undefined hooks fuel array i l)
  unfolding down_loop
  down_loop_restores zero lo array l i f v =
      (λ c pos inside from. v.edges c pos inside from (omega arith), λ test. refl, omega arith)
  down_loop_restores (suc fuel) lo array l i f v = elim (Bool-cases (ltb (2 * i + 1) l)) [
    | inr leaf ↦
        rw (leaf, down_loop)
          (λ c pos inside from. v.edges c pos inside from (ground arith), λ test. refl, omega arith)
    | inl more ↦
        let j = child undefined hooks array i l in
        let picked = child-IsFirstChild array l i (ground arith) in
        elim (Bool-cases (hooks.less array j i)) [
          | inl less ↦
              let (order, items, further) =
                down_loop_restores fuel lo (swap undefined array i j) l j
                  (omega (arith, picked.above, picked.pos))
                  (step-DownInv lo array l i j (DownInv-FixInv undefined before lo array l i v)
                    picked less) in
              rw (more, less, down_loop)
                (
                  order,
                  λ test.
                      items test
                      ∙ swap-SameItems undefined array i j l (omega arith) picked.inside test,
                  omega (arith, picked.above, picked.pos),
                )
          | inr settled ↦
              rw (more, settled, down_loop)
                (
                  λ c pos inside from. ground (
                    arith,
                    v.edges c pos inside from,
                    stopped array l i j picked settled c pos inside,
                  ),
                  λ test. refl,
                  omega arith,
                )
        ]
  ]

  -- The positions above the item stay as they are.
  down_loop_above :
      (fuel : ℕ) (array : List T) (l i k : ℕ)
      → k < i
      → at undefined (down_loop undefined hooks fuel array i l).0 k ≡ at undefined array k
  unfolding down_loop
  down_loop_above zero array l i k h = refl
  down_loop_above (suc fuel) array l i k h = elim (Bool-cases (ltb (2 * i + 1) l)) [
    | inr leaf ↦ rw (leaf, down_loop) refl
    | inl more ↦
        let j = child undefined hooks array i l in
        let picked = child-IsFirstChild array l i (ground arith) in
        let below : i < j = omega (arith, picked.above, picked.pos) in
        elim (Bool-cases (hooks.less array j i)) [
          | inl less ↦
              rw (more, less, down_loop)
                (down_loop_above fuel (swap undefined array i j) l j k (omega arith)
                  ∙ ground (arith, at-swap undefined array i j k))
          | inr settled ↦ rw (more, settled, down_loop) refl
        ]
  ]

  pub down_above :
      (array : List T) (l i k : ℕ)
      → k < i
      → at undefined (down undefined hooks array i l).1 k ≡ at undefined array k
  unfolding down
  down_above array l i k h = down_loop_above l array l i k h

  -- `down` makes a heap of an array where the order may fail at the children of one item.
  pub down_restores :
      (lo : ℕ) (array : List T) (l i : ℕ)
      → DownInv undefined before lo array l i
      → IsHeapFrom undefined before lo (down undefined hooks array i l).1 l
        × SameItems undefined l (down undefined hooks array i l).1 array
  unfolding down
  down_restores lo array l i v =
      let (order, items, _) = down_loop_restores l lo array l i (omega arith) v in (order, items)

  FixInv-UpInv :
      (array : List T) (l i : ℕ)
      → FixInv undefined before 0 array l i
      → ((c : ℕ) → 0 < c → c < l → parent c ≡ i → Settled undefined before array c i)
      → UpInv undefined before array l i
  FixInv-UpInv array l i v children = record {
    edges = λ c pos inside other. ground (arith, v.edges c pos inside, children c pos inside);
    bridged = v.bridged;
  }

  -- What the loop makes of an array where the order may fail at one item and at its children: it leaves
  -- the array where the children are in order, and makes a heap where they are not.
  down_loop-cases :
      (lo fuel : ℕ) (array : List T) (l i : ℕ)
      → i < l
      → l ≤ fuel
      → FixInv undefined before lo array l i
      → ((down_loop undefined hooks fuel array i l ≡ (array, i))
          × ((c : ℕ) → 0 < c → c < l → parent c ≡ i → Settled undefined before array c i))
        ⊎ ((i < (down_loop undefined hooks fuel array i l).1)
            × Lowered lo array l i (down_loop undefined hooks fuel array i l))
  unfolding down_loop
  down_loop-cases lo zero array l i h f v = absurd (omega arith)
  down_loop-cases lo (suc fuel) array l i h f v = elim (Bool-cases (ltb (2 * i + 1) l)) [
    | inr leaf ↦ inl (rw (leaf, down_loop) refl, λ c pos inside above. absurd (ground arith))
    | inl more ↦
        let j = child undefined hooks array i l in
        let picked = child-IsFirstChild array l i (ground arith) in
        let j_above : i < j = omega (arith, picked.above, picked.pos) in
        elim (Bool-cases (hooks.less array j i)) [
          | inl less ↦
              let (order, items, further) =
                down_loop_restores fuel lo (swap undefined array i j) l j (omega arith)
                  (step-DownInv lo array l i j v picked less) in
              let moved : i < (down_loop undefined hooks fuel (swap undefined array i j) j l).1 =
                omega arith in
              inr (
                rw (more, less, down_loop)
                  (
                    moved,
                    (
                      order,
                      λ test.
                          items test ∙ swap-SameItems undefined array i j l h picked.inside test,
                      omega arith,
                    ),
                  ))
          | inr settled ↦
              inl (rw (more, settled, down_loop) refl, stopped array l i j picked settled)
        ]
  ]

  down_or_up_stays :
      (array : List T) (l i : ℕ)
      → down_loop undefined hooks l array i l ≡ (array, i)
      → down_or_up undefined hooks array i l ≡ up undefined hooks array i
  unfolding down_or_up down
  down_or_up_stays array l i e = rw (e, ltb-false i i (omega arith)) refl

  down_or_up_moves :
      (array : List T) (l i : ℕ)
      → i < (down_loop undefined hooks l array i l).1
      → down_or_up undefined hooks array i l ≡ (down_loop undefined hooks l array i l).0
  unfolding down_or_up down
  down_or_up_moves array l i h = rw (lt→ltb i (down_loop undefined hooks l array i l).1 h) refl

  -- `fix` makes a heap of an array where the order may fail at one item and at its children.
  pub down_or_up_restores :
      (array : List T) (l i : ℕ)
      → i < l
      → FixInv undefined before 0 array l i
      → Restored undefined hooks before laws l array (down_or_up undefined hooks array i l)
  down_or_up_restores array l i h v = elim (down_loop-cases 0 l array l i h (omega arith) v) [
    | inl (same, children) ↦
        rw (down_or_up_stays array l i same)
          (up_restores undefined hooks before laws array l i h (FixInv-UpInv array l i v children))
    | inr (moved, lowered) ↦
        let (order, items, _) = lowered in
        rw (down_or_up_moves array l i moved)
          (λ c pos inside. order c pos inside (omega arith), items)
  ]
