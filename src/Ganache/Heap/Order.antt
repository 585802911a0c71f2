-- ===== src/Ganache/Heap/Order.antt =====
-- The order of the heap of packages/utils/src/utils/heap.ts, and arrays where it may fail at one item.
use moola_fix.Common.{ℕ, ◌-◌, ◌/◌, ◌≤◌, ◌<◌, ◌≡◌, ◌≢◌, Bool, true, false, List, arith}
use moola_fix.Ganache.Heap.{Hooks, at, swap}
use moola_fix.Ganache.Heap.Arrays.{at-swap}

-- What a comparator has to be: it compares the two items, by a strict weak order.
pub record IsComparator {T : Type 0} (undefined : T) (hooks : Hooks T) (before : T → T → Bool)
    : Type 0 where
  pub reads :
      (array : List T) (i j : ℕ)
      → hooks.less array i j ≡ before (at undefined array i) (at undefined array j)
  pub asym : (x y : T) → before x y ≡ true → before y x ≡ false
  pub trans : (x y z : T) → before y x ≡ false → before z y ≡ false → before z x ≡ false

abbrev pub parent : ℕ → ℕ
parent c = (c - 1) / 2

module _ {T : Type 0} (undefined : T) (before : T → T → Bool) where
  -- The item at `c` does not come before the one at `p`.
  abbrev pub Settled : List T → ℕ → ℕ → Type 0
  Settled array c p = before (at undefined array c) (at undefined array p) ≡ false

  -- No item comes before its parent, for the parents from `lo`.
  abbrev pub IsHeapFrom : ℕ → List T → ℕ → Type 0
  IsHeapFrom lo array l = (c : ℕ) → 0 < c → c < l → lo ≤ parent c → Settled array c (parent c)

  abbrev pub IsHeap : List T → ℕ → Type 0
  IsHeap array l = (c : ℕ) → 0 < c → c < l → Settled array c (parent c)

  -- No child of `i` comes before the parent of `i`.
  abbrev pub IsBridged : ℕ → List T → ℕ → ℕ → Type 0
  IsBridged lo array l i =
      (c : ℕ) → 0 < c → c < l → parent c ≡ i → 0 < i → lo ≤ parent i → Settled array c (parent i)

  -- The order holds but at the children of `i`.
  pub record DownInv (lo : ℕ) (array : List T) (l i : ℕ) : Type 0 where
    pub edges : (c : ℕ) → 0 < c → c < l → lo ≤ parent c → parent c ≢ i → Settled array c (parent c)
    pub bridged : IsBridged lo array l i

  -- The order holds but at `i` and its children.
  pub record FixInv (lo : ℕ) (array : List T) (l i : ℕ) : Type 0 where
    pub edges :
        (c : ℕ) → 0 < c → c < l → lo ≤ parent c → parent c ≢ i → c ≢ i → Settled array c (parent c)
    pub bridged : IsBridged lo array l i

  -- The order holds but at `i`.
  pub record UpInv (array : List T) (l i : ℕ) : Type 0 where
    pub edges : (c : ℕ) → 0 < c → c < l → c ≢ i → Settled array c (parent c)
    pub bridged : IsBridged 0 array l i

  pub DownInv-FixInv :
      (lo : ℕ) (array : List T) (l i : ℕ) → DownInv lo array l i → FixInv lo array l i
  DownInv-FixInv lo array l i v = record {
    edges = λ c pos inside from other self. v.edges c pos inside from other;
    bridged = v.bridged;
  }

  module _ {hooks : Hooks T} (laws : IsComparator undefined hooks before) where
    pub irrefl : (x : T) → before x x ≡ false
    irrefl x = ground (arith, laws.asym x x)

    -- The first child that comes before `i` may go up.
    pub swap-DownInv :
        (lo : ℕ) (array : List T) (l i j : ℕ)
        → FixInv lo array l i
        → 0 < j
        → j < l
        → parent j ≡ i
        → ((c : ℕ) → 0 < c → c < l → parent c ≡ i → Settled array c j)
        → before (at undefined array j) (at undefined array i) ≡ true
        → DownInv lo (swap undefined array i j) l j
    swap-DownInv lo array l i j v pos inside above first less = record {
      edges = λ c c_pos c_inside from other. ground (
        arith,
        at-swap undefined array i j c,
        at-swap undefined array i j (parent c),
        laws.asym (at undefined array j) (at undefined array i) less,
        first c c_pos c_inside,
        v.edges c c_pos c_inside from,
        v.bridged j pos inside above,
      );
      bridged = λ c c_pos c_inside below _ from. ground (
        arith,
        at-swap undefined array i j c,
        at-swap undefined array i j (parent j),
        v.edges c c_pos c_inside,
      );
    }

    -- Where the first child does not come before `i`, no child does.
    pub Settled-children :
        (array : List T) (l i j : ℕ)
        → ((c : ℕ) → 0 < c → c < l → parent c ≡ i → Settled array c j)
        → Settled array j i
        → (c : ℕ) → 0 < c
        → c < l
        → parent c ≡ i
        → Settled array c i
    Settled-children array l i j first settled c pos inside above =
        laws.trans (at undefined array i) (at undefined array j) (at undefined array c) settled
          (first c pos inside above)

    pub swap-UpInv :
        (array : List T) (l j : ℕ)
        → UpInv array l j
        → 0 < j
        → j < l
        → before (at undefined array j) (at undefined array (parent j)) ≡ true
        → UpInv (swap undefined array (parent j) j) l (parent j)
    swap-UpInv array l j v pos inside less =
        let i = parent j in
        let value = at undefined array in
        let not_before : before (value i) (value j) ≡ false = laws.asym (value j) (value i) less in
        record {
          edges = λ c c_pos c_inside other. ground (
            arith,
            at-swap undefined array i j c,
            at-swap undefined array i j (parent c),
            not_before,
            v.edges c c_pos c_inside,
            v.bridged c c_pos c_inside,
            laws.trans (value j) (value i) (value c) not_before,
          );
          bridged = λ c c_pos c_inside above i_pos _. ground (
            arith,
            at-swap undefined array i j c,
            at-swap undefined array i j (parent i),
            v.edges c c_pos c_inside,
            v.edges i i_pos,
            laws.trans (value (parent i)) (value i) (value c),
          );
        }
