-- ===== src/Ganache/Heap/Arrays.antt =====
-- Reads, writes and swaps of the array of packages/utils/src/utils/heap.ts, and its items counted.
use moola_fix.Common.{
  ℕ, zero, suc, ◌+◌, ◌<◌, ◌≤◌, ◌≡◌, refl, ap, ◌⊎◌, inl, inr, Bool, List, [], ◌∷◌, ◌==◌,
  if◌then◌else◌, arith,
}
use moola_fix.Ganache.Heap.{at, assign, swap}

module _ {T : Type 0} (undefined : T) where
  pub at-assign :
      (array : List T) (i k : ℕ) (v : T)
      → at undefined (assign undefined array i v) k ≡ (if i == k then v else at undefined array k)
  at-assign [] zero zero v = refl
  at-assign [] zero (suc k) v = ground arith
  at-assign [] (suc i) zero v = ground arith
  at-assign [] (suc i) (suc k) v = ground (arith, at-assign [] i k v)
  at-assign (x ∷ array) zero zero v = refl
  at-assign (x ∷ array) zero (suc k) v = ground arith
  at-assign (x ∷ array) (suc i) zero v = ground arith
  at-assign (x ∷ array) (suc i) (suc k) v = ground (arith, at-assign array i k v)

  pub at-swap :
      (array : List T) (i j k : ℕ)
      → at undefined (swap undefined array i j) k ≡ (
          if j == k
          then at undefined array i
          else if i == k
          then at undefined array j
          else at undefined array k)
  unfolding swap
  at-swap array i j k = ground (
    arith,
    at-assign (assign undefined array i (at undefined array j)) j k (at undefined array i),
    at-assign array i k (at undefined array j),
  )

  abbrev bit_of : Bool → ℕ
  bit_of b = if b then 1 else 0

  -- How many of the first `l` items pass a test.
  abbrev pub tally : (T → Bool) → List T → ℕ → ℕ
  tally test array zero = 0
  tally test array (suc l) = bit_of (test (at undefined array l)) + tally test array l

  -- Arrays have the same items among the first `l`, as often as each other.
  abbrev pub SameItems : ℕ → List T → List T → Type 0
  SameItems l array array' = (test : T → Bool) → tally test array l ≡ tally test array' l

  pub tally-assign_past :
      (test : T → Bool) (array : List T) (i l : ℕ) (v : T)
      → l ≤ i
      → tally test (assign undefined array i v) l ≡ tally test array l
  tally-assign_past test array i zero v h = refl
  tally-assign_past test array i (suc l) v h =
      ground (arith, at-assign array i l v, tally-assign_past test array i l v (ground arith))

  pub tally-assign :
      (test : T → Bool) (array : List T) (i l : ℕ) (v : T)
      → i < l
      → bit_of (test (at undefined array i)) + tally test (assign undefined array i v) l
        ≡ bit_of (test v) + tally test array l
  tally-assign test array i zero v h = absurd (omega arith)
  tally-assign test array i (suc l) v h = elim (split i l h) [
    | inl e ↦ ground (
      arith,
      at-assign array i l v,
      tally-assign_past test array i l v (omega arith),
      ap (λ (k : ℕ). test (at undefined array k)) e,
    )
    | inr below ↦ ground (arith, at-assign array i l v, tally-assign test array i l v below)
  ]
    where
      split : (i l : ℕ) → i < suc l → (i ≡ l) ⊎ (i < l)
      split i l h = ground arith

  pub swap-SameItems :
      (array : List T) (i j l : ℕ) → i < l → j < l → SameItems l (swap undefined array i j) array
  unfolding swap
  swap-SameItems array i j l hi hj test = ground (
    arith,
    tally-assign test (assign undefined array i (at undefined array j)) j l (at undefined array i)
        hj,
    tally-assign test array i l (at undefined array j) hi,
    at-assign array i j (at undefined array j),
  )
