-- ===== src/Ganache/Heap.antt =====
-- packages/utils/src/utils/heap.ts of ganache-7.4.4: a priority queue in an array. The comparator, the
-- refresher and the value `undefined` are parameters; an item that the refresher changes in place is
-- the item that it returns.
pub mod Arrays
pub mod Order
mod Down
mod Up
pub mod Operations
pub mod Refresh
mod Tests
use moola_fix.Common.{
  length as array_length, ℕ, zero, suc, ◌+◌, ◌-◌, ◌*◌, ◌/◌, Bool, true, false, List, [], ◌∷◌, ltb,
  ◌==◌, if◌then◌else◌, ◌&&◌,
}

pub record Heap (T : Type 0) : Type 0 where
  pub length : ℕ
  pub array : List T

-- `Comparator`, and `refresher` for one context.
pub record Hooks (T : Type 0) : Type 0 where
  pub less : List T → ℕ → ℕ → Bool
  pub refresher : T → T

module _ {T : Type 0} (undefined : T) where
  -- `array[i]`
  abbrev pub at : List T → ℕ → T
  at [] i = undefined
  at (x ∷ array) zero = x
  at (x ∷ array) (suc i) = at array i

  -- `array[i] = value`, where a write past the end leaves holes.
  abbrev pub assign : List T → ℕ → T → List T
  assign [] zero value = value ∷ []
  assign [] (suc i) value = undefined ∷ assign [] i value
  assign (x ∷ array) zero value = value ∷ array
  assign (x ∷ array) (suc i) value = x ∷ assign array i value

  unfoldable pub swap : List T → ℕ → ℕ → List T
  swap array i j = let first = at array i in assign (assign array i (at array j)) j first

  module _ (hooks : Hooks T) where
    -- The loop of `up`. The quotient of `j - 1` is 0 for a `j` of 0, as `(-1 / 2) | 0` is.
    unfoldable pub up_loop : ℕ → List T → ℕ → List T
    up_loop zero array j = array
    up_loop (suc fuel) array j =
        let i = (j - 1) / 2 in
        elim (i == j) [
          | true ↦ array
          | false ↦ elim (hooks.less array j i) [
            | true ↦ up_loop fuel (swap array i j) i
            | false ↦ array
          ]
        ]

    unfoldable pub up : List T → ℕ → List T
    up array j = up_loop j array j

    -- The child that `down` compares with its parent.
    unfoldable pub child : List T → ℕ → ℕ → ℕ
    child array i l =
        let j1 = 2 * i + 1 in
        let j2 = j1 + 1 in if ltb j2 l && hooks.less array j2 j1 then j2 else j1

    -- The loop of `down`: the array, and where the item has come to.
    unfoldable pub down_loop : ℕ → List T → ℕ → ℕ → List T × ℕ
    down_loop zero array i l = (array, i)
    down_loop (suc fuel) array i l = elim (ltb (2 * i + 1) l) [
      | true ↦
          let j = child array i l in
          elim (hooks.less array j i) [
            | true ↦ down_loop fuel (swap array i j) j l
            | false ↦ (array, i)
          ]
      | false ↦ (array, i)
    ]

    unfoldable pub down : List T → ℕ → ℕ → Bool × List T
    down array i0 l = let (array', i) = down_loop l array i0 l in (ltb i0 i, array')

    -- The loop of `init`, from `i - 1` down to 0.
    unfoldable pub init_loop : ℕ → List T → ℕ → List T
    init_loop zero array l = array
    init_loop (suc i) array l = init_loop i (down array i l).1 l

    unfoldable pub init : List T → Heap T
    init array =
        let l = array_length array in record { length = l; array = init_loop (l / 2) array l }

    -- The first loop of `refresh`, for `rounds` positions from `i`.
    unfoldable pub refresh_leaves : ℕ → ℕ → List T → List T
    refresh_leaves zero i array = array
    refresh_leaves (suc rounds) i array =
        refresh_leaves rounds (i + 1) (assign array i (hooks.refresher (at array i)))

    -- Its second loop, from `i - 1` down to 0.
    unfoldable pub refresh_loop : ℕ → List T → ℕ → List T
    refresh_loop zero array l = array
    refresh_loop (suc i) array l =
        refresh_loop i (down (assign array i (hooks.refresher (at array i))) i l).1 l

    unfoldable pub refresh : Heap T → Heap T
    refresh heap =
        let mid = heap.length / 2 in
        record heap {
          array = refresh_loop mid (refresh_leaves (heap.length - mid) mid heap.array) heap.length;
        }

    unfoldable pub push : T → Heap T → Heap T
    push value heap =
        let i = heap.length in record { length = i + 1; array = up (assign heap.array i value) i }

    unfoldable pub peek : Heap T → T
    peek heap = at heap.array 0

    unfoldable pub clear : Heap T → Heap T
    clear heap = record { length = 0; array = [] }

    unfoldable pub shift : Heap T → T × Heap T
    shift heap =
        if heap.length == 0
        then (undefined, heap)
        else if heap.length == 1
        then (at heap.array 0, clear heap)
        else let new_length = heap.length - 1 in
          (
            at heap.array 0,
            record {
              length = new_length;
              array = (down (assign heap.array 0 (at heap.array new_length)) 0 new_length).1;
            },
          )

    unfoldable pub replace_best : T → Heap T → Heap T
    replace_best new_value heap = record heap {
      array = (down (assign heap.array 0 new_value) 0 heap.length).1;
    }

    -- `if (!this.down(i, l)) this.up(i)`
    unfoldable pub down_or_up : List T → ℕ → ℕ → List T
    down_or_up array i l =
        let (moved, array') = down array i l in if moved then array' else up array' i

    unfoldable pub fix : ℕ → Heap T → Heap T
    fix i heap = record heap { array = down_or_up heap.array i heap.length }

    unfoldable pub replace : ℕ → T → Heap T → Heap T
    replace i new_value heap = fix i (record heap { array = assign heap.array i new_value })

    -- For a position below the length.
    unfoldable pub remove : ℕ → Heap T → Heap T
    remove i heap =
        let new_length = heap.length - 1 in
        record {
          length = new_length;
          array =
              if new_length == i
              then heap.array
              else down_or_up (swap heap.array i new_length) i new_length;
        }

    -- For a heap that is not empty.
    unfoldable pub remove_best : Heap T → Bool × Heap T
    remove_best heap =
        if heap.length == 1
        then (false, clear heap)
        else let new_length = heap.length - 1 in
          (
            true,
            record {
              length = new_length;
              array = (down (assign heap.array 0 (at heap.array new_length)) 0 new_length).1;
            },
          )

  unfoldable pub from : T → Heap T
  from item = record { length = 1; array = item ∷ [] }
