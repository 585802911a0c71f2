-- ===== src/Trie/Nibbles.antt =====
-- packages/trie/src/util/nibbles.ts and hex.ts: keys as arrays of nibbles, and their prefixes.
pub mod Keys
mod Tests
use moola_fix.Common.{
  ℕ, suc, ◌+◌, ◌*◌, ◌/◌, ◌%◌, Bool, ◌&&◌, List, [], ◌∷◌, length, drop, get_or, ltb, ◌==◌,
  if◌then◌else◌,
}

-- `bufferToNibbles`
unfoldable pub buffer_to_nibbles : List ℕ → List ℕ
buffer_to_nibbles [] = []
buffer_to_nibbles (b ∷ key) = b / 16 ∷ b % 16 ∷ buffer_to_nibbles key

-- `nibblesToBuffer`; a `Buffer` keeps the low eight bits of what is written to it, and the length of
-- an array of odd length is rounded down.
unfoldable pub nibbles_to_buffer : List ℕ → List ℕ
nibbles_to_buffer [] = []
nibbles_to_buffer (n ∷ []) = []
nibbles_to_buffer (high ∷ low ∷ nibbles) = (high * 16 + low) % 256 ∷ nibbles_to_buffer nibbles

-- The results -1, 0 and 1 of `nibblesCompare`.
pub data Comparison : Type 0 where
  minus_one nought one : Comparison

-- The loop of `nibblesCompare`, as far as both arrays go.
unfoldable pub compare_loop : List ℕ → List ℕ → Comparison
compare_loop [] n2 = nought
compare_loop (x ∷ n1) [] = nought
compare_loop (x ∷ n1) (y ∷ n2) =
    let rest = compare_loop n1 n2 in if ltb x y then minus_one else if ltb y x then one else rest

-- `nibblesCompare`
unfoldable pub nibbles_compare : List ℕ → List ℕ → Comparison
unfolding compare_loop
nibbles_compare n1 n2 = elim (compare_loop n1 n2) [
  | minus_one ↦ minus_one
  | one ↦ one
  | nought ↦
      if ltb (length n1) (length n2)
      then minus_one
      else if ltb (length n2) (length n1)
      then one
      else nought
]

-- `matchingNibbleLength`; beyond its end an array holds `undefined`, which is no nibble.
unfoldable pub matching_nibble_length : List ℕ → List ℕ → ℕ
matching_nibble_length [] nib2 = 0
matching_nibble_length (x ∷ nib1) [] = 0
matching_nibble_length (x ∷ nib1) (y ∷ nib2) =
    let rest = matching_nibble_length nib1 nib2 in if x == y then suc rest else 0

-- `doKeysMatch`
unfoldable pub do_keys_match : List ℕ → List ℕ → Bool
unfolding matching_nibble_length
do_keys_match key_a key_b =
    let len = matching_nibble_length key_a key_b in len == length key_a && len == length key_b

-- `addHexPrefix`, which returns the array that it is given, changed in place.
unfoldable pub add_hex_prefix : List ℕ → Bool → List ℕ
add_hex_prefix key terminator =
    let flag = if terminator then 2 else 0 in
    if length key % 2 == 0 then (0 + flag) ∷ 0 ∷ key else (1 + flag) ∷ key

-- `removeHexPrefix`
unfoldable pub remove_hex_prefix : List ℕ → List ℕ
remove_hex_prefix val = if get_or val 0 0 % 2 == 0 then drop 2 val else drop 1 val

-- `isTerminator`
unfoldable pub is_terminator : List ℕ → Bool
is_terminator key = ltb 1 (get_or key 0 0)
