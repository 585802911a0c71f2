-- ===== src/Trie/Nibbles/Tests.antt =====
-- Concrete keys, and the theorems applied to them.
use moola_fix.Common.{ℕ, ◌*◌, ◌%◌, ◌<◌, ◌≡◌, refl, true, List, [], ◌∷◌, length, arith, All}
use moola_fix.Trie.Nibbles.{
  buffer_to_nibbles, nibbles_to_buffer, minus_one, compare_loop, nibbles_compare, add_hex_prefix,
  remove_hex_prefix, is_terminator,
}
use moola_fix.Trie.Nibbles.Keys.{nibbles_to_buffer-buffer_to_nibbles, hex_prefix_back}

abbrev key : List ℕ
key = 0x12 ∷ 0xf0 ∷ []

buffer_to_nibbles_test : buffer_to_nibbles key ≡ 1 ∷ 2 ∷ 15 ∷ 0 ∷ []
unfolding buffer_to_nibbles
buffer_to_nibbles_test = refl

add_hex_prefix_test : add_hex_prefix (1 ∷ 2 ∷ 3 ∷ []) true ≡ 3 ∷ 1 ∷ 2 ∷ 3 ∷ []
unfolding add_hex_prefix
add_hex_prefix_test = refl

-- The first array is less, and the result is -1.
nibbles_compare_test : nibbles_compare (1 ∷ []) (2 ∷ []) ≡ minus_one
unfolding nibbles_compare compare_loop
nibbles_compare_test = refl

nibbles_back_example :
    (nibbles_to_buffer (buffer_to_nibbles key) ≡ key)
    × (length (buffer_to_nibbles key) ≡ 2 * length key)
    × All (λ n. n < 16) (buffer_to_nibbles key)
nibbles_back_example = nibbles_to_buffer-buffer_to_nibbles key (omega arith, (omega arith, tt))

hex_prefix_back_example :
    (remove_hex_prefix (add_hex_prefix (5 ∷ []) true) ≡ 5 ∷ [])
    × (is_terminator (add_hex_prefix (5 ∷ []) true) ≡ true)
    × (length (add_hex_prefix (5 ∷ []) true) % 2 ≡ 0)
hex_prefix_back_example = hex_prefix_back (5 ∷ []) true

abbrev lower : List ℕ
lower = 1 ∷ []

abbrev higher : List ℕ
higher = 2 ∷ []
