-- ===== src/Trie/Nibbles/Keys.antt =====
-- Keys are written and read back, and matched.
use moola_fix.Common.{
  ℕ, suc, ◌+◌, ◌*◌, ◌/◌, ◌%◌, ◌<◌, ◌≡◌, ◌↔◌, refl, ap, ap₂, subst, inl, inr, Bool, true, false,
  ◌&&◌, List, [], ◌∷◌, length, ltb, ltb-false, ◌⊎◌, ◌==◌, arith, Bool-cases, ==_iff, ==_refl, All,
}
use moola_fix.Common.Bytes.{AllBytes}
use moola_fix.Trie.Nibbles.{
  buffer_to_nibbles, nibbles_to_buffer, Comparison, minus_one, nought, one, compare_loop,
  nibbles_compare, matching_nibble_length, do_keys_match, add_hex_prefix, remove_hex_prefix,
  is_terminator,
}

-- Bytes are read back from their nibbles, which are below 16 and twice as many.
pub nibbles_to_buffer-buffer_to_nibbles :
    (key : List ℕ)
    → AllBytes key
    → (nibbles_to_buffer (buffer_to_nibbles key) ≡ key)
      × (length (buffer_to_nibbles key) ≡ 2 * length key)
      × All (λ n. n < 16) (buffer_to_nibbles key)
unfolding buffer_to_nibbles nibbles_to_buffer
nibbles_to_buffer-buffer_to_nibbles [] h = (refl, omega arith, tt)
nibbles_to_buffer-buffer_to_nibbles (b ∷ key) h =
    let (back, len, small) = nibbles_to_buffer-buffer_to_nibbles key h.1 in
    let byte_back : (b / 16 * 16 + b % 16) % 256 ≡ b = omega (arith, h.0) in
    (ap₂ ◌∷◌ byte_back back, omega (arith, len), (omega (arith, h.0), (omega (arith, h.0), small)))

-- A path with its hex prefix has an even number of nibbles, from which the path and the flag for a
-- leaf are read back.
pub hex_prefix_back :
    (key : List ℕ) (terminator : Bool)
    → (remove_hex_prefix (add_hex_prefix key terminator) ≡ key)
      × (is_terminator (add_hex_prefix key terminator) ≡ terminator)
      × (length (add_hex_prefix key terminator) % 2 ≡ 0)
unfolding remove_hex_prefix add_hex_prefix is_terminator
hex_prefix_back key true = elim (Bool-cases (length key % 2 == 0)) [
  | inl even ↦ rw even (refl, refl, ground (arith, even))
  | inr odd ↦ rw odd (refl, refl, ground (arith, odd))
]
hex_prefix_back key false = elim (Bool-cases (length key % 2 == 0)) [
  | inl even ↦ rw even (refl, refl, ground (arith, even))
  | inr odd ↦ rw odd (refl, refl, ground (arith, odd))
]

matching_same :
    (a b : List ℕ)
    → (matching_nibble_length a b == length a && matching_nibble_length a b == length b) ≡ true
    → a ≡ b
unfolding matching_nibble_length
matching_same [] [] h = refl
matching_same [] (y ∷ b) h = absurd (ground (arith, h))
matching_same (x ∷ a) [] h = absurd (ground (arith, h))
matching_same (x ∷ a) (y ∷ b) h = elim (Bool-cases (x == y)) [
  | inl same ↦ ap₂ ◌∷◌ ((==_iff x y).0 same) (matching_same a b (ground (arith, h, same)))
  | inr other ↦ absurd (ground (arith, h, other))
]

matching_self : (a : List ℕ) → matching_nibble_length a a ≡ length a
unfolding matching_nibble_length
matching_self [] = refl
matching_self (x ∷ a) = rw (==_refl x) (ap suc (matching_self a))

-- Two keys match exactly where they are equal.
pub do_keys_match_iff : (a b : List ℕ) → (do_keys_match a b ≡ true) ↔ (a ≡ b)
unfolding do_keys_match
do_keys_match_iff a b = (
  λ h. matching_same a b h,
  λ e.
      subst
        (λ c.
          (matching_nibble_length a c == length a && matching_nibble_length a c == length c) ≡ true)
        e (ground (arith, matching_self a)),
)

abbrev pub negated : Comparison → Comparison
negated minus_one = one
negated nought = nought
negated one = minus_one

loop-negated : (n1 n2 : List ℕ) → compare_loop n2 n1 ≡ negated (compare_loop n1 n2)
unfolding compare_loop
loop-negated [] [] = refl
loop-negated [] (y ∷ n2) = refl
loop-negated (x ∷ n1) [] = refl
loop-negated (x ∷ n1) (y ∷ n2) = elim (Bool-cases (ltb x y)) [
  | inl less ↦ rw (less, ltb-false y x (ground (arith, less))) refl
  | inr not_less ↦ elim (Bool-cases (ltb y x)) [
    | inl greater ↦ rw (greater, not_less) refl
    | inr equal ↦ rw (equal, not_less) (loop-negated n1 n2)
  ]
]

loop-equal : (n1 n2 : List ℕ) → compare_loop n1 n2 ≡ nought → length n1 ≡ length n2 → n1 ≡ n2
unfolding compare_loop
loop-equal [] [] h l = refl
loop-equal [] (y ∷ n2) h l = absurd (omega (arith, l))
loop-equal (x ∷ n1) [] h l = absurd (omega (arith, l))
loop-equal (x ∷ n1) (y ∷ n2) h l = elim (Bool-cases (ltb x y)) [
  | inl less ↦ absurd (ground (arith, less, h))
  | inr not_less ↦ elim (Bool-cases (ltb y x)) [
    | inl greater ↦ absurd (ground (arith, not_less, greater, h))
    | inr equal ↦
        ap₂ ◌∷◌ (ground (arith, not_less, equal))
          (loop-equal n1 n2 (rw (equal, not_less) at h) (omega (arith, l)))
  ]
]

Comparison-cases : (c : Comparison) → (c ≡ minus_one) ⊎ ((c ≡ nought) ⊎ (c ≡ one))
Comparison-cases minus_one = inl refl
Comparison-cases nought = inr (inl refl)
Comparison-cases one = inr (inr refl)

loop_self : (n : List ℕ) → compare_loop n n ≡ nought
unfolding compare_loop
loop_self [] = refl
loop_self (x ∷ n) = rw (ltb-false x x (omega arith)) (loop_self n)

compare_self : (n : List ℕ) → nibbles_compare n n ≡ nought
unfolding nibbles_compare
compare_self n = ground (arith, loop_self n)

-- `nibblesCompare` is 0 for equal arrays alone, and with its arguments exchanged it turns its sign.
pub nibbles_compare_lem :
    (n1 n2 : List ℕ)
    → (nibbles_compare n2 n1 ≡ negated (nibbles_compare n1 n2))
      × ((nibbles_compare n1 n2 ≡ nought) ↔ (n1 ≡ n2))
unfolding nibbles_compare
nibbles_compare_lem n1 n2 = (
  ground (arith, loop-negated n1 n2),
  (
    ground (arith, loop-equal n1 n2),
    λ e. subst (λ n. nibbles_compare n1 n ≡ nought) e (compare_self n1),
  ),
)
