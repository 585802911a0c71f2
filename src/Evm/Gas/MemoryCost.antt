-- ===== src/Evm/Gas/MemoryCost.antt =====
-- What a call pays for its memory in all.
use native.Mathlib.Nat.{mul-le-mul, mul-lt-mul_of_pos_left, mul_comm}
use moola_fix.Common.{
  div_mono, lt→ltb, ap, ℕ, ◌+◌, ◌*◌, ◌/◌, ◌≤◌, ◌<◌, ◌≡◌, refl, max, List, [], ◌∷◌, arith, leb, ◌==◌,
  if◌then◌else◌, inl, inr, Bool-cases,
}
use moola_fix.Evm.Gas.{MemoryPrices, MemoryMeter, div_ceil, sub_mem_usage}

-- The price of a memory of this many words.
abbrev pub price : MemoryPrices → ℕ → ℕ
price p words = words * p.memory + words * words / p.quad_coeff_div

-- The words that an access needs.
abbrev pub words_for : ℕ → ℕ → ℕ
words_for offset len = if len == 0 then 0 else (offset + len + 31) / 32

-- The meter has charged for the words that it counts.
abbrev pub IsPaid : MemoryPrices → MemoryMeter → Type 0
IsPaid p m = m.highest_mem_cost ≡ price p m.memory_word_count

div_ceil_lem : (n : ℕ) → div_ceil n 32 ≡ (n + 31) / 32
unfolding div_ceil
div_ceil_lem n = ground arith

-- With a price on a word, more words are dearer.
price_mono :
    (p : MemoryPrices) (a b : ℕ)
    → 0 < p.memory
    → 0 < p.quad_coeff_div
    → a < b
    → price p a < price p b
price_mono p a b some_price pos h = omega (
  arith,
  mul-lt-mul_of_pos_left h some_price,
  mul_comm p.memory a,
  mul_comm p.memory b,
  div_mono (a * a) (b * b) p.quad_coeff_div pos (mul-le-mul (le_of h) (le_of h)),
)
  where
    le_of : a < b → a ≤ b
    le_of h = omega arith

-- One access, by the words that it needs.
sub_mem_usage_lem :
    (p : MemoryPrices) (offset len : ℕ) (m : MemoryMeter)
    → 0 < p.memory
    → 0 < p.quad_coeff_div
    → IsPaid p m
    → IsPaid p (sub_mem_usage p offset len m).1
      × ((sub_mem_usage p offset len m).1.memory_word_count
          ≡ max m.memory_word_count (words_for offset len))
      × ((sub_mem_usage p offset len m).0 + price p m.memory_word_count
          ≡ price p (max m.memory_word_count (words_for offset len)))
unfolding sub_mem_usage
sub_mem_usage_lem p offset len m some_price pos paid = elim (Bool-cases (len == 0)) [
  | inl nothing ↦
      let same : max m.memory_word_count 0 ≡ m.memory_word_count = omega arith in
      rw (nothing, same) (paid, refl, omega arith)
  | inr bytes ↦
      let rounded = div_ceil_lem (offset + len) in
      elim (Bool-cases (leb (div_ceil (offset + len) 32) m.memory_word_count)) [
        | inl fits ↦
            let same : max m.memory_word_count ((offset + len + 31) / 32) ≡ m.memory_word_count =
              ground (arith, rounded, fits) in
            rw (bytes, fits, same) (paid, refl, omega arith)
        | inr grows ↦
            let words = div_ceil (offset + len) 32 in
            let more : m.memory_word_count < words = ground (arith, grows) in
            let new : max m.memory_word_count ((offset + len + 31) / 32) ≡ words =
              omega (arith, rounded, more) in
            let dearer = price_mono p m.memory_word_count words some_price pos more in
            rw
              (
                bytes,
                grows,
                new,
                lt→ltb m.highest_mem_cost (price p words) (omega (arith, paid, dearer)),
              )
              (refl, refl, omega (arith, paid, dearer))
      ]
]

-- The charges of these accesses in turn, each an offset and a length.
unfoldable pub charge_all : MemoryPrices → List (ℕ × ℕ) → MemoryMeter → ℕ × MemoryMeter
charge_all p [] m = (0, m)
charge_all p ((offset, len) ∷ accesses) m =
    let (first, m') = sub_mem_usage p offset len m in
    let (rest, m'') = charge_all p accesses m' in (first + rest, m'')

-- The most words that one of the accesses needs.
abbrev pub most_words : List (ℕ × ℕ) → ℕ → ℕ
most_words [] words = words
most_words ((offset, len) ∷ accesses) words = most_words accesses (max words (words_for offset len))

-- With prices above zero and a meter that has charged for the words that it counts, the charges of a
-- sequence of accesses add up to the difference in price between the memory before and the most
-- words that the memory or one of the accesses needs, in whichever order and however often memory is
-- accessed; and the meter has then charged for the words that it counts.
pub charge_all-price :
    (p : MemoryPrices) (accesses : List (ℕ × ℕ)) (m : MemoryMeter)
    → 0 < p.memory
    → 0 < p.quad_coeff_div
    → IsPaid p m
    → IsPaid p (charge_all p accesses m).1
      × ((charge_all p accesses m).0 + price p m.memory_word_count
          ≡ price p (most_words accesses m.memory_word_count))
unfolding charge_all
charge_all-price p [] m some_price pos paid = (paid, omega arith)
charge_all-price p ((offset, len) ∷ accesses) m some_price pos paid =
    let m' = (sub_mem_usage p offset len m).1 in
    let (paid', words, first) = sub_mem_usage_lem p offset len m some_price pos paid in
    let (paid'', rest) = charge_all-price p accesses m' some_price pos paid' in
    (
      paid'',
      omega
          (arith, first, rest, ap (price p) words, ap (λ n. price p (most_words accesses n)) words),
    )
