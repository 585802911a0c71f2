-- ===== src/Rlp/Calls.antt =====
-- What a call of `_decode` returns on the encoding of a byte array, of an array and of its items.
use mathlib.Core.List.{append_assoc}
use moola_fix.Common.{
  ℕ, suc, ◌+◌, ◌^◌, ◌≤◌, ◌<◌, ◌≡◌, refl, ap, inl, inr, List, [], ◌∷◌, ◌++◌, ok, length, get_or, ltb,
  ◌==◌, ◌&&◌, arith, Bool-cases, ltb→lt, leb-false, le→leb, true, false,
}
use moola_fix.Rlp.Item.{Item, Items, bytes, list, cons}
use moola_fix.Rlp.Numbers.{number_bytes, decode_length, number_bytes_lem, length-number_bytes}
use moola_fix.Rlp.Encode.{encode_length, encode_bytes}
use moola_fix.Rlp.Decode.{decode_fuel, decode_items}
use moola_fix.Rlp.Branches.{
  decode_length_lem, decode_short_string_lem, decode_long_string_lem, short_list_parts_lem,
  long_list_parts_lem, long_prefix, short_prefix,
}

decode_fuel-single :
    (fuel : ℕ) (b rest : List ℕ)
    → (length b == 1 && ltb (get_or b 0 0) 128) ≡ true
    → decode_fuel (suc fuel) (b ++ rest) ≡ ok (bytes b, rest)
unfolding decode_fuel
decode_fuel-single fuel [] rest h = cc
decode_fuel-single fuel (c ∷ []) rest h = rw (le→leb c 127 (ground (arith, h)))
decode_fuel-single fuel (c ∷ d ∷ b) rest h = absurd (ground (arith, h))

decode_fuel-short_string :
    (fuel : ℕ) (b rest : List ℕ)
    → length b < 56
    → (length b == 1 && ltb (get_or b 0 0) 128) ≡ false
    → decode_fuel (suc fuel) ((length b + 128) ∷ (b ++ rest)) ≡ ok (bytes b, rest)
unfolding decode_fuel
decode_fuel-short_string fuel b rest h several =
    rw (leb-false (length b + 128) 127 (omega arith), le→leb (length b + 128) 183 (omega arith))
      (decode_short_string_lem b rest h several)

decode_fuel-long_string :
    (fuel : ℕ) (digits b rest : List ℕ)
    → 56 ≤ length b
    → 0 < length digits
    → length digits ≤ 8
    → decode_length digits ≡ ok (length b)
    → decode_fuel (suc fuel) ((128 + 55 + length digits) ∷ (digits ++ (b ++ rest)))
      ≡ ok (bytes b, rest)
unfolding decode_fuel
decode_fuel-long_string fuel digits b rest h some_digits few_digits len_is =
    rw
      (
        leb-false (128 + 55 + length digits) 127 (omega arith),
        leb-false (128 + 55 + length digits) 183 (omega arith),
        le→leb (128 + 55 + length digits) 191 (omega arith),
      )
      (decode_long_string_lem b rest digits h len_is)

pub decode_fuel-bytes :
    (fuel : ℕ) (b rest : List ℕ)
    → length b < 256 ^ 8
    → decode_fuel (suc fuel) (encode_bytes b ++ rest) ≡ ok (bytes b, rest)
unfolding encode_bytes
decode_fuel-bytes fuel b rest h = elim (Bool-cases (length b == 1 && ltb (get_or b 0 0) 128)) [
  | inl single ↦ rw single (decode_fuel-single fuel b rest single)
  | inr several ↦ rw several (elim (Bool-cases (ltb (length b) 56)) [
    | inl short ↦
        rw (short_prefix (length b) 128 (ltb→lt (length b) 56 short))
          (decode_fuel-short_string fuel b rest (ltb→lt (length b) 56 short) several)
    | inr long ↦
        let big : 56 ≤ length b = ground (arith, long) in
        let digits = number_bytes (length b) in
        let (_, _, some_digits, _) = number_bytes_lem (length b) (omega arith) in
        rw (long_prefix (length b) 128 big h (omega arith), append_assoc digits b rest)
          (decode_fuel-long_string fuel digits b rest big some_digits
            (length-number_bytes (length b) 7 h) (decode_length_lem (length b) (omega arith)))
  ])
]

-- The same for the two list branches, given what the items decode to.
decode_fuel-short_list :
    (fuel : ℕ) (xs : Items) (inner rest : List ℕ)
    → length inner < 56
    → decode_items fuel inner ≡ ok xs
    → decode_fuel (suc fuel) ((length inner + 192) ∷ (inner ++ rest)) ≡ ok (list xs, rest)
unfolding decode_fuel
decode_fuel-short_list fuel xs inner rest h items_are = rw (
  leb-false (length inner + 192) 127 (omega arith),
  leb-false (length inner + 192) 183 (omega arith),
  leb-false (length inner + 192) 191 (omega arith),
  le→leb (length inner + 192) 247 (omega arith),
  short_list_parts_lem inner rest h,
  items_are,
)

decode_fuel-long_list :
    (fuel : ℕ) (xs : Items) (digits inner rest : List ℕ)
    → 56 ≤ length inner
    → 0 < length digits
    → decode_length digits ≡ ok (length inner)
    → decode_items fuel inner ≡ ok xs
    → decode_fuel (suc fuel) ((192 + 55 + length digits) ∷ (digits ++ (inner ++ rest)))
      ≡ ok (list xs, rest)
unfolding decode_fuel
decode_fuel-long_list fuel xs digits inner rest h some_digits len_is items_are = rw (
  leb-false (192 + 55 + length digits) 127 (omega arith),
  leb-false (192 + 55 + length digits) 183 (omega arith),
  leb-false (192 + 55 + length digits) 191 (omega arith),
  leb-false (192 + 55 + length digits) 247 (omega arith),
  long_list_parts_lem inner rest digits h len_is,
  items_are,
)

pub decode_fuel-list :
    (fuel : ℕ) (xs : Items) (inner rest : List ℕ)
    → length inner < 256 ^ 8
    → decode_items fuel inner ≡ ok xs
    → decode_fuel (suc fuel) ((encode_length (length inner) 192 ++ inner) ++ rest)
      ≡ ok (list xs, rest)
decode_fuel-list fuel xs inner rest h items_are = elim (Bool-cases (ltb (length inner) 56)) [
  | inl short ↦
      rw (short_prefix (length inner) 192 (ltb→lt (length inner) 56 short))
        (decode_fuel-short_list fuel xs inner rest (ltb→lt (length inner) 56 short) items_are)
  | inr long ↦
      let big : 56 ≤ length inner = ground (arith, long) in
      let digits = number_bytes (length inner) in
      let (_, _, some_digits, _) = number_bytes_lem (length inner) (omega arith) in
      rw (long_prefix (length inner) 192 big h (omega arith), append_assoc digits inner rest)
        (decode_fuel-long_list fuel xs digits inner rest big some_digits
          (decode_length_lem (length inner) (omega arith)) items_are)
]

pub ==_false_pos : (n : ℕ) → 0 < n → (n == 0) ≡ false
==_false_pos n h = ground arith

pub append-nil : (xs : List ℕ) → xs ++ [] ≡ xs
append-nil [] = refl
append-nil (x ∷ xs) = ap (◌∷◌ x) (append-nil xs)

pub decode_items-cons :
    (fuel : ℕ) (x : Item) (xs : Items) (input rest : List ℕ)
    → 0 < length input
    → decode_fuel fuel input ≡ ok (x, rest)
    → decode_items fuel rest ≡ ok xs
    → decode_items (suc fuel) input ≡ ok (cons x xs)
unfolding decode_items
decode_items-cons fuel x xs input rest h first_is rest_is =
    rw (==_false_pos (length input) h, first_is, rest_is)
