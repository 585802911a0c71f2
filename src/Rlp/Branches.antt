-- ===== src/Rlp/Branches.antt =====
-- What each branch of `_decode` reads from an input that `encodeLength` began.
use mathlib.Core.List.{append_assoc}
use moola_fix.Common.{
  ℕ, suc, ◌+◌, ◌-◌, ◌^◌, ◌≤◌, ◌<◌, ◌≡◌, refl, sym, ap, ◌∙◌, List, [], ◌∷◌, ◌++◌, ok, length, drop,
  slice, get_or, leb, ltb, ◌==◌, ◌&&◌, arith, ltb-false, lt→ltb, leb-false, ==_false, false,
  length-append, take-append_length, drop-append_length,
}
use moola_fix.Rlp.Item.{bytes}
use moola_fix.Rlp.Numbers.{
  number_bytes, decode_length, number_bytes_lem, length-number_bytes, number_bytes_small,
}
use moola_fix.Rlp.Encode.{encode_length}
use moola_fix.Rlp.Decode.{
  safe_slice, decode_short_string, decode_long_string, short_list_parts, long_list_parts,
}

drop-parts : (a b c : List ℕ) (n : ℕ) → n ≡ length a + length b → drop n (a ++ (b ++ c)) ≡ c
drop-parts a b c n h =
    ap (drop n) (sym (append_assoc a b c))
    ∙ drop-append_length (a ++ b) c n (omega (arith, length-append a b))

-- A slice of a string made of three parts.
slice-parts :
    (a b c : List ℕ) (i j : ℕ)
    → i ≡ length a
    → j ≡ length a + length b
    → slice (a ++ (b ++ c)) i j ≡ b
slice-parts a b c i j hi hj =
    rw (drop-append_length a (b ++ c) i hi) (take-append_length b c (j - i) (omega arith))

safe_slice-parts :
    (a b c : List ℕ) (i j : ℕ)
    → i ≡ length a
    → j ≡ length a + length b
    → safe_slice (a ++ (b ++ c)) i j ≡ ok b
unfolding safe_slice
safe_slice-parts a b c i j hi hj =
    rw
      (ltb-false (length (a ++ (b ++ c))) j
        (omega (arith, length-append a (b ++ c), length-append b c)))
      (ap ok (slice-parts a b c i j hi hj))

-- The first byte of a long form, and the bytes of the length behind it.
pub long_prefix :
    (len offset : ℕ)
    → 56 ≤ len
    → len < 256 ^ 8
    → offset ≤ 192
    → encode_length len offset ≡ (offset + 55 + length (number_bytes len)) ∷ number_bytes len
unfolding encode_length
long_prefix len offset h small off = rw (
  ltb-false len 56 h,
  number_bytes_small (offset + 55 + length (number_bytes len))
      (omega (arith, length-number_bytes len 7 small)),
)

pub short_prefix : (len offset : ℕ) → len < 56 → encode_length len offset ≡ (len + offset) ∷ []
unfolding encode_length
short_prefix len offset h = rw (lt→ltb len 56 h)

-- A string of up to 55 bytes, given what the branch reads of its input.
decode_short_string_parts :
    (first_byte : ℕ) (input b rest : List ℕ)
    → (first_byte == 128) ≡ false
    → safe_slice input 1 (first_byte - 127) ≡ ok b
    → (first_byte - 127 == 2 && ltb (get_or b 0 0) 128) ≡ false
    → drop (first_byte - 127) input ≡ rest
    → decode_short_string first_byte input ≡ ok (bytes b, rest)
unfolding decode_short_string
decode_short_string_parts first_byte input b rest some_bytes slice_is prefixed rest_is =
    rw (some_bytes, slice_is, prefixed, rest_is)

pub decode_short_string_lem :
    (b rest : List ℕ)
    → length b < 56
    → (length b == 1 && ltb (get_or b 0 0) 128) ≡ false
    → decode_short_string (length b + 128) ((length b + 128) ∷ (b ++ rest)) ≡ ok (bytes b, rest)
unfolding decode_short_string
decode_short_string_lem [] rest h several = refl
decode_short_string_lem (c ∷ b) rest h several =
    let first_byte = length (c ∷ b) + 128 in
    decode_short_string_parts first_byte (first_byte ∷ c ∷ (b ++ rest)) (c ∷ b) rest
      ((==_false first_byte 128).1 (λ e. omega (arith, e)))
      (safe_slice-parts (first_byte ∷ []) (c ∷ b) rest 1 (first_byte - 127) refl (omega arith))
      (ground (arith, several))
      (drop-append_length (first_byte ∷ c ∷ b) rest (first_byte - 127) (omega arith))

pub decode_length_lem : (n : ℕ) → 0 < n → decode_length (number_bytes n) ≡ ok n
unfolding decode_length
decode_length_lem n h = let (value, front, _, _) = number_bytes_lem n h in rw (front, value)

-- A long string, given what the branch reads of its input.
decode_long_string_parts :
    (first_byte : ℕ) (input digits b rest : List ℕ)
    → ltb (length input - 1) (first_byte - 182) ≡ false
    → safe_slice input 1 (first_byte - 182) ≡ ok digits
    → decode_length digits ≡ ok (length b)
    → leb (length b) 55 ≡ false
    → safe_slice input (first_byte - 182) (length b + (first_byte - 182)) ≡ ok b
    → drop (length b + (first_byte - 182)) input ≡ rest
    → decode_long_string first_byte input ≡ ok (bytes b, rest)
unfolding decode_long_string
decode_long_string_parts first_byte input digits b rest enough digits_are len_is long slice_is
      rest_is =
    rw (enough, digits_are, len_is, long, slice_is, rest_is)

pub decode_long_string_lem :
    (b rest digits : List ℕ)
    → 56 ≤ length b
    → decode_length digits ≡ ok (length b)
    → decode_long_string
        (128 + 55 + length digits)
        ((128 + 55 + length digits) ∷ (digits ++ (b ++ rest)))
      ≡ ok (bytes b, rest)
decode_long_string_lem b rest digits h len_is =
    let first_byte = 128 + 55 + length digits in
    let input = first_byte ∷ (digits ++ (b ++ rest)) in
    let size : length input ≡ suc (length digits + (length b + length rest)) =
      omega (arith, length-append digits (b ++ rest), length-append b rest) in
    decode_long_string_parts first_byte input digits b rest
      (ltb-false (length input - 1) (first_byte - 182) (omega (arith, size)))
      (safe_slice-parts (first_byte ∷ []) digits (b ++ rest) 1 (first_byte - 182) refl
        (omega arith))
      len_is (leb-false (length b) 55 (omega arith))
      (safe_slice-parts (first_byte ∷ digits) b rest (first_byte - 182)
        (length b + (first_byte - 182)) (omega arith) (omega arith))
      (drop-parts (first_byte ∷ digits) b rest (length b + (first_byte - 182)) (omega arith))

-- The two list branches split an input into the part of the items and what follows.
pub short_list_parts_lem :
    (inner rest : List ℕ)
    → length inner < 56
    → short_list_parts (length inner + 192) ((length inner + 192) ∷ (inner ++ rest))
      ≡ ok (inner, rest)
unfolding short_list_parts
short_list_parts_lem inner rest h =
    let first_byte = length inner + 192 in
    rw (
      safe_slice-parts (first_byte ∷ []) inner rest 1 (first_byte - 191) refl (omega arith),
      drop-append_length (first_byte ∷ inner) rest (first_byte - 191) (omega arith),
    )

long_list_parts_parts :
    (first_byte : ℕ) (input digits inner rest : List ℕ)
    → safe_slice input 1 (first_byte - 246) ≡ ok digits
    → decode_length digits ≡ ok (length inner)
    → ltb (length inner) 56 ≡ false
    → ltb (length input) (first_byte - 246 + length inner) ≡ false
    → slice input (first_byte - 246) (first_byte - 246 + length inner) ≡ inner
    → drop (first_byte - 246 + length inner) input ≡ rest
    → long_list_parts first_byte input ≡ ok (inner, rest)
unfolding long_list_parts
long_list_parts_parts first_byte input digits inner rest digits_are len_is long enough slice_is
      rest_is =
    rw (digits_are, len_is, long, enough, slice_is, rest_is)

pub long_list_parts_lem :
    (inner rest digits : List ℕ)
    → 56 ≤ length inner
    → decode_length digits ≡ ok (length inner)
    → long_list_parts
        (192 + 55 + length digits)
        ((192 + 55 + length digits) ∷ (digits ++ (inner ++ rest)))
      ≡ ok (inner, rest)
long_list_parts_lem inner rest digits h len_is =
    let first_byte = 192 + 55 + length digits in
    let input = first_byte ∷ (digits ++ (inner ++ rest)) in
    let total = first_byte - 246 + length inner in
    let size : length input ≡ suc (length digits + (length inner + length rest)) =
      omega (arith, length-append digits (inner ++ rest), length-append inner rest) in
    long_list_parts_parts first_byte input digits inner rest
      (safe_slice-parts (first_byte ∷ []) digits (inner ++ rest) 1 (first_byte - 246) refl
        (omega arith))
      len_is (ltb-false (length inner) 56 h) (ltb-false (length input) total (omega (arith, size)))
      (slice-parts (first_byte ∷ digits) inner rest (first_byte - 246) total (omega arith)
        (omega arith))
      (drop-parts (first_byte ∷ digits) inner rest total (omega arith))
