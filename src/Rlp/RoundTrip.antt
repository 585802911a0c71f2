-- ===== src/Rlp/RoundTrip.antt =====
-- Decoding an encoding gives back what was encoded.
use moola_fix.Common.{
  ℕ, zero, suc, ◌+◌, ◌*◌, ◌^◌, ◌≤◌, ◌<◌, ◌≡◌, refl, sym, ap, ◌∙◌, inl, inr, List, [], ◌++◌, ok,
  length, get_or, ltb, ◌==◌, ◌&&◌, arith, Bool-cases, length-append, max,
}
use moola_fix.Common.Bytes.{AllBytes}
use moola_fix.Rlp.Item.{Item, Items, bytes, list, nil, cons}
use moola_fix.Rlp.Numbers.{number_bytes, number_bytes_lem}
use moola_fix.Rlp.Encode.{encode_length, encode_bytes, encode, encode_all}
use moola_fix.Rlp.Decode.{decode_fuel, decode_items, decode}
use moola_fix.Rlp.Calls.{
  decode_fuel-bytes, decode_fuel-list, decode_items-cons, ==_false_pos, append-nil,
}

-- An item that a client of the library can hold: its bytes are bytes, and no length needs more than
-- the eight bytes that a prefix can announce.
unfoldable mutual
  pub Fits : Item → Type 0
  Fits (bytes b) = AllBytes b × (length b < 256 ^ 8)
  Fits (list xs) = (length (encode_all xs) < 256 ^ 8) × FitsAll xs

  pub FitsAll : Items → Type 0
  FitsAll nil = Unit
  FitsAll (cons x xs) = Fits x × FitsAll xs

-- The depth of fuel that decoding an item takes.
unfoldable mutual
  size : Item → ℕ
  size (bytes b) = 1
  size (list xs) = suc (size_all xs)

  size_all : Items → ℕ
  size_all nil = 1
  size_all (cons x xs) = suc (max (size x) (size_all xs))

encode_length-pos : (len offset : ℕ) → 0 < length (encode_length len offset)
unfolding encode_length
encode_length-pos len offset = elim (Bool-cases (ltb len 56)) [
  | inl short ↦ rw short (omega arith)
  | inr long ↦
      let (_, _, some_digits, _) = number_bytes_lem len (ground (arith, long)) in
      rw long (
        omega (
          arith,
          some_digits,
          length-append (number_bytes (offset + 55 + length (number_bytes len))) (number_bytes len),
        ))
]

encode_bytes-pos : (b : List ℕ) → 0 < length (encode_bytes b)
unfolding encode_bytes
encode_bytes-pos b = elim (Bool-cases (length b == 1 && ltb (get_or b 0 0) 128)) [
  | inl single ↦ rw single (ground (arith, single))
  | inr several ↦ rw several (
      omega
        (arith, length-append (encode_length (length b) 128) b, encode_length-pos (length b) 128))
]

encode-pos : (x : Item) → 0 < length (encode x)
unfolding encode
encode-pos (bytes b) = encode_bytes-pos b
encode-pos (list xs) = omega (
  arith,
  length-append (encode_length (length (encode_all xs)) 192) (encode_all xs),
  encode_length-pos (length (encode_all xs)) 192,
)

mutual
  unfolding Fits size encode decode_items

  decode_fuel-encode :
      (fuel : ℕ) (x : Item) (rest : List ℕ)
      → Fits x
      → size x ≤ fuel
      → decode_fuel fuel (encode x ++ rest) ≡ ok (x, rest)
  decode_fuel-encode zero (bytes b) rest fits h = absurd (omega arith)
  decode_fuel-encode zero (list xs) rest fits h = absurd (omega arith)
  decode_fuel-encode (suc fuel) (bytes b) rest fits h = decode_fuel-bytes fuel b rest fits.1
  decode_fuel-encode (suc fuel) (list xs) rest fits h =
      decode_fuel-list fuel xs (encode_all xs) rest fits.0
        (decode_items-encode fuel xs fits.1 (omega arith))

  decode_items-encode :
      (fuel : ℕ) (xs : Items)
      → FitsAll xs
      → size_all xs ≤ fuel
      → decode_items fuel (encode_all xs) ≡ ok xs
  decode_items-encode zero nil fits h = absurd (omega arith)
  decode_items-encode zero (cons x xs) fits h = absurd (omega arith)
  decode_items-encode (suc fuel) nil fits h = refl
  decode_items-encode (suc fuel) (cons x xs) fits h =
      decode_items-cons fuel x xs (encode x ++ encode_all xs) (encode_all xs)
        (omega (arith, encode-pos x, length-append (encode x) (encode_all xs)))
        (decode_fuel-encode fuel x (encode_all xs) fits.0 (omega arith))
        (decode_items-encode fuel xs fits.1 (omega arith))

-- Twice the length of an encoding is fuel enough for its item.
mutual
  unfolding size encode

  size-le : (x : Item) → size x ≤ 2 * length (encode x)
  size-le (bytes b) = omega (arith, encode_bytes-pos b)
  size-le (list xs) = omega (
    arith,
    size_all-le xs,
    length-append (encode_length (length (encode_all xs)) 192) (encode_all xs),
    encode_length-pos (length (encode_all xs)) 192,
  )

  size_all-le : (xs : Items) → size_all xs ≤ 2 * length (encode_all xs) + 1
  size_all-le nil = omega arith
  size_all-le (cons x xs) =
      omega
        (arith, size-le x, size_all-le xs, encode-pos x, length-append (encode x) (encode_all xs))

-- An item of bytes whose lengths fit in eight bytes is what decoding its encoding returns: the
-- fuel of the model is enough, no error is raised and nothing remains.
pub decode-encode : (x : Item) → Fits x → decode (encode x) ≡ ok x
unfolding decode
decode-encode x fits = rw (
  ==_false_pos (length (encode x)) (encode-pos x),
  ap (decode_fuel (2 * length (encode x))) (sym (append-nil (encode x)))
      ∙ decode_fuel-encode (2 * length (encode x)) x [] fits (size-le x),
)

-- In a stream, what follows an encoding is left for the next call.
pub decode_fuel-stream :
    (x : Item) (rest : List ℕ)
    → Fits x
    → decode_fuel (2 * length (encode x ++ rest)) (encode x ++ rest) ≡ ok (x, rest)
decode_fuel-stream x rest fits =
    decode_fuel-encode (2 * length (encode x ++ rest)) x rest fits
      (omega (arith, size-le x, length-append (encode x) rest))
