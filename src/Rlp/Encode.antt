-- ===== src/Rlp/Encode.antt =====
-- `encode` and `encodeLength` of rlp/src/index.ts, on byte arrays and nested arrays of them.
use moola_fix.Common.{ℕ, ◌+◌, List, [], ◌∷◌, ◌++◌, length, get_or, ltb, ◌==◌, ◌&&◌, if◌then◌else◌}
use moola_fix.Rlp.Item.{Item, Items, bytes, list, nil, cons}
use moola_fix.Rlp.Numbers.{number_bytes}

-- `encodeLength`; the first byte is written as a number of its own, then the length.
unfoldable pub encode_length : ℕ → ℕ → List ℕ
encode_length len offset =
    if ltb len 56
    then (len + offset) ∷ []
    else number_bytes (offset + 55 + length (number_bytes len)) ++ number_bytes len

unfoldable pub encode_bytes : List ℕ → List ℕ
unfolding encode_length
encode_bytes input_buf =
    if length input_buf == 1 && ltb (get_or input_buf 0 0) 128
    then input_buf
    else encode_length (length input_buf) 128 ++ input_buf

-- `encode`, and the concatenation of the encodings of an array's items.
unfoldable mutual
  pub encode : Item → List ℕ
  encode (bytes b) = encode_bytes b
  encode (list xs) = encode_length (length (encode_all xs)) 192 ++ encode_all xs

  pub encode_all : Items → List ℕ
  encode_all nil = []
  encode_all (cons x xs) = encode x ++ encode_all xs
