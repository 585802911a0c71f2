-- ===== src/Rlp/Tests.antt =====
-- The encoding and the decoding of concrete items, and the theorems applied to them.
use moola_fix.Common.{◌≡◌, refl, ◌∷◌, [], ok, err, arith}
use moola_fix.Rlp.Item.{Item, bytes, list, nil, cons, single_byte_prefixed, remainder_not_zero}
use moola_fix.Rlp.Encode.{encode, encode_bytes, encode_length}
use moola_fix.Rlp.Decode.{decode, decode_fuel, decode_short_string, safe_slice}
use moola_fix.Rlp.RoundTrip.{Fits, decode-encode}

-- The bytes of `dog` and an empty array in an array.
abbrev dog : Item
dog = list (cons (bytes (0x64 ∷ 0x6f ∷ 0x67 ∷ [])) (cons (list nil) nil))

dog-Fits : Fits dog
unfolding Fits encode encode_bytes encode_length
dog-Fits = (
  omega arith,
  (((omega arith, (omega arith, (omega arith, tt))), omega arith), ((omega arith, tt), tt)),
)

encode_test : encode dog ≡ 0xc5 ∷ 0x83 ∷ 0x64 ∷ 0x6f ∷ 0x67 ∷ 0xc0 ∷ []
unfolding encode encode_bytes encode_length
encode_test = refl

decode-prefixed_test : decode (0x81 ∷ 0x05 ∷ []) ≡ err single_byte_prefixed
unfolding decode decode_fuel decode_short_string safe_slice
decode-prefixed_test = refl

decode-remainder_test : decode (0x05 ∷ 0x06 ∷ []) ≡ err remainder_not_zero
unfolding decode decode_fuel
decode-remainder_test = refl

decode-encode_example : decode (encode dog) ≡ ok dog
decode-encode_example = decode-encode dog dog-Fits
