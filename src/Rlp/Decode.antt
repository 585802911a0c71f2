-- ===== src/Rlp/Decode.antt =====
-- `decode`, `_decode` and `safeSlice` of rlp/src/index.ts.
use moola_fix.Common.{
  ℕ, zero, suc, ◌+◌, ◌-◌, ◌*◌, List, [], Result, ok, err, ◌>>=◌, ◌>>◌, throw_if, not, length, drop,
  slice, get_or, leb, ltb, ◌==◌, ◌&&◌, if◌then◌else◌,
}
use moola_fix.Rlp.Item.{
  Item, Items, bytes, list, nil, cons, Error, slice_out_of_bounds, single_byte_prefixed,
  not_enough_bytes, string_too_short, list_too_short, total_too_large, remainder_not_zero,
  out_of_fuel,
}
use moola_fix.Rlp.Numbers.{decode_length}

-- `safeSlice`
unfoldable pub safe_slice : List ℕ → ℕ → ℕ → Result Error (List ℕ)
safe_slice input start end =
    if ltb (length input) end then err slice_out_of_bounds else ok (slice input start end)

-- `Decoded`: the data and the remainder.
abbrev pub Decoded : Type 0
Decoded = Item × List ℕ

-- The branch of `_decode` for a string of up to 55 bytes.
unfoldable pub decode_short_string : ℕ → List ℕ → Result Error Decoded
unfolding safe_slice
decode_short_string first_byte input = do
  let len = first_byte - 0x7f
  b ← if first_byte == 0x80 then ok [] else safe_slice input 1 len
  throw_if (len == 2 && ltb (get_or b 0 0) 0x80) single_byte_prefixed
  ok (bytes b, drop len input)

-- The branch for a longer string.
unfoldable pub decode_long_string : ℕ → List ℕ → Result Error Decoded
unfolding safe_slice decode_length
decode_long_string first_byte input = do
  let llength = first_byte - 0xb6
  throw_if (ltb (length input - 1) llength) not_enough_bytes
  len ← (safe_slice input 1 llength >>= decode_length)
  throw_if (leb len 55) string_too_short
  b ← safe_slice input llength (len + llength)
  ok (bytes b, drop (len + llength) input)

-- The part of a short list, and of a long one, that holds its items, and what follows the list.
unfoldable pub short_list_parts : ℕ → List ℕ → Result Error (List ℕ × List ℕ)
unfolding safe_slice
short_list_parts first_byte input = do
  let len = first_byte - 0xbf
  inner ← safe_slice input 1 len
  ok (inner, drop len input)

unfoldable pub long_list_parts : ℕ → List ℕ → Result Error (List ℕ × List ℕ)
unfolding safe_slice decode_length
long_list_parts first_byte input = do
  let llength = first_byte - 0xf6
  len ← (safe_slice input 1 llength >>= decode_length)
  throw_if (ltb len 56) list_too_short
  let total = llength + len
  throw_if (ltb (length input) total) total_too_large
  inner ← safe_slice input llength total
  ok (inner, drop total input)

-- `_decode`, with fuel for its depth and its loops; `_decode` is called on no empty input.
unfoldable mutual
  pub decode_fuel : ℕ → List ℕ → Result Error Decoded
  decode_fuel zero input = err out_of_fuel
  decode_fuel (suc fuel) input =
      let first_byte = get_or input 0 0 in
      let short_list = (do
        (inner, rest) ← short_list_parts first_byte input
        xs ← decode_items fuel inner
        ok (list xs, rest)) in
      let long_list = (do
        (inner, rest) ← long_list_parts first_byte input
        xs ← decode_items fuel inner
        ok (list xs, rest)) in
      if leb first_byte 0x7f
      then ok (bytes (slice input 0 1), drop 1 input)
      else if leb first_byte 0xb7
      then decode_short_string first_byte input
      else if leb first_byte 0xbf
      then decode_long_string first_byte input
      else if leb first_byte 0xf7
      then short_list
      else long_list

  -- The loop `while (innerRemainder.length)`.
  pub decode_items : ℕ → List ℕ → Result Error Items
  decode_items zero inner = err out_of_fuel
  decode_items (suc fuel) inner =
      let rest = (do
        (x, remainder) ← decode_fuel fuel inner
        xs ← decode_items fuel remainder
        ok (cons x xs)) in
      if length inner == 0 then ok nil else rest

-- `decode` without `stream`. Every encoding has at least one byte, so that twice the length is fuel
-- enough.
unfoldable pub decode : List ℕ → Result Error Item
decode input =
    let decoded = (do
      (x, remainder) ← decode_fuel (2 * length input) input
      throw_if (not (length remainder == 0)) remainder_not_zero
      ok x) in
    if length input == 0 then ok (bytes []) else decoded
