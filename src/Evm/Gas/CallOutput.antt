-- ===== src/Evm/Gas/CallOutput.antt =====
-- Two helpers of packages/vm/src/evm/opcodes/util.ts that the opcodes on calls and storage use: what a call
-- returns is written to memory, and a value is brought to the form of a storage slot.
use moola_fix.Common.{
  ℕ, ◌+◌, ◌-◌, ◌%◌, ◌≤◌, ◌<◌, ◌≡◌, ◌∙◌, refl, sym, ap, Bool, true, false, ◌&&◌, inl, inr, List, [],
  ◌∷◌, Result, ok, err, ◌>>=◌, length, ltb, leb, ◌==◌, if◌then◌else◌, Bool-cases, ok-injective,
  arith,
}
use moola_fix.Common.Bytes.{from_be, from_be_acc}
use moola_fix.Util.Padding.{set_length_left, set_length_left_lem, set_length_right_lem}
use moola_fix.Evm.Error.{VmError, not_safe_integer}
use moola_fix.Evm.Memory.{Memory, write}
use moola_fix.Evm.Memory.Access.{byte, write_lem}
use moola_fix.Evm.Gas.{get_data_slice}
use moola_fix.Evm.Gas.Slice.{get_data_slice_lem}
use moola_fix.Evm.Handlers.{max_safe_integer}

-- `value.equals(Buffer.alloc(value.length, 0))`
abbrev pub is_zero : List ℕ → Bool
is_zero [] = true
is_zero (b ∷ value) = (b == 0) && is_zero value

-- `setLengthLeftStorage`
unfoldable pub set_length_left_storage : List ℕ → List ℕ
set_length_left_storage value = if is_zero value then [] else set_length_left value 32

-- `toNumber`
unfoldable pub to_safe_number : ℕ → Result VmError ℕ
to_safe_number n = if ltb max_safe_integer n then err not_safe_integer else ok n

-- How much of the data is written.
abbrev pub fitting : List ℕ → ℕ → ℕ
fitting return_data out_length =
    if ltb (length return_data) out_length then length return_data else out_length

-- `writeCallOutput`
unfoldable pub write_call_output : List ℕ → ℕ → ℕ → Memory → Result VmError Memory
unfolding to_safe_number
write_call_output return_data out_offset out_length m =
    if ltb 0 (length return_data)
    then (do
      mem_offset ← to_safe_number out_offset
      asked ← to_safe_number out_length
      let data_length = fitting return_data asked
      write mem_offset data_length (get_data_slice return_data 0 data_length) m)
    else ok m

slice_length : (bytes : List ℕ) (len : ℕ) → length (get_data_slice bytes 0 len) ≡ len
unfolding get_data_slice
slice_length bytes len = (set_length_right_lem _ len 0).0

written :
    (return_data : List ℕ) (out_offset out_length : ℕ) (m : Memory)
    → length m % 32 ≡ 0
    → (t : Memory) × (write out_offset
          (fitting return_data out_length)
          (get_data_slice return_data 0 (fitting return_data out_length))
          m
        ≡ ok t)
      × (length t % 32 ≡ 0)
      × ((j : ℕ)
          → byte t j ≡ (
              if leb out_offset j && ltb j (out_offset + fitting return_data out_length)
              then byte return_data (j - out_offset)
              else byte m j))
written return_data out_offset out_length m words =
    let n = fitting return_data out_length in
    let value = get_data_slice return_data 0 n in
    let (t, wrote, t_words, _, _) =
      write_lem out_offset n 0 value m (slice_length return_data n) words in
    (
      t,
      wrote,
      t_words,
      λ j.
          let (t', wrote', _, _, at_j) =
            write_lem out_offset n j value m (slice_length return_data n) words in
          let same : t ≡ t' = ok-injective t t' (sym wrote ∙ wrote') in
          ap (λ m. byte m j) same ∙ at_j ∙ ground (arith, byte_of_slice j),
    )
  where
    byte_of_slice :
        (j : ℕ)
        → out_offset ≤ j
        → j < out_offset + fitting return_data out_length
        → byte (get_data_slice return_data 0 (fitting return_data out_length)) (j - out_offset)
          ≡ byte return_data (j - out_offset)
    byte_of_slice j from below =
        let index : 0 + (j - out_offset) ≡ j - out_offset = omega arith in
        (get_data_slice_lem return_data 0 (fitting return_data out_length) (j - out_offset)
          (omega arith)).1
        ∙ ap (byte return_data) index

-- On a memory of whole words, where the offset and the length of the output are safe integers: no more of
-- the returned data is written than the output holds, and all of it where it fits; it is written at the
-- offset, every other byte stays as it was, and the memory has whole words.
pub write_call_output_lem :
    (return_data : List ℕ) (out_offset out_length : ℕ) (m : Memory)
    → length m % 32 ≡ 0
    → out_offset ≤ max_safe_integer
    → out_length ≤ max_safe_integer
    → (t : Memory) × (write_call_output return_data out_offset out_length m ≡ ok t)
      × (length t % 32 ≡ 0)
      × ((j : ℕ)
          → byte t j ≡ (
              if leb out_offset j
                && ltb j (out_offset + out_length)
                && ltb (j - out_offset) (length return_data)
              then byte return_data (j - out_offset)
              else byte m j))
unfolding write_call_output
write_call_output_lem return_data out_offset out_length m words safe_offset safe_length =
    let (t, wrote, t_words, at) = written return_data out_offset out_length m words in
    let offset_fits : ltb max_safe_integer out_offset ≡ false = ground arith in
    let length_fits : ltb max_safe_integer out_length ≡ false = ground arith in
    elim (Bool-cases (ltb 0 (length return_data))) [
      | inl some_data ↦
          (t, rw (some_data, offset_fits, length_fits) wrote, t_words, λ j. ground (arith, at j))
      | inr no_data ↦ (m, rw no_data refl, words, λ j. ground arith)
    ]

zero-from_be_acc : (value : List ℕ) → is_zero value ≡ true → from_be_acc 0 value ≡ 0
unfolding from_be_acc
zero-from_be_acc [] h = refl
zero-from_be_acc (b ∷ value) h =
    let first : b ≡ 0 = ground arith in rw first (zero-from_be_acc value (ground arith))

-- A value of at most 32 bytes that is not zero is padded to 32 bytes and keeps its number; zero becomes
-- the empty buffer.
pub set_length_left_storage_lem :
    (value : List ℕ) → length value ≤ 32 → from_be (set_length_left_storage value) ≡ from_be value
unfolding set_length_left_storage from_be
set_length_left_storage_lem value fits = elim (Bool-cases (is_zero value)) [
  | inl zeros ↦ rw zeros (sym (zero-from_be_acc value zeros))
  | inr other ↦ rw other (set_length_left_lem value 32 fits).1
]
