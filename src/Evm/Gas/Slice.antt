-- ===== src/Evm/Gas/Slice.antt =====
-- What a slice of data holds.
use moola_fix.Common.{
  ℕ, ◌+◌, ◌-◌, ◌/◌, ◌≤◌, ◌<◌, ◌≡◌, ◌∙◌, true, List, slice, length, get_or, arith, if◌then◌else◌,
  ltb, get_or-drop, get_or-take, get_or_past, drop,
}
use moola_fix.Util.Padding.{set_length_right_lem}
use moola_fix.Evm.Gas.{get_data_slice, max_call_gas}

slice-get :
    (bytes : List ℕ) (start end i : ℕ)
    → get_or (slice bytes start end) i 0
      ≡ (if ltb i (end - start) then get_or bytes (start + i) 0 else 0)
slice-get bytes start end i =
    ground (arith, get_or-take (end - start) (drop start bytes) i 0, get_or-drop start bytes i 0)

-- A slice has the asked length, and its bytes are those of the data from the offset on, with zeros
-- behind the end of the data, also where the offset lies behind it.
pub get_data_slice_lem :
    (bytes : List ℕ) (offset len i : ℕ)
    → i < len
    → (length (get_data_slice bytes offset len) ≡ len)
      × (get_or (get_data_slice bytes offset len) i 0 ≡ get_or bytes (offset + i) 0)
unfolding get_data_slice
get_data_slice_lem bytes offset len i h =
    let start = if ltb (length bytes) offset then length bytes else offset in
    let end = if ltb (length bytes) (start + len) then length bytes else start + len in
    let padded = set_length_right_lem (slice bytes start end) len i in
    (
      padded.0,
      padded.1
          ∙ ground (
            arith,
            slice-get bytes start end i,
            get_or_past bytes (start + i) 0,
            get_or_past bytes (offset + i) 0,
          ),
    )

-- From Tangerine Whistle on, a call is given no more gas than it asks for, and at least the 64th
-- part of what is left is kept back.
pub max_call_gas_keeps :
    (gas_limit gas_left : ℕ)
    → (max_call_gas gas_limit gas_left true ≤ gas_limit)
      × (max_call_gas gas_limit gas_left true + gas_left / 64 ≤ gas_left)
unfolding max_call_gas
max_call_gas_keeps gas_limit gas_left = ground arith
