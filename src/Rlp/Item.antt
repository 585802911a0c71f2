-- ===== src/Rlp/Item.antt =====
-- The values of rlp/src/index.ts: `Uint8Array | NestedUint8Array`, and the errors that it throws.
use moola_fix.Common.{ℕ, List}

mutual
  pub data Item : Type 0 where
    bytes : List ℕ → Item
    list : Items → Item

  pub data Items : Type 0 where
    nil : Items
    cons : Item → Items → Items

pub data Error : Type 0 where
  slice_out_of_bounds extra_zeros single_byte_prefixed not_enough_bytes : Error
  string_too_short list_too_short total_too_large remainder_not_zero : Error
  -- The fuel of the model is used up, which no input does.
  out_of_fuel : Error
