-- ===== src/Evm/Gas/Tests.antt =====
-- The charge for memory and slices on concrete values, and the theorems applied to them.
use moola_fix.Common.{
  ℕ, ◌+◌, ◌-◌, ◌%◌, ◌^◌, ◌≡◌, ◌&&◌, List, [], ◌∷◌, ok, err, length, ltb, leb, if◌then◌else◌, refl,
  arith,
}
use moola_fix.Evm.Error.{not_safe_integer}
use moola_fix.Evm.Memory.Access.{byte}
use moola_fix.Evm.Gas.CallOutput.{write_call_output, set_length_left_storage, write_call_output_lem}
use moola_fix.Util.Padding.{zeros, set_length, set_length_right}
use moola_fix.Evm.Gas.{MemoryPrices, MemoryMeter, div_ceil, get_data_slice, sub_mem_usage}
use moola_fix.Evm.Gas.MemoryCost.{price, IsPaid, charge_all, most_words, charge_all-price}

abbrev prices : MemoryPrices
prices = record { memory = 3; quad_coeff_div = 512 }

abbrev unused : MemoryMeter
unused = record { memory_word_count = 0; highest_mem_cost = 0 }

abbrev accesses : List (ℕ × ℕ)
accesses = (0, 32) ∷ (1000, 24) ∷ (64, 0) ∷ (100, 32) ∷ []

first_access_test :
    sub_mem_usage prices 1000 24 unused
    ≡ (98, record { memory_word_count = 32; highest_mem_cost = 98 })
unfolding sub_mem_usage div_ceil
first_access_test = refl

data_slice_test : get_data_slice (7 ∷ 8 ∷ 9 ∷ []) 2 3 ≡ 9 ∷ 0 ∷ 0 ∷ []
unfolding get_data_slice set_length_right set_length zeros
data_slice_test = refl

charge_all-price_example :
    IsPaid prices (charge_all prices accesses unused).1
    × ((charge_all prices accesses unused).0 + price prices 0
        ≡ price prices (most_words accesses 0))
charge_all-price_example = charge_all-price prices accesses unused (omega arith) (omega arith) refl

-- Two bytes are returned where three are asked for.
write_call_output_lem_example :
    (t : List ℕ) × (write_call_output (7 ∷ 8 ∷ []) 1 3 [] ≡ ok t)
    × (length t % 32 ≡ 0)
    × ((j : ℕ)
        → byte t j ≡ (
            if leb 1 j && ltb j (1 + 3) && ltb (j - 1) 2
            then byte (7 ∷ 8 ∷ []) (j - 1)
            else byte [] j))
write_call_output_lem_example =
    write_call_output_lem (7 ∷ 8 ∷ []) 1 3 [] refl (omega arith) (omega arith)

-- No output is asked for, at an offset that is no safe integer: the call fails.
empty_output_test : write_call_output (7 ∷ []) (2 ^ 53) 0 [] ≡ err not_safe_integer
unfolding write_call_output
empty_output_test = refl

storage_test : set_length_left_storage (0 ∷ 0 ∷ []) ≡ []
unfolding set_length_left_storage
storage_test = refl
