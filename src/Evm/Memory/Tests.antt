-- ===== src/Evm/Memory/Tests.antt =====
-- The memory of memory.ts on concrete bytes, and its theorems applied to them.
use moola_fix.Common.{ℕ, ◌≡◌, refl, ◌∷◌, [], ok, err, length, arith, List}
use moola_fix.Evm.Error.{assertion}
use moola_fix.Evm.Memory.{Memory, ceil, extend, write, read}
use moola_fix.Evm.Memory.Access.{read-write}

abbrev some_data : List ℕ
some_data = 0xde ∷ 0xad ∷ 0xbe ∷ []

ceil_test : ceil 33 32 ≡ 64
unfolding ceil
ceil_test = refl

write-length_test : write 0 2 some_data [] ≡ err assertion
unfolding write extend
write-length_test = refl

read-write_example :
    (t : Memory) × (write 30 (length some_data) some_data [] ≡ ok t)
    × (read 30 (length some_data) t ≡ (some_data, t))
read-write_example = read-write 30 some_data [] (omega arith) refl
