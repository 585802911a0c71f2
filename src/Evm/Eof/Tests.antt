-- ===== src/Evm/Eof/Tests.antt =====
-- Containers and sections, and the theorems at these.
use moola_fix.Common.{ℕ, ◌≡◌, refl, ◌↔◌, true, false, some, List, [], ◌∷◌, ◌==◌}
use moola_fix.Evm.Eof.{code_analysis, valid_opcodes}
use moola_fix.Evm.Eof.Opcodes.{Instructions, valid_opcodes_iff}

-- One byte of code, and no data.
abbrev container : List ℕ
container = 0xef ∷ 0x00 ∷ 0x01 ∷ 0x01 ∷ 0x00 ∷ 0x01 ∷ 0x00 ∷ 0xfe ∷ []

analysed : code_analysis container ≡ some (record { code = 1; data_size = 0 })
unfolding code_analysis
analysed = refl

-- A PUSH without its byte, and one that ends the code.
truncated_test : valid_opcodes (λ op. op == 0x60) (0x60 ∷ []) ≡ false
unfolding valid_opcodes
truncated_test = refl

pushed_last_test : valid_opcodes (λ op. op == 0x60) (0x60 ∷ 0x00 ∷ []) ≡ false
unfolding valid_opcodes
pushed_last_test = refl

abbrev pushes : List ℕ
pushes = 0x60 ∷ 0x5b ∷ 0xfe ∷ []

valid_opcodes_example :
    (valid_opcodes (λ op. op == 0x60) pushes ≡ true) ↔ Instructions (λ op. op == 0x60) pushes
valid_opcodes_example = valid_opcodes_iff (λ op. op == 0x60) pushes
