-- ===== src/Evm/Jumps/Tests.antt =====
-- The jump analysis on a short code, and its theorems applied to it.
use moola_fix.Common.{ℕ, ◌≡◌, ◌↔◌, refl, ◌∷◌, [], List, true, get_or}
use moola_fix.Evm.Jumps.{mark, advance, jump_loop, valid_jump_dests, jump_is_valid}
use moola_fix.Evm.Jumps.Destinations.{StartsFrom, jump_is_valid_iff}

-- PUSH1 with the byte of a JUMPDEST as its data, then JUMPDEST and BEGINSUB.
abbrev code : List ℕ
code = 0x60 ∷ 0x5b ∷ 0x5b ∷ 0x5c ∷ []

valid_jump_dests_test : valid_jump_dests code ≡ 0 ∷ 0 ∷ 1 ∷ 2 ∷ []
unfolding valid_jump_dests jump_loop advance mark
valid_jump_dests_test = refl

jump_is_valid_example :
    (jump_is_valid (valid_jump_dests code) 2 ≡ true)
    ↔ (StartsFrom code 0 2 × (get_or code 2 0 ≡ 0x5b))
jump_is_valid_example = jump_is_valid_iff code 2
