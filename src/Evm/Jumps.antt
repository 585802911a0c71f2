-- ===== src/Evm/Jumps.antt =====
-- The jump analysis of packages/vm/src/evm/interpreter.ts, `_getValidJumpDests`, and the tests
-- `jumpIsValid` and `jumpSubIsValid` of opcodes/util.ts.
pub mod Destinations
mod Tests
use moola_fix.Common.{
  ℕ, zero, suc, ◌+◌, ◌-◌, List, [], ◌∷◌, Bool, true, false, Option, none, some, length, get_or, set,
  replicate, leb, ltb, ◌==◌, ◌&&◌, if◌then◌else◌,
}

-- The body of the loop: the array of marks after the byte at `i`.
unfoldable pub mark : ℕ → ℕ → List ℕ → List ℕ
mark opcode i jumps =
    if leb opcode 0x7f
    then if leb 0x60 opcode
      then jumps
      else if opcode == 0x5b
      then set jumps i 1
      else if opcode == 0x5c
      then set jumps i 2
      else jumps
    else jumps

-- How far the body and the `i++` of the loop move on: past a PUSH and its data, or by one.
unfoldable pub advance : ℕ → ℕ
advance opcode = if leb opcode 0x7f && leb 0x60 opcode then opcode - 0x5f + 1 else 1

-- The loop, with fuel for its rounds.
unfoldable pub jump_loop : ℕ → List ℕ → ℕ → List ℕ → List ℕ
jump_loop zero code i jumps = jumps
jump_loop (suc fuel) code i jumps =
    let opcode = get_or code i 0 in
    let rest = jump_loop fuel code (i + advance opcode) (mark opcode i jumps) in
    if ltb i (length code) then rest else jumps

-- `_getValidJumpDests`; each round advances, so the length of the code is fuel enough.
unfoldable pub valid_jump_dests : List ℕ → List ℕ
valid_jump_dests code = jump_loop (length code) code 0 (replicate (length code) 0)

unfoldable pub jump_is_valid : List ℕ → ℕ → Bool
jump_is_valid valid_jumps dest = get_or valid_jumps dest 0 == 1

unfoldable pub jump_sub_is_valid : List ℕ → ℕ → Bool
jump_sub_is_valid valid_jumps dest = get_or valid_jumps dest 0 == 2
