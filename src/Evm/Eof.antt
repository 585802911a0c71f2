-- ===== src/Evm/Eof.antt =====
-- packages/vm/src/evm/opcodes/eof.ts: the checks of an EOF1 container. Which opcodes have a handler is
-- a parameter.
pub mod Opcodes
pub mod Sections
mod Tests
use moola_fix.Common.{
  ℕ, zero, suc, ◌+◌, ◌-◌, ◌*◌, Bool, true, false, not, ◌&&◌, ◌||◌, Option, none, some, List, [],
  ◌∷◌, length, get_or, drop, ltb, leb, ◌==◌, if◌then◌else◌,
}

abbrev pub format : ℕ
format = 0xef

abbrev pub magic : ℕ
magic = 0x00

abbrev pub version : ℕ
version = 0x01

pub record SectionSizes : Type 0 where
  pub code : ℕ
  pub data_size : ℕ

-- `container[i]`; 256, which is no byte, stands for `undefined`.
abbrev pub byte_of : List ℕ → ℕ → ℕ
byte_of container i = get_or container i 256

-- `(container[i] << 8) | container[i + 1]`
abbrev pub size_of : List ℕ → ℕ → ℕ
size_of container i = byte_of container i * 256 + byte_of container (i + 1)

-- The section sizes that the header gives and the length that they make; a header of neither form
-- leaves them at 0.
unfoldable pub header_sizes : List ℕ → Option (SectionSizes × ℕ)
header_sizes container =
    if ltb 7 (length container) && byte_of container 3 == 0x01 && byte_of container 6 == 0x00
    then (if ltb (size_of container 4) 1
        then none
        else some (record { code = size_of container 4; data_size = 0 }, 7 + size_of container 4))
    else if ltb 10 (length container)
        && byte_of container 3 == 0x01
        && byte_of container 6 == 0x02
        && byte_of container 9 == 0x00
    then (if ltb (size_of container 4) 1 || ltb (size_of container 7) 1
        then none
        else some (
          record { code = size_of container 4; data_size = size_of container 7 },
          10 + size_of container 4 + size_of container 7,
        ))
    else some (record { code = 0; data_size = 0 }, 0)

-- `codeAnalysis`
unfoldable pub code_analysis : List ℕ → Option SectionSizes
unfolding header_sizes
code_analysis container =
    if not (byte_of container 1 == magic) || not (byte_of container 2 == version)
    then none
    else elim (header_sizes container) [
      | none ↦ none
      | some (sizes, computed) ↦ if length container == computed then some sizes else none
    ]

-- `opcode >= 0x60 && opcode <= 0x7f`
abbrev pub is_push : ℕ → Bool
is_push opcode = leb 0x60 opcode && leb opcode 0x7f

abbrev pub is_terminating : ℕ → Bool
is_terminating opcode =
    opcode == 0x00 || opcode == 0xf3 || opcode == 0xfd || opcode == 0xfe || opcode == 0xff

abbrev pub is_empty : List ℕ → Bool
is_empty [] = true
is_empty (_ ∷ _) = false

module _ (has_handler : ℕ → Bool) where
  abbrev pub known : ℕ → Bool
  known opcode = has_handler opcode || opcode == 0xfe

  -- The loop of `validOpcodes` on the code from `x` on: `x > code.length - 1` where none is left.
  unfoldable pub valid_loop : ℕ → List ℕ → Bool
  valid_loop zero code = false
  valid_loop (suc fuel) [] = true
  valid_loop (suc fuel) (opcode ∷ code) =
      let behind = drop (opcode - 0x5f) code in
      let push_rest = valid_loop fuel behind in
      let rest = valid_loop fuel code in
      if not (known opcode)
      then false
      else if is_push opcode
      then (if is_empty behind then false else push_rest)
      else rest

  -- `validOpcodes`; each round takes an opcode, so that the length is fuel enough.
  unfoldable pub valid_opcodes : List ℕ → Bool
  unfolding valid_loop
  valid_opcodes code =
      if valid_loop (suc (length code)) code
      then is_terminating (byte_of code (length code - 1))
      else false
