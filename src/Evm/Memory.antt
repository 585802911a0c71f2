-- ===== src/Evm/Memory.antt =====
-- packages/vm/src/evm/memory.ts: the memory of a call. A `Memory` is its buffer `_store`, a list of
-- bytes; a failed `assert` is the error `assertion`.
pub mod Access
mod Tests
use moola_fix.Common.{
  ℕ, zero, suc, ◌+◌, ◌-◌, ◌%◌, List, ◌++◌, Result, ok, ◌>>=◌, ◌>>◌, throw_if, not, length, get_or,
  set, slice, replicate, ltb, leb, ◌==◌, if◌then◌else◌,
}
use moola_fix.Evm.Error.{VmError, assertion}

abbrev pub Memory : Type 0
Memory = List ℕ

-- The constant function `ceil`.
unfoldable pub ceil : ℕ → ℕ → ℕ
ceil value ceiling = let r = value % ceiling in if r == 0 then value else value + ceiling - r

unfoldable pub extend : ℕ → ℕ → Memory → Memory
extend offset size m =
    let size_diff = ceil (offset + size) 32 - length m in
    if size == 0 then m else if ltb 0 size_diff then m ++ replicate size_diff 0 else m

-- The loop of `write`: `rounds` is `size - i`.
unfoldable pub write_loop : ℕ → ℕ → ℕ → List ℕ → Memory → Memory
write_loop zero i offset value m = m
write_loop (suc rounds) i offset value m =
    write_loop rounds (i + 1) offset value (set m (offset + i) (get_or value i 0))

unfoldable pub write : ℕ → ℕ → List ℕ → Memory → Result VmError Memory
write offset size value m =
    let extended = extend offset size m in
    let written = (do
      throw_if (not (length value == size)) assertion
      throw_if (not (leb (offset + size) (length extended))) assertion
      ok (write_loop size 0 offset value extended)) in
    if size == 0 then ok m else written

-- The bytes read, and the memory, which a read may extend.
unfoldable pub read : ℕ → ℕ → Memory → List ℕ × Memory
read offset size m =
    let extended = extend offset size m in
    let loaded = slice extended offset (offset + size) in
    (
      if ltb (length loaded) size then loaded ++ replicate (size - length loaded) 0 else loaded,
      extended,
    )
