-- ===== src/Evm/Eof/Sections.antt =====
-- The containers that `codeAnalysis` of packages/vm/src/evm/opcodes/eof.ts accepts.
use moola_fix.Common.{ℕ, ◌+◌, ◌≤◌, ◌≡◌, some, List, length, ltb, if◌then◌else◌, arith, get_or_past}
use moola_fix.Evm.Eof.{byte_of, code_analysis, SectionSizes}

-- Where the code section starts, as `_executeCreate` reads it.
abbrev pub code_start : SectionSizes → ℕ
code_start sizes = if ltb 0 sizes.data_size then 10 else 7

neither_form : (container : List ℕ) → length container ≡ 0 → byte_of container 1 ≡ 256
neither_form container h = get_or_past container 1 256 (omega arith)

-- A container that is accepted has a code section of at least one byte, and is as long as the header and the
-- two sections.
pub code_analysis_fits :
    (container : List ℕ) (sizes : SectionSizes)
    → code_analysis container ≡ some sizes
    → (1 ≤ sizes.code) × (length container ≡ code_start sizes + sizes.code + sizes.data_size)
unfolding code_analysis
code_analysis_fits container sizes h = ground (arith, neither_form container)
