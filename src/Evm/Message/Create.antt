-- ===== src/Evm/Message/Create.antt =====
-- What becomes of the code that a contract creation returns, `_executeCreate` of
-- packages/vm/src/evm/evm.ts behind the run of the interpreter.
use moola_fix.Common.{
  ℕ, ◌+◌, ◌*◌, Bool, true, false, not, ◌&&◌, ◌||◌, Option, none, some, [], length, slice, ltb, leb,
  ◌==◌, if◌then◌else◌,
}
use moola_fix.Evm.Error.{
  VmError, out_of_gas, codestore_out_of_gas, invalid_bytecode_result, invalid_eof_format,
}
use moola_fix.Evm.Eof.{format, byte_of, code_analysis, valid_opcodes}
use moola_fix.Evm.Message.{ExecResult, Rules}

abbrev pub is_none {ℓ} : {A : Type ℓ} → Option A → Bool
is_none none = true
is_none (some _) = false

-- `{ ...result, ...VmErrorResult(error, gasUsed) }`, the form of `OOGResult` and its like.
abbrev pub failed_with : VmError → ℕ → ExecResult → ExecResult
failed_with e gas_used result = record result {
  exception_error = some e;
  gas_used = gas_used;
  return_value = [];
}

abbrev pub return_fee : Rules → ExecResult → ℕ
return_fee rules result =
    if is_none result.exception_error then length result.return_value * rules.create_data else 0

abbrev pub allowed_code_size : Rules → ExecResult → Bool
allowed_code_size rules result = not (
    is_none result.exception_error
    && rules.spurious_dragon
    && ltb rules.max_code_size (length result.return_value))

module _ (rules : Rules) (has_handler : ℕ → Bool) where
  -- The checks of a container: its form, and its opcodes where these are checked.
  unfoldable pub check_container : ℕ → ℕ → ExecResult → ExecResult
  check_container gas_limit total_gas result = elim (code_analysis result.return_value) [
    | none ↦ failed_with invalid_eof_format gas_limit result
    | some sizes ↦
        let code_start = if ltb 0 sizes.data_size then 10 else 7 in
        if rules.eip3670
        then (if not (
              valid_opcodes has_handler
                (slice result.return_value code_start (code_start + sizes.code)))
            then failed_with invalid_eof_format gas_limit result
            else record result { gas_used = total_gas })
        else result
  ]

  -- The checks of a code that starts with 0xef.
  unfoldable pub eof_checks : ℕ → ℕ → ExecResult → ExecResult
  unfolding check_container
  eof_checks gas_limit total_gas given =
      check_container gas_limit total_gas
        (if not rules.eip3540 then failed_with invalid_bytecode_result gas_limit given else given)

  -- The result with the fee for the code, and whether the fee alone was too much (`CodestoreOOG`).
  unfoldable pub deposit : ℕ → ExecResult → ExecResult × Bool
  unfolding eof_checks
  deposit gas_limit result =
      let total_gas = result.gas_used + return_fee rules result in
      if leb total_gas gas_limit
        && (rules.allow_unlimited_contract_size || allowed_code_size rules result)
      then (if rules.eip3541 && byte_of result.return_value 0 == format
          then (eof_checks gas_limit total_gas result, false)
          else (record result { gas_used = total_gas }, false))
      else if rules.homestead
      then (failed_with out_of_gas gas_limit result, false)
      else if leb result.gas_used gas_limit
      then (failed_with codestore_out_of_gas result.gas_used result, true)
      else (failed_with out_of_gas gas_limit result, false)
