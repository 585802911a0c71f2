-- ===== src/Evm/Error.antt =====
-- The errors of packages/vm/src/exceptions.ts, and what else a handler may throw.

-- `enum ERROR`, carried by a `VmError`; the errors of the BLS precompiles are left out.
-- `assertion` and `not_safe_integer` are no `VmError`: a failed `assert`, and `BN.toNumber` beyond
-- 2^53 - 1, end the run with an ordinary `Error`.
pub data VmError : Type 0 where
  out_of_gas codestore_out_of_gas stack_underflow stack_overflow : VmError
  invalid_jump invalid_opcode out_of_range revert static_state_change : VmError
  internal_error create_collision stop refund_exhausted value_overflow : VmError
  invalid_beginsub invalid_returnsub invalid_jumpsub : VmError
  invalid_bytecode_result invalid_eof_format initcode_size_violation : VmError
  assertion not_safe_integer : VmError
