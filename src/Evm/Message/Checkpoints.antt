-- ===== src/Evm/Message/Checkpoints.antt =====
-- The checkpoints around a message, and tests of its code and its errors: packages/vm/src/evm/evm.ts.
use moola_fix.Common.{
  ℕ, Bool, true, false, Option, none, some, List, [], Result, ok, ◌>>=◌, length, ◌==◌,
}
use moola_fix.Evm.Error.{VmError, codestore_out_of_gas, revert, invalid_eof_format}
use moola_fix.Evm.Message.{StateManager, World, Code, bytecode, precompile}
use moola_fix.State.TransientStorage
use moola_fix.State.TransientStorage.{Error, type_error}

-- The two errors on which the gas that is left is given back.
abbrev pub keeps_gas : VmError → Bool
keeps_gas revert = true
keeps_gas invalid_eof_format = true
keeps_gas _ = false

abbrev pub is_codestore : VmError → Bool
is_codestore codestore_out_of_gas = true
is_codestore _ = false

-- `!message.code || message.code.length === 0`; a precompile, a function of one argument, has a length.
abbrev pub no_code : Option Code → Bool
no_code none = true
no_code (some (bytecode code)) = length code == 0
no_code (some (precompile _)) = false

abbrev pub bytes_of : Option Code → List ℕ
bytes_of (some (bytecode code)) = code
bytes_of _ = []

module _ {S : Type 0} (sm : StateManager S) where
  -- The checkpoints on entry, and how they end.
  unfoldable pub enter : World S → World S
  enter w = record w {
    manager = sm.checkpoint w.manager;
    transient = TransientStorage.checkpoint w.transient;
  }

  unfoldable pub commit_both : World S → Result Error (World S)
  commit_both w = do
    manager ← sm.commit w.manager
    transient ← TransientStorage.commit w.transient
    ok (record w { manager = manager; transient = transient })

  unfoldable pub revert_both : World S → Result Error (World S)
  revert_both w = do
    manager ← sm.revert w.manager
    transient ← TransientStorage.revert w.transient
    ok (record w { manager = manager; transient = transient })
