-- ===== src/Evm/Message/Accounts.antt =====
-- Messages over the state manager of packages/vm/src/state: packages/vm/src/evm/evm.ts and eei.ts.
use moola_fix.Common.{ℕ, ◌≡◌, List, Result}
use moola_fix.State.TransientStorage as T
use moola_fix.State.Manager.{Manager, Hashes, get_account, default_state_manager}
use moola_fix.State.Manager.Checkpoints.{state_manager_laws}
use moola_fix.Evm.Message.{World, Message, EvmResult, ExecResult, Env, Rules, Library}
use moola_fix.Evm.Message.Frames.{Run}
use moola_fix.Evm.Message.Requests.{Script}
use moola_fix.Evm.Message.Depth.{run_message}

module _ (rules : Rules) (lib : Library) (hashes : Hashes) (script : Env → Script)
    (run_precompile : ℕ → List ℕ → ℕ → World Manager → ExecResult × World Manager) where
  -- A message of the VM over its state manager.
  abbrev pub run_default : Message → World Manager → Result T.Error (EvmResult × World Manager)
  run_default = run_message rules lib (default_state_manager hashes) script run_precompile

  -- What a precompile does leaves the checkpoints alone.
  abbrev pub LeavesCheckpoints : Type 0
  LeavesCheckpoints =
      (a : ℕ) (bytes : List ℕ) (gas : ℕ) (w : World Manager)
      → Run (default_state_manager hashes) (state_manager_laws hashes) w
          (run_precompile a bytes gas w).1

  -- Before a message runs, an address may become warm, and nothing else changes.
  abbrev IsKept : World Manager → World Manager → Type 0
  IsKept w x =
      ((a : ℕ) → get_account hashes a x.manager ≡ get_account hashes a w.manager)
      × (x.transient ≡ w.transient)
      × (x.refund ≡ w.refund)
