-- ===== src/Trie/CheckpointDb/Tests.antt =====
-- The database with checkpoints over a store in memory, and its refinement theorem applied to it.
use moola_fix.Common.{ℕ, ◌≡◌, refl, none, some, List, [], ◌∷◌}
use moola_fix.Trie.CheckpointDb.{BatchDbOp, put_op, del_op, LevelDb, CheckpointDb, type_error}
use moola_fix.Trie.CheckpointDb.Abstract.{
  View, update, apply_ops, IsLevelDb, Abstract, Call, checkpoint_call, commit_call, revert_call,
  get_call, del_call, put_call, batch_call, Answer, done, found, old_root, failed, abstract_run,
  run_calls,
}
use moola_fix.Trie.CheckpointDb.Refinement.{Sim, run_calls-abstract_run}

-- A store that is the map it shows.
abbrev memory_level : LevelDb ℕ (View ℕ)
memory_level = record {
  load = λ key disk. disk key;
  store = λ key v disk. update key (some v) disk;
  delete = λ key disk. update key none disk;
  apply_batch = λ ops disk. apply_ops ops disk;
}

memory_level-IsLevelDb : IsLevelDb memory_level
memory_level-IsLevelDb = record {
  load-store = λ key v disk k. refl;
  load-delete = λ key disk k. refl;
  load-apply_batch = λ ops disk k. refl;
}

abbrev no_values : View ℕ
no_values k = none

abbrev new_db : CheckpointDb ℕ (View ℕ)
new_db = record { checkpoints = []; disk = no_values }

abbrev new_abstract : Abstract ℕ
new_abstract = record { current = no_values; saved = [] }

new_db-Sim : Sim memory_level new_db new_abstract
unfolding moola_fix.Trie.CheckpointDb.find
new_db-Sim = refl

-- Two checkpoints, of which the second is reverted and the first is committed.
abbrev calls : List (Call ℕ)
calls =
    put_call 1 10
    ∷ checkpoint_call 100
    ∷ get_call 1
    ∷ del_call 1
    ∷ checkpoint_call 101
    ∷ batch_call (put_op 1 11 ∷ put_op 2 20 ∷ del_op 2 ∷ [])
    ∷ get_call 1
    ∷ revert_call
    ∷ commit_call
    ∷ get_call 1
    ∷ commit_call
    ∷ []

abbrev answers : List (Answer ℕ)
answers =
    done
    ∷ done
    ∷ found (some 10)
    ∷ done
    ∷ done
    ∷ done
    ∷ found (some 11)
    ∷ old_root 101
    ∷ done
    ∷ found none
    ∷ failed type_error
    ∷ []

abstract_run_test : abstract_run calls new_abstract ≡ answers
abstract_run_test = refl

run_calls-abstract_run_example : run_calls memory_level calls new_db ≡ answers
run_calls-abstract_run_example =
    run_calls-abstract_run memory_level memory_level-IsLevelDb calls new_db new_abstract new_db-Sim
