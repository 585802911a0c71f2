-- ===== src/Trie/CheckpointDb/Abstract.antt =====
-- What a database with checkpoints promises: a map with a stack of saved maps.
use moola_fix.Common.{ℕ, ◌≡◌, Option, none, some, List, [], ◌∷◌, ok, err, ◌==◌, if◌then◌else◌}
use moola_fix.Trie.CheckpointDb.{
  BatchDbOp, put_op, del_op, LevelDb, CheckpointDb, DbError, type_error, checkpoint, commit, revert,
  get, put, del, batch,
}

abbrev pub View : Type 0 → Type 0
View V = ℕ → Option V

module _ {V : Type 0} where
  -- A map changed at one key.
  abbrev pub update : ℕ → Option V → View V → View V
  update key value view k = if key == k then value else view k

  abbrev pub apply_op : BatchDbOp V → View V → View V
  apply_op (put_op key value) view = update key (some value) view
  apply_op (del_op key) view = update key none view

  abbrev pub apply_ops : List (BatchDbOp V) → View V → View V
  apply_ops [] view = view
  apply_ops (op ∷ ops) view = apply_ops ops (apply_op op view)

-- The documented behaviour of a levelup store: what is stored or removed is read, other keys are left
-- alone, and a batch has the effect of its operations in turn.
pub record IsLevelDb {V Disk : Type 0} (level : LevelDb V Disk) : Type 0 where
  pub load-store :
      (key : ℕ) (v : V) (disk : Disk) (k : ℕ)
      → level.load k (level.store key v disk) ≡ update key (some v) (λ j. level.load j disk) k
  pub load-delete :
      (key : ℕ) (disk : Disk) (k : ℕ)
      → level.load k (level.delete key disk) ≡ update key none (λ j. level.load j disk) k
  pub load-apply_batch :
      (ops : List (BatchDbOp V)) (disk : Disk) (k : ℕ)
      → level.load k (level.apply_batch ops disk) ≡ apply_ops ops (λ j. level.load j disk) k

-- The current map, and for each checkpoint the map and the root that were current before it.
pub record Abstract (V : Type 0) : Type 0 where
  pub current : View V
  pub saved : List (View V × ℕ)

-- The calls of a client, and what they return.
pub data Call (V : Type 0) : Type 0 where
  checkpoint_call : ℕ → Call V
  commit_call revert_call : Call V
  get_call del_call : ℕ → Call V
  put_call : ℕ → V → Call V
  batch_call : List (BatchDbOp V) → Call V

pub data Answer (V : Type 0) : Type 0 where
  done : Answer V
  found : Option V → Answer V
  old_root : ℕ → Answer V
  failed : DbError → Answer V

module _ {V : Type 0} where
  abbrev pub abstract_step : Call V → Abstract V → Answer V × Abstract V
  abstract_step (checkpoint_call root) a = (done, record a { saved = (a.current, root) ∷ a.saved })
  abstract_step commit_call a = elim a.saved [
    | [] ↦ (failed type_error, a)
    | _ ∷ saved ↦ (done, record a { saved = saved })
  ]
  abstract_step revert_call a = elim a.saved [
    | [] ↦ (failed type_error, a)
    | (view, root) ∷ saved ↦ (old_root root, record { current = view; saved = saved })
  ]
  abstract_step (get_call key) a = (found (a.current key), a)
  abstract_step (put_call key v) a = (done, record a { current = update key (some v) a.current })
  abstract_step (del_call key) a = (done, record a { current = update key none a.current })
  abstract_step (batch_call ops) a = (done, record a { current = apply_ops ops a.current })

  -- The answers to calls in turn.
  abbrev pub abstract_run : List (Call V) → Abstract V → List (Answer V)
  abstract_run [] a = []
  abstract_run (call ∷ calls) a =
      let (answer, a') = abstract_step call a in answer ∷ abstract_run calls a'

module _ {V Disk : Type 0} (level : LevelDb V Disk) where
  -- The same on the database; a call that throws leaves it as it was.
  unfoldable pub step_call : Call V → CheckpointDb V Disk → Answer V × CheckpointDb V Disk
  step_call (checkpoint_call root) db = (done, checkpoint root db)
  step_call commit_call db = elim (commit level db) [
    | ok db' ↦ (done, db')
    | err e ↦ (failed e, db)
  ]
  step_call revert_call db = elim (revert level db) [
    | ok (root, db') ↦ (old_root root, db')
    | err e ↦ (failed e, db)
  ]
  step_call (get_call key) db = let (v, db') = get level key db in (found v, db')
  step_call (put_call key v) db = (done, put level key v db)
  step_call (del_call key) db = (done, del level key db)
  step_call (batch_call ops) db = (done, batch level ops db)

  unfoldable pub run_calls : List (Call V) → CheckpointDb V Disk → List (Answer V)
  run_calls [] db = []
  run_calls (call ∷ calls) db =
      let (answer, db') = step_call call db in answer ∷ run_calls calls db'
