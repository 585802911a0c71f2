-- ===== src/Trie/CheckpointDb.antt =====
-- packages/trie/src/checkpointDb.ts over packages/trie/src/db.ts: a database with a stack of maps of
-- changes. A key is the number that its binary string stands for, and `null` is `none`. The array
-- `checkpoints` has its last item first. The store of `_leveldb` is a parameter.
pub mod Abstract
mod Maps
pub mod Refinement
mod Tests
use moola_fix.Common.{
  ℕ, Bool, true, false, Option, none, some, List, [], ◌∷◌, Result, ok, err, if◌then◌else◌,
}
use moola_fix.Common.Assoc.{Assoc, lookup, insert}

-- `BatchDBOp`
pub data BatchDbOp (V : Type 0) : Type 0 where
  put_op : ℕ → V → BatchDbOp V
  del_op : ℕ → BatchDbOp V

-- What the code calls of a levelup store: `get`, which throws `notFound` for `none`, `put`, `del` and
-- `batch`.
pub record LevelDb (V Disk : Type 0) : Type 0 where
  pub load : ℕ → Disk → Option V
  pub store : ℕ → V → Disk → Disk
  pub delete : ℕ → Disk → Disk
  pub apply_batch : List (BatchDbOp V) → Disk → Disk

pub record Checkpoint (V : Type 0) : Type 0 where
  pub key_value_map : Assoc (Option V)
  pub root : ℕ

pub record CheckpointDb (V Disk : Type 0) : Type 0 where
  pub checkpoints : List (Checkpoint V)
  pub disk : Disk

pub data DbError : Type 0 where
  -- A property of `undefined`, which `pop` gives for an empty array.
  type_error : DbError

module _ {V : Type 0} where
  -- `keyValueMap.forEach((value, key) => currentKeyValueMap.set(key, value))`
  unfoldable pub dump : Assoc (Option V) → Assoc (Option V) → Assoc (Option V)
  dump [] current = current
  dump ((key, value) ∷ map) current = dump map (insert key value current)

  -- The loop that collects `batchOp`.
  unfoldable pub batch_ops : Assoc (Option V) → List (BatchDbOp V)
  batch_ops [] = []
  batch_ops ((key, none) ∷ map) = del_op key ∷ batch_ops map
  batch_ops ((key, some value) ∷ map) = put_op key value ∷ batch_ops map

  -- `keyValueMap.set` on the last checkpoint.
  unfoldable pub set_in_last : ℕ → Option V → List (Checkpoint V) → List (Checkpoint V)
  set_in_last key value [] = []
  set_in_last key value (cp ∷ cps) =
      record cp { key_value_map = insert key value cp.key_value_map } ∷ cps

  -- The loop of `get` over the checkpoints: what a map has for the key, where one has it.
  unfoldable pub find : ℕ → List (Checkpoint V) → Option (Option V)
  find key [] = none
  find key (cp ∷ cps) = elim (lookup key cp.key_value_map) [ some v ↦ some v | none ↦ find key cps ]

module _ {V Disk : Type 0} where
  -- `isCheckpoint`
  unfoldable pub is_checkpoint : CheckpointDb V Disk → Bool
  is_checkpoint db = elim db.checkpoints [ [] ↦ false | _ ∷ _ ↦ true ]

  unfoldable pub checkpoint : ℕ → CheckpointDb V Disk → CheckpointDb V Disk
  checkpoint root db = record db {
    checkpoints = record { key_value_map = []; root = root } ∷ db.checkpoints;
  }

  module _ (level : LevelDb V Disk) where
    -- `batch`, with no checkpoint.
    unfoldable pub commit : CheckpointDb V Disk → Result DbError (CheckpointDb V Disk)
    unfolding dump batch_ops
    commit db = elim db.checkpoints [
      | [] ↦ err type_error
      | cp ∷ [] ↦ ok (record {
        checkpoints = [];
        disk = level.apply_batch (batch_ops cp.key_value_map) db.disk;
      })
      | cp ∷ current ∷ cps ↦ ok (record db {
        checkpoints =
            record current { key_value_map = dump cp.key_value_map current.key_value_map } ∷ cps;
      })
    ]

    -- The root of the checkpoint, and the database.
    unfoldable pub revert : CheckpointDb V Disk → Result DbError (ℕ × CheckpointDb V Disk)
    revert db = elim db.checkpoints [
      | [] ↦ err type_error
      | cp ∷ cps ↦ ok (cp.root, record db { checkpoints = cps })
    ]

    -- A value from the disk goes into the last map, where there is one.
    unfoldable pub get : ℕ → CheckpointDb V Disk → Option V × CheckpointDb V Disk
    unfolding find set_in_last
    get key db = elim (find key db.checkpoints) [
      | some v ↦ (v, db)
      | none ↦ (
        level.load key db.disk,
        record db { checkpoints = set_in_last key (level.load key db.disk) db.checkpoints },
      )
    ]

    unfoldable pub put : ℕ → V → CheckpointDb V Disk → CheckpointDb V Disk
    unfolding set_in_last is_checkpoint
    put key val db =
        if is_checkpoint db
        then record db { checkpoints = set_in_last key (some val) db.checkpoints }
        else record db { disk = level.store key val db.disk }

    unfoldable pub del : ℕ → CheckpointDb V Disk → CheckpointDb V Disk
    unfolding set_in_last is_checkpoint
    del key db =
        if is_checkpoint db
        then record db { checkpoints = set_in_last key none db.checkpoints }
        else record db { disk = level.delete key db.disk }

    -- The loop of `batch` during a checkpoint.
    unfoldable pub batch_loop : List (BatchDbOp V) → CheckpointDb V Disk → CheckpointDb V Disk
    unfolding put del
    batch_loop [] db = db
    batch_loop (put_op key value ∷ op_stack) db = batch_loop op_stack (put key value db)
    batch_loop (del_op key ∷ op_stack) db = batch_loop op_stack (del key db)

    unfoldable pub batch : List (BatchDbOp V) → CheckpointDb V Disk → CheckpointDb V Disk
    unfolding batch_loop is_checkpoint
    batch op_stack db =
        if is_checkpoint db
        then batch_loop op_stack db
        else record db { disk = level.apply_batch op_stack db.disk }
