-- ===== src/State/TransientStorage.antt =====
-- packages/vm/src/state/transientStorage.ts: storage that lives for one transaction, with a journal.
-- An address and a slot are the numbers that their hexadecimal strings spell. `journal` and
-- `indices` are the arrays `_changeJournal` and `_indices` with the newest item first, so that
-- `push` and `pop` work at the head.
pub mod Journal
pub mod Frames
mod Tests
use moola_fix.Common.{
  ℕ, zero, suc, ◌-◌, Option, none, some, List, [], ◌∷◌, Result, ok, err, ◌>>=◌, ◌>>◌, throw_if, not,
  length, drop, replicate, ltb, ◌==◌, if◌then◌else◌,
}
use moola_fix.Common.Assoc.{Assoc, lookup, has, insert}

pub data Error : Type 0 where
  key_length value_length nothing_to_commit nothing_to_revert : Error
  -- A method called on `undefined`.
  type_error : Error

abbrev pub Buffer : Type 0
Buffer = List ℕ

-- `Buffer.alloc(32)`
abbrev pub zero_word : Buffer
zero_word = replicate 32 0

-- `TransientStorageModification`
pub record Modification : Type 0 where
  pub addr : ℕ
  pub key : ℕ
  pub prev_value : Buffer

pub record TransientStorage : Type 0 where
  pub storage : Assoc (Assoc Buffer)
  pub journal : List Modification
  pub indices : List ℕ

-- The initial values of the fields.
unfoldable pub new_transient_storage : TransientStorage
new_transient_storage = record { storage = []; journal = []; indices = 0 ∷ [] }

abbrev pub slot_or_zero : ℕ → Assoc Buffer → Buffer
slot_or_zero key map = elim (lookup key map) [ none ↦ zero_word | some v ↦ v ]

unfoldable pub get : TransientStorage → ℕ → ℕ → Buffer
get s addr key = elim (lookup addr s.storage) [ none ↦ zero_word | some map ↦ slot_or_zero key map ]

-- The map of an address, after `put` has made sure that there is one.
abbrev pub map_of : ℕ → Assoc (Assoc Buffer) → Assoc Buffer
map_of addr storage = elim (lookup addr storage) [ none ↦ [] | some map ↦ map ]

-- `put`; `key_len` is the length of the buffer `key`.
unfoldable pub put : ℕ → ℕ → ℕ → Buffer → TransientStorage → Result Error TransientStorage
put addr key key_len value s = do
  throw_if (not (key_len == 32)) key_length
  throw_if (ltb 32 (length value)) value_length
  let map = map_of addr s.storage
  ok (record s {
    storage = insert addr (insert key value map) s.storage;
    journal = record { addr = addr; key = key; prev_value = slot_or_zero key map } ∷ s.journal;
  })

unfoldable pub commit : TransientStorage → Result Error TransientStorage
commit s = elim s.indices [
  | [] ↦ err nothing_to_commit
  | _ ∷ indices ↦ ok (record s { indices = indices })
]

unfoldable pub checkpoint : TransientStorage → TransientStorage
checkpoint s = record s { indices = length s.journal ∷ s.indices }

-- One round of the loop of `revert`.
unfoldable pub undo : Modification → Assoc (Assoc Buffer) → Result Error (Assoc (Assoc Buffer))
undo m storage = elim (lookup m.addr storage) [
  | none ↦ err type_error
  | some map ↦ ok (insert m.addr (insert m.key m.prev_value map) storage)
]

-- The loop of `revert`: `rounds` is `i - lastCheckpoint + 1`, and the newest modification is undone
-- first.
unfoldable pub undo_all :
    ℕ → List Modification → Assoc (Assoc Buffer) → Result Error (Assoc (Assoc Buffer))
undo_all zero journal storage = ok storage
undo_all (suc rounds) [] storage = err type_error
undo_all (suc rounds) (m ∷ journal) storage = undo m storage >>= undo_all rounds journal

unfoldable pub revert : TransientStorage → Result Error TransientStorage
unfolding undo_all
revert s = elim s.indices [
  | [] ↦ err nothing_to_revert
  | last_checkpoint ∷ indices ↦ do
    storage ← undo_all (length s.journal - last_checkpoint) s.journal s.storage
    ok (record {
      storage = storage;
      journal = drop (length s.journal - last_checkpoint) s.journal;
      indices = indices;
    })
]
