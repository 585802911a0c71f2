-- ===== src/State/TransientStorage/Tests.antt =====
-- The transient storage on a frame that writes and reverts, and its theorems applied to the frame.
use moola_fix.Common.{◌≡◌, refl, ◌∷◌, [], ◌++◌, ◌>>=◌, ok, err}
use moola_fix.State.TransientStorage.{
  TransientStorage, value_length, nothing_to_commit, new_transient_storage, get, put, commit,
  checkpoint, revert, zero_word,
}
use moola_fix.State.TransientStorage.Frames.{Run, start, write, revert_restores}

-- One slot of the address 7 holds the byte 1.
abbrev one_slot : TransientStorage
one_slot = record {
  storage = (7, (3, 1 ∷ []) ∷ []) ∷ [];
  journal = record { addr = 7; key = 3; prev_value = [] } ∷ [];
  indices = 0 ∷ [];
}

-- The states inside a frame that writes this slot again, and then one of another address.
abbrev rewritten : TransientStorage
rewritten = record {
  storage = (7, (3, 2 ∷ []) ∷ []) ∷ [];
  journal =
      record { addr = 7; key = 3; prev_value = 1 ∷ [] }
      ∷ record { addr = 7; key = 3; prev_value = [] }
      ∷ [];
  indices = 1 ∷ 0 ∷ [];
}

abbrev written : TransientStorage
written = record {
  storage = (7, (3, 2 ∷ []) ∷ []) ∷ (9, (4, 5 ∷ []) ∷ []) ∷ [];
  journal =
      record { addr = 9; key = 4; prev_value = zero_word }
      ∷ record { addr = 7; key = 3; prev_value = 1 ∷ [] }
      ∷ record { addr = 7; key = 3; prev_value = [] }
      ∷ [];
  indices = 1 ∷ 0 ∷ [];
}

frame : Run (checkpoint one_slot) written
unfolding checkpoint put
frame = write 9 4 32 (5 ∷ []) (write {u = rewritten} 7 3 32 (2 ∷ []) start refl) refl

long_value_test : put 7 3 32 (zero_word ++ 0 ∷ []) one_slot ≡ err value_length
unfolding put
long_value_test = refl

commit-new_test : (commit new_transient_storage >>= commit) ≡ err nothing_to_commit
unfolding commit new_transient_storage
commit-new_test = refl

revert_restores_example :
    (v : TransientStorage) × (revert written ≡ ok v)
    × (v.journal ≡ one_slot.journal)
    × (v.indices ≡ one_slot.indices)
    × (get v 7 3 ≡ get one_slot 7 3)
revert_restores_example = revert_restores one_slot written 7 3 frame
