-- ===== src/State/Warm/Tests.antt =====
-- Warm slots in nested scopes, and the theorems applied to them.
use moola_fix.Common.{◌≡◌, refl, true, false, ◌&&◌, ◌||◌, not, [], ◌∷◌, ◌==◌, if◌then◌else◌}
use moola_fix.State.Warm.{
  Frame, AccessPrices, is_warmed_address, is_warmed_storage, add_warmed_storage, merge_slots, merge,
  checkpoint_warm, commit_warm, revert_warm, access_storage, access_address,
}
use moola_fix.State.Warm.Scopes.{
  Run, start, warm_storage, committed, commit_warm_keeps, revert_warm_restores,
}
use moola_fix.State.Warm.Charges.{access_storage_warms}

-- The slots 1 and 2 of the address 7, and those of two addresses in an outer scope.
abbrev inner : Frame
inner = (7, 1 ∷ 2 ∷ []) ∷ []

abbrev outer : Frame
outer = (9, 4 ∷ []) ∷ (7, 2 ∷ []) ∷ []

abbrev prices : AccessPrices
prices = record { cold_account_access = 2600; warm_storage_read = 100; cold_sload = 2100 }

commit_warm_test : commit_warm (inner ∷ outer ∷ []) ≡ ((9, 4 ∷ []) ∷ (7, 2 ∷ 1 ∷ []) ∷ []) ∷ []
unfolding commit_warm merge merge_slots
commit_warm_test = refl

access_address_test :
    access_address prices true 9 true false (inner ∷ outer ∷ []) ≡ (100, inner ∷ outer ∷ [])
unfolding access_address is_warmed_address
access_address_test = refl

commit_warm_keeps_example :
    (is_warmed_address 7 (commit_warm (inner ∷ outer ∷ []))
      ≡ is_warmed_address 7 (inner ∷ outer ∷ []))
    × (is_warmed_storage 7 1 (commit_warm (inner ∷ outer ∷ []))
        ≡ is_warmed_storage 7 1 (inner ∷ outer ∷ []))
commit_warm_keeps_example = commit_warm_keeps inner outer [] 7 1 (refl, tt)

-- A scope that warms a slot, and has a scope inside it that warms another and commits.
scope : Run (checkpoint_warm (outer ∷ [])) (((5, 8 ∷ []) ∷ (6, 3 ∷ []) ∷ []) ∷ outer ∷ [])
unfolding checkpoint_warm commit_warm merge merge_slots add_warmed_storage
scope = committed (warm_storage 5 8 start) (warm_storage 6 3 start)

revert_warm_restores_example :
    revert_warm (((5, 8 ∷ []) ∷ (6, 3 ∷ []) ∷ []) ∷ outer ∷ []) ≡ outer ∷ []
revert_warm_restores_example =
    revert_warm_restores (outer ∷ []) (((5, 8 ∷ []) ∷ (6, 3 ∷ []) ∷ []) ∷ outer ∷ []) scope

access_storage_warms_example :
    (is_warmed_storage 9 4 (access_storage prices true 7 1 false (outer ∷ [])).1
      ≡ ((true && 7 == 9 && 1 == 4) || is_warmed_storage 9 4 (outer ∷ [])))
    × (access_storage prices true 7 1 true (access_storage prices true 7 1 false (outer ∷ [])).1 ≡ (
      if true && not true then prices.warm_storage_read else 0,
      (access_storage prices true 7 1 false (outer ∷ [])).1,
    ))
    × Unit {0}
access_storage_warms_example = access_storage_warms prices true 7 1 9 4 false true outer []
