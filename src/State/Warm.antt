-- ===== src/State/Warm.antt =====
-- The warm addresses and slots of packages/vm/src/state/baseStateManager.ts, `_accessedStorage` and its
-- part in `checkpoint`, `commit` and `revert`, and the access charges of
-- packages/vm/src/evm/opcodes/EIP2929.ts. An address or a slot is the number that its hexadecimal
-- string spells. The array of maps has its last item first.
pub mod Scopes
pub mod Charges
mod Tests
use moola_fix.Common.{
  ℕ, Bool, true, false, not, ◌&&◌, ◌||◌, Option, none, some, List, [], ◌∷◌, ◌++◌, ◌==◌,
  if◌then◌else◌,
}
use moola_fix.Common.Assoc.{Assoc, lookup, has, insert}

-- A `Set` of slots.
abbrev pub mem : ℕ → List ℕ → Bool
mem k [] = false
mem k (j ∷ set) = j == k || mem k set

abbrev pub add_to_set : ℕ → List ℕ → List ℕ
add_to_set k set = if mem k set then set else set ++ k ∷ []

abbrev pub Frame : Type 0
Frame = Assoc (List ℕ)

abbrev pub slots_of : ℕ → Frame → List ℕ
slots_of address frame = elim (lookup address frame) [ none ↦ [] | some set ↦ set ]

-- `currentMap.has(addressKey) && currentMap.get(addressKey)!.has(storageKey)`
abbrev pub slot_in : ℕ → ℕ → Frame → Bool
slot_in address slot frame = mem slot (slots_of address frame)

-- A new entry for an address that has none.
abbrev pub touch : ℕ → Frame → Frame
touch address frame = if has address frame then frame else insert address [] frame

abbrev pub add_slot : ℕ → ℕ → Frame → Frame
add_slot address slot frame = insert address (add_to_set slot (slots_of address frame)) frame

-- `isWarmedAddress`
unfoldable pub is_warmed_address : ℕ → List Frame → Bool
is_warmed_address address [] = false
is_warmed_address address (frame ∷ frames) = has address frame || is_warmed_address address frames

-- `isWarmedStorage`
unfoldable pub is_warmed_storage : ℕ → ℕ → List Frame → Bool
is_warmed_storage address slot [] = false
is_warmed_storage address slot (frame ∷ frames) =
    slot_in address slot frame || is_warmed_storage address slot frames

-- `addWarmedAddress` and `addWarmedStorage`; there is always a map, so that the last clause, where
-- the code would throw, is not reached.
unfoldable pub add_warmed_address : ℕ → List Frame → List Frame
add_warmed_address address (frame ∷ frames) = touch address frame ∷ frames
add_warmed_address address [] = []

unfoldable pub add_warmed_storage : ℕ → ℕ → List Frame → List Frame
add_warmed_storage address slot (frame ∷ frames) = add_slot address slot frame ∷ frames
add_warmed_storage address slot [] = []

-- `clearWarmedAccounts`
unfoldable pub clear_warmed_accounts : List Frame → List Frame
clear_warmed_accounts frames = [] ∷ []

-- The loops of `_accessedStorageMerge`, over the slots of an address and over the addresses.
unfoldable pub merge_slots : ℕ → List ℕ → Frame → Frame
merge_slots address [] target = target
merge_slots address (slot ∷ slots) target = merge_slots address slots (add_slot address slot target)

unfoldable pub merge : Frame → Frame → Frame
unfolding merge_slots
merge [] target = target
merge ((address, slots) ∷ map) target = merge map (merge_slots address slots (touch address target))

-- What `checkpoint`, `commit` and `revert` do to the array.
unfoldable pub checkpoint_warm : List Frame → List Frame
checkpoint_warm frames = [] ∷ frames

unfoldable pub commit_warm : List Frame → List Frame
unfolding merge
commit_warm (map ∷ target ∷ frames) = merge map target ∷ frames
commit_warm (map ∷ []) = []
commit_warm [] = []

unfoldable pub revert_warm : List Frame → List Frame
revert_warm (last ∷ frames) = frames
revert_warm [] = []

pub record AccessPrices : Type 0 where
  pub cold_account_access : ℕ
  pub warm_storage_read : ℕ
  pub cold_sload : ℕ

-- `accessAddressEIP2929`
unfoldable pub access_address : AccessPrices → Bool → ℕ → Bool → Bool → List Frame → ℕ × List Frame
unfolding is_warmed_address add_warmed_address
access_address p eip2929 address charge_gas is_selfdestruct frames =
    if not eip2929
    then (0, frames)
    else if not (is_warmed_address address frames)
    then (if charge_gas then p.cold_account_access else 0, add_warmed_address address frames)
    else if charge_gas && not is_selfdestruct
    then (p.warm_storage_read, frames)
    else (0, frames)

-- `accessStorageEIP2929`
unfoldable pub access_storage : AccessPrices → Bool → ℕ → ℕ → Bool → List Frame → ℕ × List Frame
unfolding is_warmed_storage add_warmed_storage
access_storage p eip2929 address slot is_sstore frames =
    if not eip2929
    then (0, frames)
    else if not (is_warmed_storage address slot frames)
    then (p.cold_sload, add_warmed_storage address slot frames)
    else if not is_sstore
    then (p.warm_storage_read, frames)
    else (0, frames)
