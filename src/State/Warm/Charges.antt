-- ===== src/State/Warm/Charges.antt =====
-- What repeated accesses cost under EIP-2929.
use moola_fix.Common.{
  ℕ, ◌≡◌, ◌∙◌, refl, ap, not, ==_iff, inl, inr, Bool, true, false, ◌&&◌, ◌||◌, List, ◌∷◌, ◌==◌,
  if◌then◌else◌, arith, Bool-cases, ==_refl,
}
use moola_fix.State.Warm.{
  Frame, AccessPrices, is_warmed_storage, add_warmed_storage, access_storage,
}
use moola_fix.State.Warm.Scopes.{slot_in-add_slot}

-- An access of a warm slot.
access_warm :
    (p : AccessPrices) (address slot : ℕ) (again : Bool) (frames : List Frame)
    → is_warmed_storage address slot frames ≡ true
    → access_storage p true address slot again frames
      ≡ (if again then 0 else p.warm_storage_read, frames)
unfolding access_storage
access_warm p address slot true frames h = rw h
access_warm p address slot false frames h = rw h

access_cold :
    (p : AccessPrices) (address slot : ℕ) (again : Bool) (frames : List Frame)
    → is_warmed_storage address slot frames ≡ false
    → access_storage p true address slot again frames
      ≡ (p.cold_sload, add_warmed_storage address slot frames)
unfolding access_storage
access_cold p address slot again frames h = rw h

warm_already :
    (address slot b j : ℕ) (frames : List Frame)
    → is_warmed_storage address slot frames ≡ true
    → is_warmed_storage b j frames ≡ ((address == b && slot == j) || is_warmed_storage b j frames)
warm_already address slot b j frames h = elim (Bool-cases (address == b)) [
  | inr other ↦ rw other
  | inl same ↦ elim (Bool-cases (slot == j)) [
    | inr other ↦ rw (same, other)
    | inl same_slot ↦
        rw (same, same_slot) (rw (← (==_iff address b).0 same, ← (==_iff slot j).0 same_slot) h)
  ]
]

after_access :
    (p : AccessPrices) (address slot b j : ℕ) (is_sstore : Bool) (frame : Frame)
    (frames : List Frame)
    → is_warmed_storage b j (access_storage p true address slot is_sstore (frame ∷ frames)).1
      ≡ ((address == b && slot == j) || is_warmed_storage b j (frame ∷ frames))
unfolding is_warmed_storage add_warmed_storage
after_access p address slot b j is_sstore frame frames =
    elim (Bool-cases (is_warmed_storage address slot (frame ∷ frames))) [
      | inl warm ↦
          rw (access_warm p address slot is_sstore (frame ∷ frames) warm)
            (warm_already address slot b j (frame ∷ frames) warm)
      | inr cold ↦
          rw (access_cold p address slot is_sstore (frame ∷ frames) cold)
            (ground (arith, slot_in-add_slot address slot b j frame))
    ]

-- Where there is a map and EIP-2929 is active, an access of a slot leaves it warm, keeps every warm slot warm
-- and makes no other slot warm; and the next access of the slot costs the price of a warm read, or nothing
-- for SSTORE, and changes nothing. Where the EIP is not active, an access costs and changes nothing.
pub access_storage_warms :
    (p : AccessPrices) (active : Bool) (address slot b j : ℕ) (is_sstore again : Bool)
    (frame : Frame) (frames : List Frame)
    → (is_warmed_storage b j (access_storage p active address slot is_sstore (frame ∷ frames)).1
        ≡ ((active && address == b && slot == j) || is_warmed_storage b j (frame ∷ frames)))
      × (access_storage p active address slot again
            (access_storage p active address slot is_sstore (frame ∷ frames)).1
          ≡ (
            if active && not again then p.warm_storage_read else 0,
            (access_storage p active address slot is_sstore (frame ∷ frames)).1,
          ))
      × (if active
          then Unit
          else access_storage p active address slot is_sstore (frame ∷ frames)
            ≡ (0, frame ∷ frames))
unfolding access_storage
access_storage_warms p false address slot b j is_sstore again frame frames = (refl, refl, refl)
access_storage_warms p true address slot b j is_sstore again frame frames = (
  after_access p address slot b j is_sstore frame frames,
  access_warm p address slot again (access_storage p true address slot is_sstore (frame ∷ frames)).1
        (after_access p address slot address slot is_sstore frame frames
          ∙ ground (arith, ==_refl address, ==_refl slot))
      ∙ ap (λ (c : ℕ). (c, (access_storage p true address slot is_sstore (frame ∷ frames)).1))
          (swap again),
  tt,
)
  where
    swap :
        (again : Bool)
        → (if again then 0 else p.warm_storage_read)
          ≡ (if true && not again then p.warm_storage_read else 0)
    swap again = ground arith
