-- ===== src/State/Warm/Scopes.antt =====
-- What stays warm at the end of a scope.
use moola_fix.Common.{
  ℕ, ◌≡◌, refl, sym, ap, ◌∙◌, inl, inr, true, false, ◌&&◌, ◌||◌, List, [], ◌∷◌, ◌++◌, ◌==◌,
  if◌then◌else◌, arith, Bool-cases, ==_iff, Option-cases,
}
use moola_fix.Common.Assoc.{IsMap, lookup, has, insert, lookup-insert, has-insert, lookup-has}
use moola_fix.State.Warm.{
  Frame, mem, add_to_set, slots_of, slot_in, touch, add_slot, is_warmed_address, is_warmed_storage,
  add_warmed_address, add_warmed_storage, merge_slots, merge, checkpoint_warm, commit_warm,
  revert_warm,
}

mem-append : (k : ℕ) (xs ys : List ℕ) → mem k (xs ++ ys) ≡ (mem k xs || mem k ys)
mem-append k [] ys = refl
mem-append k (x ∷ xs) ys = ground (arith, mem-append k xs ys)

mem-add_to_set : (k j : ℕ) (set : List ℕ) → mem j (add_to_set k set) ≡ ((k == j) || mem j set)
mem-add_to_set k j set = elim (Bool-cases (mem k set)) [
  | inl there ↦ rw there (elim (Bool-cases (k == j)) [
    | inl same ↦ rw (same, ← (==_iff k j).0 same) there
    | inr other ↦ rw other
  ])
  | inr new ↦ rw new (ground (arith, mem-append j set (k ∷ [])))
]

slots_of-insert :
    (a b : ℕ) (slots : List ℕ) (frame : Frame)
    → slots_of b (insert a slots frame) ≡ (if a == b then slots else slots_of b frame)
slots_of-insert a b slots frame = elim (Bool-cases (a == b)) [
  | inl same ↦ rw (lookup-insert a b slots frame, same, slots_of)
  | inr other ↦ rw (lookup-insert a b slots frame, other, slots_of)
]

pub slot_in-add_slot :
    (a k b j : ℕ) (frame : Frame)
    → slot_in b j (add_slot a k frame) ≡ ((a == b && k == j) || slot_in b j frame)
slot_in-add_slot a k b j frame = elim (Bool-cases (a == b)) [
  | inl same ↦
      rw (slots_of-insert a b (add_to_set k (slots_of a frame)) frame, same)
        (mem-add_to_set k j (slots_of a frame) ∙ rw ((==_iff a b).0 same))
  | inr other ↦ rw (slots_of-insert a b (add_to_set k (slots_of a frame)) frame, other)
]

-- An address without an entry has no slots.
slots_of-missing : (a : ℕ) (frame : Frame) → has a frame ≡ false → slots_of a frame ≡ []
slots_of-missing a frame h = elim (Option-cases (lookup a frame)) [
  | inl missing ↦ rw (missing, slots_of)
  | inr (v, found) ↦ absurd (ground (arith, lookup-has a v frame found, h))
]

slot_in-touch : (a b j : ℕ) (frame : Frame) → slot_in b j (touch a frame) ≡ slot_in b j frame
slot_in-touch a b j frame = elim (Bool-cases (has a frame)) [
  | inl there ↦ rw there
  | inr new ↦ rw new (
      ap (mem j) (
        slots_of-insert a b [] frame ∙ elim (Bool-cases (a == b)) [
          | inl same ↦ rw same (sym (slots_of-missing b frame (rw ((==_iff a b).0 same) at new)))
          | inr other ↦ rw other
        ]))
]

has-touch : (a b : ℕ) (frame : Frame) → has b (touch a frame) ≡ ((a == b) || has b frame)
has-touch a b frame = elim (Bool-cases (has a frame)) [
  | inl there ↦ rw there (elim (Bool-cases (a == b)) [
    | inl same ↦ rw (same, ← (==_iff a b).0 same) there
    | inr other ↦ rw other
  ])
  | inr new ↦ rw new (has-insert a b [] frame)
]

slot_in-merge_slots :
    (a : ℕ) (slots : List ℕ) (target : Frame) (b j : ℕ)
    → slot_in b j (merge_slots a slots target) ≡ ((a == b && mem j slots) || slot_in b j target)
unfolding merge_slots
slot_in-merge_slots a [] target b j = ground arith
slot_in-merge_slots a (slot ∷ slots) target b j = ground (
  arith,
  slot_in-merge_slots a slots (add_slot a slot target) b j,
  slot_in-add_slot a slot b j target,
)

has-merge_slots :
    (a : ℕ) (slots : List ℕ) (target : Frame) (b : ℕ)
    → has a target ≡ true
    → has b (merge_slots a slots target) ≡ has b target
unfolding merge_slots
has-merge_slots a [] target b h = refl
has-merge_slots a (slot ∷ slots) target b h =
    let added = has-insert a b (add_to_set slot (slots_of a target)) target in
    let kept = has-insert a a (add_to_set slot (slots_of a target)) target in
    has-merge_slots a slots (add_slot a slot target) b (ground (arith, kept, h))
    ∙ added
    ∙ elim (Bool-cases (a == b)) [
      | inl same ↦ rw (same, ← (==_iff a b).0 same) (sym h)
      | inr other ↦ rw other
    ]

-- Merging keeps the entries and the slots of both maps.
has-merge : (map target : Frame) (b : ℕ) → has b (merge map target) ≡ (has b map || has b target)
unfolding merge
has-merge [] target b = refl
has-merge ((a, slots) ∷ map) target b = ground (
  arith,
  has-merge map (merge_slots a slots (touch a target)) b,
  has-merge_slots a slots (touch a target) b (ground (arith, has-touch a a target)),
  has-touch a b target,
)

slot_in-merge :
    (map target : Frame) (b j : ℕ)
    → IsMap map
    → slot_in b j (merge map target) ≡ (slot_in b j map || slot_in b j target)
unfolding merge
slot_in-merge [] target b j h = refl
slot_in-merge ((a, slots) ∷ map) target b j h =
    let rest = slot_in-merge map (merge_slots a slots (touch a target)) b j h.1 in
    let first = slot_in-merge_slots a slots (touch a target) b j in
    let touched = slot_in-touch a b j target in
    elim (Bool-cases (a == b)) [
      | inl same ↦
          let none_left : slots_of b map ≡ [] =
            slots_of-missing b map (rw ((==_iff a b).0 same) at h.0) in
          let here : slot_in b j ((a, slots) ∷ map) ≡ mem j slots = rw (same, slots_of) refl in
          let not_later : slot_in b j map ≡ false = ap (mem j) none_left in
          ground (arith, rest, first, touched, same, here, not_later)
      | inr other ↦
          let later : slot_in b j ((a, slots) ∷ map) ≡ slot_in b j map =
            rw (other, slots_of) refl in
          ground (arith, rest, first, touched, other, later)
    ]

-- Committing a scope, whose map has one entry for a key, changes no answer: an address or a slot that was warm in the scope or around it
-- is warm behind it, and no other.
pub commit_warm_keeps :
    (map target : Frame) (frames : List Frame) (address slot : ℕ)
    → IsMap map
    → (is_warmed_address address (commit_warm (map ∷ target ∷ frames))
        ≡ is_warmed_address address (map ∷ target ∷ frames))
      × (is_warmed_storage address slot (commit_warm (map ∷ target ∷ frames))
          ≡ is_warmed_storage address slot (map ∷ target ∷ frames))
unfolding commit_warm is_warmed_address is_warmed_storage
commit_warm_keeps map target frames address slot h = (
  ground (arith, has-merge map target address),
  ground (arith, slot_in-merge map target address slot h),
)

-- What can happen between the begin of a scope and its end.
pub data Run : List Frame → List Frame → Type 0 where
  start : {s : List Frame} → Run s s
  warm_address : {s t : List Frame} (address : ℕ) → Run s t → Run s (add_warmed_address address t)
  warm_storage :
      {s t : List Frame} (address slot : ℕ) → Run s t → Run s (add_warmed_storage address slot t)
  committed : {s t u : List Frame} → Run s t → Run (checkpoint_warm t) u → Run s (commit_warm u)
  reverted : {s t u : List Frame} → Run s t → Run (checkpoint_warm t) u → Run s (revert_warm u)

-- A run changes the innermost map alone.
Run-innermost :
    {s t : List Frame} (x : Frame) (rest : List Frame)
    → Run s t
    → s ≡ x ∷ rest
    → (y : Frame) × (t ≡ y ∷ rest)
unfolding add_warmed_address add_warmed_storage commit_warm revert_warm checkpoint_warm
Run-innermost x rest start e = (x, e)
Run-innermost x rest (warm_address address r) e =
    let (y, f) = Run-innermost x rest r e in (touch address y, rw f)
Run-innermost x rest (warm_storage address slot r) e =
    let (y, f) = Run-innermost x rest r e in (add_slot address slot y, rw f)
Run-innermost x rest (committed {t = t} r inner) e =
    let (y, f) = Run-innermost x rest r e in
    let (z, g) = Run-innermost [] t inner refl in (merge z y, rw (g, f))
Run-innermost x rest (reverted {t = t} r inner) e =
    let (y, f) = Run-innermost x rest r e in
    let (z, g) = Run-innermost [] t inner refl in (y, rw g f)

-- Whatever becomes warm in a scope, scopes inside it that commit or revert included, reverting the
-- scope leaves the maps that were there when it began.
pub revert_warm_restores :
    (frames t : List Frame) → Run (checkpoint_warm frames) t → revert_warm t ≡ frames
unfolding revert_warm checkpoint_warm
revert_warm_restores frames t r = let (y, e) = Run-innermost [] frames r refl in rw e
