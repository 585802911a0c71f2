-- ===== src/Chain/Params/Positions.antt =====
-- The positions of hardforks that `hardforkGteHardfork` of packages/common/src/index.ts compares.
use moola_fix.Common.{
  ℕ, suc, ◌≤◌, ◌<◌, ◌≡◌, ◌⊎◌, inl, inr, refl, Bool, ◌∙◌, true, Option, some, List, [], ◌∷◌, leb,
  ◌==◌, if◌then◌else◌, arith, Bool-cases, Option-cases, ==_iff, ==_refl, ==_false,
}
use moola_fix.Chain.Params.{HardforkParams, position, gte_positions}
use moola_fix.Chain.Params.Order.{
  IsNamed, IsDistinct, IsSortedFrom, Has, by_block, by_block_unset, by_block_active,
  by_block_inactive, position-missing, by_block_later,
}

-- A name has a position in a list whose first position is `index`.
abbrev pub Placed : ℕ → ℕ → List HardforkParams → Type 0
Placed name index hfs =
    (p : ℕ) × (index ≤ p) × ((pos : Option ℕ) → position name index hfs pos ≡ some p)

pub Placed-head :
    (index : ℕ) (hf : HardforkParams) (hfs : List HardforkParams)
    → ¬ (IsNamed hf.name hfs)
    → Placed hf.name index (hf ∷ hfs)
unfolding position
Placed-head index hf hfs h = (
  index,
  omega arith,
  λ pos. rw (==_refl hf.name) (position-missing hf.name (suc index) hfs (some index) h),
)

Placed-tail :
    (name index : ℕ) (hf : HardforkParams) (hfs : List HardforkParams)
    → Placed name (suc index) hfs
    → Placed name index (hf ∷ hfs)
unfolding position
Placed-tail name index hf hfs h =
    let (p, further, same) = h in
    (p, omega arith, λ pos. same (if hf.name == name then some index else pos))

pub by_block-Placed :
    (block_number index : ℕ) (hf : HardforkParams) (hfs : List HardforkParams)
    → ¬ (IsNamed hf.name hfs)
    → (by_block block_number hf.name hfs ≡ hf.name)
      ⊎ Placed (by_block block_number hf.name hfs) (suc index) hfs
    → Placed (by_block block_number hf.name hfs) index (hf ∷ hfs)
by_block-Placed block_number index hf hfs h (inl same) = rw same (Placed-head index hf hfs h)
by_block-Placed block_number index hf hfs h (inr placed) =
    Placed-tail (by_block block_number hf.name hfs) index hf hfs placed

-- The hardfork at a block is the one before the list, or it stands in the list.
pub by_block-cases :
    (block_number name index : ℕ) (hfs : List HardforkParams)
    → IsDistinct hfs
    → (by_block block_number name hfs ≡ name) ⊎ Placed (by_block block_number name hfs) index hfs
unfolding by_block
by_block-cases block_number name index [] h = inl refl
by_block-cases block_number name index (hf ∷ hfs) h = elim (Option-cases hf.block) [
  | inl e ↦
      rw (by_block_unset block_number name hf hfs e)
        (elim (by_block-cases block_number name (suc index) hfs h.1) [
          | inl same ↦ inl same
          | inr placed ↦ inr (Placed-tail (by_block block_number name hfs) index hf hfs placed)
        ])
  | inr (block, e) ↦ elim (Bool-cases (leb block block_number)) [
    | inl active ↦ rw (by_block_active block_number name hf hfs block e active) (
        inr (
          by_block-Placed block_number index hf hfs h.0
            (by_block-cases block_number hf.name (suc index) hfs h.1)))
    | inr later ↦
        rw (by_block_inactive block_number name hf hfs block e later)
          (elim (by_block-cases block_number name (suc index) hfs h.1) [
            | inl same ↦ inl same
            | inr placed ↦ inr (Placed-tail (by_block block_number name hfs) index hf hfs placed)
          ])
  ]
]

pub position_head :
    (target index : ℕ) (hf : HardforkParams) (hfs : List HardforkParams) (pos : Option ℕ)
    → hf.name ≡ target
    → ¬ (IsNamed hf.name hfs)
    → position target index (hf ∷ hfs) pos ≡ some index
unfolding position
position_head target index hf hfs pos same new =
    rw ((==_iff hf.name target).1 same)
      (position-missing target (suc index) hfs (some index) (λ named. new (rw same named)))

-- The position of a name that the list does not have stays.
stays_known :
    (name index : ℕ) {r : ℕ} (hf : HardforkParams) (hfs : List HardforkParams) (pos : Option ℕ)
    {known : Option ℕ}
    → ¬ (IsNamed name (hf ∷ hfs))
    → r ≡ name
    → pos ≡ known
    → (if hf.name == r then some index else pos) ≡ known
stays_known name index hf hfs pos new same h =
    rw (same, (==_false hf.name name).1 (λ e. new (inl e))) h

pub position_cons :
    (r index : ℕ) (hf : HardforkParams) (hfs : List HardforkParams) (pos : Option ℕ)
    → position r index (hf ∷ hfs) pos
      ≡ position r (suc index) hfs (if hf.name == r then some index else pos)
unfolding position
position_cons r index hf hfs pos = refl

pub gte-Placed :
    (r index : ℕ) (hfs : List HardforkParams) (pos : Option ℕ)
    → Placed r index hfs
    → gte_positions (position r index hfs pos) (some index) ≡ true
gte-Placed r index hfs pos (p, further, same) = rw (same pos) (ground arith)

-- A hardfork in front of the others moves the positions on, where it passes on the name `next`.
gte_next :
    (block_number name next target index : ℕ) (hf : HardforkParams) (hfs : List HardforkParams)
    (pos1 pos2 : Option ℕ) (answer : Bool)
    → by_block block_number name (hf ∷ hfs) ≡ by_block block_number next hfs
    → gte_positions
        (position
          (by_block block_number next hfs)
          (suc index)
          hfs
          (if hf.name == by_block block_number next hfs then some index else pos1))
        (position target (suc index) hfs (if hf.name == target then some index else pos2))
      ≡ answer
    → gte_positions
        (position (by_block block_number name (hf ∷ hfs)) index (hf ∷ hfs) pos1)
        (position target index (hf ∷ hfs) pos2)
      ≡ answer
gte_next block_number name next target index hf hfs pos1 pos2 answer e h =
    rw
      (
        e,
        position_cons (by_block block_number next hfs) index hf hfs pos1,
        position_cons target index hf hfs pos2,
      )
      h

-- Where the hardforks are in order, the hardfork at a block does not stand before another of the list
-- exactly when that one is active at the block.
pub gte-by_block :
    (block_number name index name_index low : ℕ) (hfs : List HardforkParams) (target block : ℕ)
    (pos1 pos2 : Option ℕ)
    → IsDistinct hfs
    → IsSortedFrom low hfs
    → ¬ (IsNamed name hfs)
    → name_index < index
    → (by_block block_number name hfs ≡ name → pos1 ≡ some name_index)
    → Has target block hfs
    → gte_positions
        (position (by_block block_number name hfs) index hfs pos1)
        (position target index hfs pos2)
      ≡ leb block block_number
gte-by_block block_number name index name_index low [] target block pos1 pos2 h sorted new below
      known has =
    absurd has
gte-by_block block_number name index name_index low (hf ∷ hfs) target block pos1 pos2 h sorted new
      below known (inl has) =
    let (same, at_block) = has in
    let sorted' : (low ≤ block) × IsSortedFrom block hfs = rw at_block at sorted in
    rw (position_head target index hf hfs pos2 same h.0)
      (elim (Bool-cases (leb block block_number)) [
        | inl active ↦
            let e = by_block_active block_number name hf hfs block at_block active in
            rw (e, active)
              (gte-Placed (by_block block_number hf.name hfs) index (hf ∷ hfs) pos1 (
                by_block-Placed block_number index hf hfs h.0
                  (by_block-cases block_number hf.name (suc index) hfs h.1)))
        | inr later ↦
            let stays =
              by_block_inactive block_number name hf hfs block at_block later
              ∙ by_block_later block_number name block hfs (ground arith) sorted'.1 in
            rw (later, stays, position-missing name index (hf ∷ hfs) pos1 new, known stays)
              (ground arith)
      ])
gte-by_block block_number name index name_index low (hf ∷ hfs) target block pos1 pos2 h sorted new
      below known (inr has) =
    let moved = gte_next block_number name in
    let first =
      λ (next : ℕ). if hf.name == by_block block_number next hfs then some index else pos1 in
    let second = if hf.name == target then some index else pos2 in
    elim (Option-cases hf.block) [
      | inl unset ↦
          let e = by_block_unset block_number name hf hfs unset in
          moved name target index hf hfs pos1 pos2 (leb block block_number) e (
            gte-by_block block_number name (suc index) name_index low hfs target block (first name)
              second h.1 (rw unset at sorted) (λ named. new (inr named)) (omega arith)
              (λ same. stays_known name index hf hfs pos1 new same (known (e ∙ same))) has)
      | inr (b, at_block) ↦
          let sorted' : (low ≤ b) × IsSortedFrom b hfs = rw at_block at sorted in
          elim (Bool-cases (leb b block_number)) [
            | inl active ↦
                moved hf.name target index hf hfs pos1 pos2 (leb block block_number)
                  (by_block_active block_number name hf hfs b at_block active)
                  (gte-by_block block_number hf.name (suc index) index b hfs target block
                    (first hf.name) second h.1 sorted'.1 h.0 (omega arith)
                    (λ same. rw (same, ==_refl hf.name) refl) has)
            | inr later ↦
                let e = by_block_inactive block_number name hf hfs b at_block later in
                moved name target index hf hfs pos1 pos2 (leb block block_number) e (
                  gte-by_block block_number name (suc index) name_index b hfs target block
                    (first name) second h.1 sorted'.1 (λ named. new (inr named)) (omega arith)
                    (λ same. stays_known name index hf hfs pos1 new same (known (e ∙ same))) has)
          ]
    ]
