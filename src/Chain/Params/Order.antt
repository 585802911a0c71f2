-- ===== src/Chain/Params/Order.antt =====
-- The hardforks of packages/common/src/index.ts in order: names, blocks and positions.
use moola_fix.Common.{
  ℕ, suc, ◌≤◌, ◌<◌, ◌≡◌, ◌⊎◌, inl, inr, refl, ◌∙◌, true, false, Option, none, some, List, [], ◌∷◌,
  leb, ◌==◌, if◌then◌else◌, arith, Option-cases, ==_false,
}
use moola_fix.Chain.Params.{HardforkParams, Common, position}
use moola_fix.Chain.Params.ByBlock.{chainstart}

abbrev pub IsNamed : ℕ → List HardforkParams → Type 0
IsNamed name [] = ⊥
IsNamed name (hf ∷ hfs) = (hf.name ≡ name) ⊎ IsNamed name hfs

-- No two hardforks have the same name.
abbrev pub IsDistinct : List HardforkParams → Type 0
IsDistinct [] = Unit
IsDistinct (hf ∷ hfs) = ¬ (IsNamed hf.name hfs) × IsDistinct hfs

-- The blocks, where they are set, do not go down, and start from `low`.
abbrev pub IsSortedFrom : ℕ → List HardforkParams → Type 0
IsSortedFrom low [] = Unit
IsSortedFrom low (hf ∷ hfs) = elim hf.block [
  | none ↦ IsSortedFrom low hfs
  | some block ↦ (low ≤ block) × IsSortedFrom block hfs
]

-- A list of hardforks has one with this name and this block.
abbrev pub Has : ℕ → ℕ → List HardforkParams → Type 0
Has name block [] = ⊥
Has name block (hf ∷ hfs) = ((hf.name ≡ name) × (hf.block ≡ some block)) ⊎ Has name block hfs

-- The hardforks of a chain: they have distinct names, they begin with `chainstart` at block 0, and their
-- blocks do not go down.
pub record IsChain (common : Common) : Type 0 where
  pub first : HardforkParams
  pub later : List HardforkParams
  pub all : common.hardforks ≡ first ∷ later
  pub first_name : first.name ≡ chainstart
  pub first_block : first.block ≡ some 0
  pub distinct : IsDistinct (first ∷ later)
  pub sorted : IsSortedFrom 0 later

pub Has-IsNamed :
    (name block : ℕ) (hfs : List HardforkParams) → Has name block hfs → IsNamed name hfs
Has-IsNamed name block [] h = absurd h
Has-IsNamed name block (hf ∷ hfs) (inl (same, _)) = inl same
Has-IsNamed name block (hf ∷ hfs) (inr later) = inr (Has-IsNamed name block hfs later)

-- The last hardfork of a list that is active at a block.
unfoldable pub by_block : ℕ → ℕ → List HardforkParams → ℕ
by_block block_number name [] = name
by_block block_number name (hf ∷ hfs) = elim hf.block [
  | none ↦ by_block block_number name hfs
  | some block ↦ by_block block_number (if leb block block_number then hf.name else name) hfs
]

module _ (block_number name : ℕ) (hf : HardforkParams) (hfs : List HardforkParams) where
  pub by_block_unset :
      hf.block ≡ none → by_block block_number name (hf ∷ hfs) ≡ by_block block_number name hfs
  unfolding by_block
  by_block_unset e = rw e refl

  pub by_block_active :
      (block : ℕ)
      → hf.block ≡ some block
      → leb block block_number ≡ true
      → by_block block_number name (hf ∷ hfs) ≡ by_block block_number hf.name hfs
  unfolding by_block
  by_block_active block e active = rw (e, active) refl

  pub by_block_inactive :
      (block : ℕ)
      → hf.block ≡ some block
      → leb block block_number ≡ false
      → by_block block_number name (hf ∷ hfs) ≡ by_block block_number name hfs
  unfolding by_block
  by_block_inactive block e later = rw (e, later) refl

pub position-missing :
    (name index : ℕ) (hfs : List HardforkParams) (pos : Option ℕ)
    → ¬ (IsNamed name hfs)
    → position name index hfs pos ≡ pos
unfolding position
position-missing name index [] pos h = refl
position-missing name index (hf ∷ hfs) pos h =
    let other : (hf.name == name) ≡ false = (==_false hf.name name).1 (λ same. h (inl same)) in
    rw other (position-missing name (suc index) hfs pos (λ later. h (inr later)))

-- Where no later hardfork is active, the hardfork stays.
pub by_block_later :
    (block_number name low : ℕ) (hfs : List HardforkParams)
    → block_number < low
    → IsSortedFrom low hfs
    → by_block block_number name hfs ≡ name
unfolding by_block
by_block_later block_number name low [] h sorted = refl
by_block_later block_number name low (hf ∷ hfs) h sorted = elim (Option-cases hf.block) [
  | inl e ↦
      by_block_unset block_number name hf hfs e
      ∙ by_block_later block_number name low hfs h (rw e at sorted)
  | inr (block, e) ↦
      let sorted' : (low ≤ block) × IsSortedFrom block hfs = rw e at sorted in
      by_block_inactive block_number name hf hfs block e (ground (arith, sorted'.0))
      ∙ by_block_later block_number name block hfs (omega (arith, sorted'.0)) sorted'.1
]
