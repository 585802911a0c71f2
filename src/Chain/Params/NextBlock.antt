-- ===== src/Chain/Params/NextBlock.antt =====
-- What `nextHardforkBlockBN` of packages/common/src/index.ts returns.
use moola_fix.Common.{
  ℕ, ◌≤◌, ◌<◌, ◌≡◌, refl, sym, subst, ◌∙◌, inl, inr, true, false, Option, none, some, List, [], ◌∷◌,
  ok, ltb, arith, Bool-cases, Option-cases,
}
use moola_fix.Chain.Params.{HardforkParams, Common, choose_hardfork, get_hardfork, hardfork_block}
use moola_fix.Chain.Params.ByBlock.{next_loop, next_hardfork_block}
use moola_fix.Chain.Params.Order.{IsDistinct, IsSortedFrom, Has, IsChain}
use moola_fix.Chain.Params.Active.{find_hardfork-Has}

-- A block is the first behind another at which the list has a hardfork; with `none` there is no such.
abbrev pub IsNextBlock : ℕ → List HardforkParams → Option ℕ → Type 0
IsNextBlock block hfs none = (name number : ℕ) → Has name number hfs → number ≤ block
IsNextBlock block hfs (some next) =
    (block < next)
    × ((name : ℕ) × Has name next hfs)
    × ((name number : ℕ) → Has name number hfs → block < number → next ≤ number)

next_loop-some :
    (block next : ℕ) (hfs : List HardforkParams) → next_loop block hfs (some next) ≡ some next
unfolding next_loop
next_loop-some block next [] = refl
next_loop-some block next (hf ∷ hfs) = next_loop-some block next hfs

-- The blocks of a list in order are not below the bound.
sorted-Has :
    (low : ℕ) (hfs : List HardforkParams) (name number : ℕ)
    → IsSortedFrom low hfs
    → Has name number hfs
    → low ≤ number
sorted-Has low [] name number sorted has = absurd has
sorted-Has low (hf ∷ hfs) name number sorted (inl has) =
    let sorted' : (low ≤ number) × IsSortedFrom number hfs = rw (has.1) at sorted in sorted'.0
sorted-Has low (hf ∷ hfs) name number sorted (inr has) = elim (Option-cases hf.block) [
  | inl e ↦ sorted-Has low hfs name number (rw e at sorted) has
  | inr (block, e) ↦
      let sorted' : (low ≤ block) × IsSortedFrom block hfs = rw e at sorted in
      omega (arith, sorted'.0, sorted-Has block hfs name number sorted'.1 has)
]

-- A hardfork that is not behind the block changes nothing.
IsNextBlock-cons :
    (block : ℕ) (hf : HardforkParams) (hfs : List HardforkParams) (next : Option ℕ)
    → ((number : ℕ) → hf.block ≡ some number → number ≤ block)
    → IsNextBlock block hfs next
    → IsNextBlock block (hf ∷ hfs) next
IsNextBlock-cons block hf hfs none reached h = λ name number has. elim has [
  | inl here ↦ reached number here.1
  | inr later ↦ h name number later
]
IsNextBlock-cons block hf hfs (some next) reached h =
    let (behind, (name, there), least) = h in
    (
      behind,
      (name, inr there),
      λ name' number has after. elim has [
        | inl here ↦ absurd (omega (arith, reached number here.1))
        | inr later ↦ least name' number later after
      ],
    )

next_loop_skips :
    (block : ℕ) (hf : HardforkParams) (hfs : List HardforkParams)
    → ((number : ℕ) → hf.block ≡ some number → number ≤ block)
    → next_loop block (hf ∷ hfs) none ≡ next_loop block hfs none
unfolding next_loop
next_loop_skips block hf hfs reached = elim (Option-cases hf.block) [
  | inl e ↦ let skipped : ltb block 0 ≡ false = ground arith in rw (e, next_loop) (rw skipped refl)
  | inr (b, e) ↦
      let skipped : ltb block b ≡ false = ground (arith, reached b e) in
      rw (e, skipped, next_loop) refl
]

next_loop_takes :
    (block b : ℕ) (hf : HardforkParams) (hfs : List HardforkParams)
    → hf.block ≡ some b
    → block < b
    → next_loop block (hf ∷ hfs) none ≡ some b
unfolding next_loop
next_loop_takes block b hf hfs e behind =
    let taken : ltb block b ≡ true = ground arith in
    rw (e, taken, next_loop) (next_loop-some block b hfs)

next_loop-IsNextBlock :
    (block low : ℕ) (hfs : List HardforkParams)
    → IsSortedFrom low hfs
    → IsNextBlock block hfs (next_loop block hfs none)
unfolding next_loop
next_loop-IsNextBlock block low [] sorted = λ name number has. absurd has
next_loop-IsNextBlock block low (hf ∷ hfs) sorted = elim (Option-cases hf.block) [
  | inl e ↦
      let reached = λ (number : ℕ) (here : hf.block ≡ some number). none_some (sym e ∙ here) in
      subst (IsNextBlock block (hf ∷ hfs)) (sym (next_loop_skips block hf hfs reached)) (
        IsNextBlock-cons block hf hfs (next_loop block hfs none) reached
          (next_loop-IsNextBlock block low hfs (rw e at sorted)))
  | inr (b, e) ↦
      let sorted' : (low ≤ b) × IsSortedFrom b hfs = rw e at sorted in
      elim (Bool-cases (ltb block b)) [
        | inl behind ↦
            subst (IsNextBlock block (hf ∷ hfs))
              (sym (next_loop_takes block b hf hfs e (ground arith)))
              (
                ground arith,
                (hf.name, inl (refl, e)),
                λ name number has after. elim has [
                  | inl here ↦ some_le b number (sym e ∙ here.1)
                  | inr later ↦ sorted-Has b hfs name number sorted'.1 later
                ],
              )
        | inr before ↦
            let reached = λ (number : ℕ) (here : hf.block ≡ some number).
              reached_le block b number before (sym e ∙ here) in
            subst (IsNextBlock block (hf ∷ hfs)) (sym (next_loop_skips block hf hfs reached)) (
              IsNextBlock-cons block hf hfs (next_loop block hfs none) reached
                (next_loop-IsNextBlock block b hfs sorted'.1))
      ]
]
  where
    none_some : {n b : ℕ} → ◌≡◌ {A = Option ℕ} none (some n) → n ≤ b
    none_some h = cc

    some_le : (b n : ℕ) → ◌≡◌ {A = Option ℕ} (some b) (some n) → b ≤ n
    some_le b n h = ground (arith, h)

    reached_le :
        (block b n : ℕ) → ltb block b ≡ false → ◌≡◌ {A = Option ℕ} (some b) (some n) → n ≤ block
    reached_le block b n before h = ground (arith, h, before)

-- For the hardforks of a chain, `nextHardforkBlockBN` of a hardfork with a block returns the least block
-- above it at which the chain has a hardfork, and `null` where there is none.
pub next_hardfork_block-IsNextBlock :
    (common : Common) (hardfork block : ℕ)
    → IsChain common
    → Has hardfork block common.hardforks
    → (next : Option ℕ) × (next_hardfork_block (some hardfork) common ≡ ok next)
      × IsNextBlock block common.hardforks next
unfolding next_hardfork_block hardfork_block choose_hardfork get_hardfork
next_hardfork_block-IsNextBlock common hardfork block chain has =
    let distinct : IsDistinct common.hardforks = rw chain.all (chain.distinct) in
    let (hf, there, at_block) = find_hardfork-Has hardfork block common.hardforks distinct has in
    let sorted : IsSortedFrom 0 (chain.first ∷ chain.later) =
      rw chain.first_block (omega arith, chain.sorted) in
    (
      next_loop block common.hardforks none,
      rw (there, at_block) refl,
      next_loop-IsNextBlock block 0 common.hardforks (rw chain.all sorted),
    )
