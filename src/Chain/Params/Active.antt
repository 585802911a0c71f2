-- ===== src/Chain/Params/Active.antt =====
-- How the functions of packages/common/src/index.ts that tell which hardfork is active agree.
use moola_fix.Common.{
  ℕ, ◌≤◌, ◌≡◌, inl, inr, refl, sym, ap, ◌∙◌, true, false, none, some, List, [], ◌∷◌, ok, ◌>>=◌, ltb,
  leb, le→leb, ◌==◌, if◌then◌else◌, arith, Bool-cases, Option-cases, ==_iff, ==_refl, ==_false,
}
use moola_fix.Chain.Params.{
  HardforkParams, Common, is_supported_hardfork, choose_hardfork, find_hardfork, get_hardfork,
  hardfork_block, hardfork_is_active_on_block, active_loop, active_hardforks, active_hardfork,
  last_name, position, gte_positions, hardfork_gte_hardfork, no_options,
}
use moola_fix.Chain.Params.ByBlock.{
  chainstart, Scan, scanned, scan_hardfork, scan_loop, first_scan, check_td,
  get_hardfork_by_block_number,
}
use moola_fix.Chain.Params.Order.{
  IsDistinct, IsSortedFrom, Has, IsChain, Has-IsNamed, by_block, by_block_active, by_block_inactive,
  by_block_later,
}
use moola_fix.Chain.Params.Positions.{
  gte-by_block, position_cons, gte-Placed, position_head, by_block-Placed, by_block-cases,
}

-- With no difficulty, the loop ends with the hardfork at the block.
scan_loop-by_block :
    (block_number : ℕ) (hfs : List HardforkParams) (scan : Scan)
    → (s : Scan) × (scan_loop block_number none hfs scan ≡ scanned s)
      × (s.hardfork ≡ by_block block_number scan.hardfork hfs)
unfolding scan_loop by_block
scan_loop-by_block block_number [] scan = (scan, refl, refl)
scan_loop-by_block block_number (hf ∷ hfs) scan = elim (Option-cases hf.block) [
  | inl e ↦ rw (e, scan_loop, by_block) (scan_loop-by_block block_number hfs scan)
  | inr (block, e) ↦
      rw (e, scan_loop, by_block)
        (scan_loop-by_block block_number hfs (scan_hardfork block_number none hf block scan))
]

get_hardfork-by_block :
    (block_number : ℕ) (common : Common)
    → get_hardfork_by_block_number block_number none common
      ≡ ok (by_block block_number chainstart common.hardforks)
unfolding get_hardfork_by_block_number check_td
get_hardfork-by_block block_number common =
    let (s, ended, same) = scan_loop-by_block block_number common.hardforks first_scan in
    rw (ended, get_hardfork_by_block_number) (ap ok same)

-- A hardfork is found by its name, where names are distinct.
pub find_hardfork-Has :
    (name block : ℕ) (hfs : List HardforkParams)
    → IsDistinct hfs
    → Has name block hfs
    → (hf : HardforkParams) × (find_hardfork name hfs ≡ ok hf) × (hf.block ≡ some block)
unfolding find_hardfork
find_hardfork-Has name block [] h has = absurd has
find_hardfork-Has name block (hf ∷ hfs) h (inl has) =
    (hf, rw ((==_iff hf.name name).1 has.0) refl, has.1)
find_hardfork-Has name block (hf ∷ hfs) h (inr has) =
    let other : (hf.name == name) ≡ false =
      (==_false hf.name name).1 (λ same. h.0 (rw same (Has-IsNamed name block hfs has))) in
    rw other (find_hardfork-Has name block hfs h.1 has)

-- The first hardfork of a chain is active at each block.
chain_by_block :
    (block_number : ℕ) (first : HardforkParams) (later : List HardforkParams)
    → first.block ≡ some 0
    → by_block block_number chainstart (first ∷ later) ≡ by_block block_number first.name later
chain_by_block block_number first later at_zero =
    by_block_active block_number chainstart first later 0 at_zero (ground arith)

gte_by_block-leb :
    (block_number : ℕ) (first : HardforkParams) (later : List HardforkParams) (target block : ℕ)
    → first.block ≡ some 0
    → IsDistinct (first ∷ later)
    → IsSortedFrom 0 later
    → Has target block (first ∷ later)
    → gte_positions
        (position (by_block block_number chainstart (first ∷ later)) 0 (first ∷ later) none)
        (position target 0 (first ∷ later) none)
      ≡ leb block block_number
gte_by_block-leb block_number first later target block at_zero distinct sorted (inl has) =
    let zero_block : block ≡ 0 = cc (sym has.1 ∙ at_zero) in
    rw
      (
        chain_by_block block_number first later at_zero,
        position_head target 0 first later none has.0 distinct.0,
      )
      (gte-Placed (by_block block_number first.name later) 0 (first ∷ later) none (
          by_block-Placed block_number 0 first later distinct.0
            (by_block-cases block_number first.name 1 later distinct.1))
        ∙ sym (le→leb block block_number (omega arith)))
gte_by_block-leb block_number first later target block at_zero distinct sorted (inr has) =
    rw
      (
        chain_by_block block_number first later at_zero,
        position_cons (by_block block_number first.name later) 0 first later none,
        position_cons target 0 first later none,
      )
      (gte-by_block block_number first.name 1 0 0 later target block
        (if first.name == by_block block_number first.name later then some 0 else none)
        (if first.name == target then some 0 else none) distinct.1 sorted distinct.0 (omega arith)
        (λ same. rw (same, ==_refl first.name) refl) has)

-- For the hardforks of a chain, with no list of supported hardforks: for a hardfork with a block,
-- `hardforkIsActiveOnBlock` tells whether that block is at most the given one, and so does
-- `hardforkGteHardfork` of the hardfork that `getHardforkByBlockNumber` returns for the block.
pub active_on_block-gte :
    (block_number : ℕ) (common : Common) (target block : ℕ)
    → IsChain common
    → common.supported_hardforks ≡ []
    → Has target block common.hardforks
    → (hardfork_is_active_on_block (some target) block_number no_options common
        ≡ ok (leb block block_number))
      × ((get_hardfork_by_block_number block_number none common >>= λ hardfork.
            hardfork_gte_hardfork (some hardfork) target no_options common)
          ≡ ok (leb block block_number))
unfolding hardfork_is_active_on_block hardfork_block choose_hardfork get_hardfork
    hardfork_gte_hardfork is_supported_hardfork
active_on_block-gte block_number common target block chain no_list has =
    let distinct : IsDistinct common.hardforks = rw chain.all (chain.distinct) in
    let (hf, there, at_block) = find_hardfork-Has target block common.hardforks distinct has in
    (
      rw (there, at_block) refl,
      rw (get_hardfork-by_block block_number common, no_list)
          (rw chain.all (
            ap ok (
              gte_by_block-leb block_number chain.first chain.later target block chain.first_block
                chain.distinct chain.sorted (rw chain.all at has)))),
    )

active_loop_set :
    (block_number : ℕ) (common : Common) (hf : HardforkParams) (hfs : List HardforkParams)
    (block : ℕ)
    → hf.block ≡ some block
    → ltb block_number block ≡ false
    → active_loop (some block_number) no_options common (hf ∷ hfs)
      ≡ hf ∷ active_loop (some block_number) no_options common hfs
unfolding active_loop
active_loop_set block_number common hf hfs block e reached = ground (arith, e, reached)

active_loop_later :
    (block_number : ℕ) (common : Common) (hf : HardforkParams) (hfs : List HardforkParams)
    (block : ℕ)
    → hf.block ≡ some block
    → ltb block_number block ≡ true
    → active_loop (some block_number) no_options common (hf ∷ hfs) ≡ []
unfolding active_loop
active_loop_later block_number common hf hfs block e later = rw (e, later, active_loop) refl

-- The active hardforks of a list in order end with the hardfork at the block.
last_name-active_loop :
    (block_number name low : ℕ) (common : Common) (hfs : List HardforkParams)
    → IsSortedFrom low hfs
    → last_name name (active_loop (some block_number) no_options common hfs)
      ≡ by_block block_number name hfs
unfolding active_loop by_block
last_name-active_loop block_number name low common [] sorted = refl
last_name-active_loop block_number name low common (hf ∷ hfs) sorted =
    elim (Option-cases hf.block) [
      | inl e ↦
          rw (e, active_loop, by_block)
            (last_name-active_loop block_number name low common hfs (rw e at sorted))
      | inr (block, e) ↦
          let sorted' : (low ≤ block) × IsSortedFrom block hfs = rw e at sorted in
          elim (Bool-cases (ltb block_number block)) [
            | inl later ↦ rw (active_loop_later block_number common hf hfs block e later) (
                sym (
                  by_block_inactive block_number name hf hfs block e (ground arith)
                  ∙ by_block_later block_number name block hfs (ground arith) sorted'.1))
            | inr reached ↦
                rw
                  (
                    active_loop_set block_number common hf hfs block e reached,
                    by_block_active block_number name hf hfs block e (ground arith),
                  )
                  (last_name-active_loop block_number hf.name block common hfs sorted'.1)
          ]
    ]

-- For the hardforks of a chain, `activeHardfork` and `getHardforkByBlockNumber` return the same hardfork
-- for a block.
pub active_hardfork-get_hardfork_by_block_number :
    (block_number : ℕ) (common : Common)
    → IsChain common
    → active_hardfork (some block_number) no_options common
      ≡ get_hardfork_by_block_number block_number none common
unfolding active_hardfork active_hardforks active_loop
active_hardfork-get_hardfork_by_block_number block_number common chain =
    let active =
      ap (active_loop (some block_number) no_options common) chain.all
      ∙ active_loop_set block_number common chain.first chain.later 0 chain.first_block
          (ground arith) in
    let same =
      ap (by_block block_number chainstart) chain.all
      ∙ chain_by_block block_number chain.first chain.later chain.first_block in
    rw (active, active_hardfork, get_hardfork-by_block block_number common)
      (ap ok (
        last_name-active_loop block_number chain.first.name 0 common chain.later chain.sorted
        ∙ sym same))
