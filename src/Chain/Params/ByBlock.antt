-- ===== src/Chain/Params/ByBlock.antt =====
-- packages/common/src/index.ts: the hardfork at a block number or a total difficulty, and the blocks of
-- the hardforks.
use moola_fix.Common.{
  ℕ, Bool, true, false, not, ◌||◌, Option, none, some, List, [], ◌∷◌, Result, ok, ◌>>=◌, ◌>>◌,
  throw_if, ltb, leb, ◌==◌, if◌then◌else◌,
}
use moola_fix.Common.Assoc.{Assoc}
use moola_fix.Chain.Params.{
  HardforkParams, Common, CommonError, not_in_supported, td_too_high, td_too_low,
  hardfork_not_supported, Changes, Tables, no_options, is_supported_hardfork, choose_hardfork,
  hardfork_block, hardfork_gte_hardfork,
}

-- `Hardfork.Chainstart`
abbrev pub chainstart : ℕ
chainstart = 0

-- The variables of the loop of `getHardforkByBlockNumber`.
pub record Scan : Type 0 where
  pub hardfork : ℕ
  pub min_td_hf : Option ℕ
  pub max_td_hf : Option ℕ
  pub previous_hf : Option ℕ

pub data Scanned : Type 0 where
  returned : ℕ → Scanned
  scanned : Scan → Scanned

-- The test for a hardfork with no block.
abbrev pub td_reached : Option ℕ → Option ℕ → Bool
td_reached none _ = false
td_reached (some td) none = false
td_reached (some td) (some hf_td) = leb hf_td td

-- `td && hf.td`, with the numbers where both hold. A difficulty is an object, which is true, and that of a
-- hardfork is a number.
abbrev pub both_td : Option ℕ → Option ℕ → Option (ℕ × ℕ)
both_td none _ = none
both_td (some td) none = none
both_td (some td) (some hf_td) = if hf_td == 0 then none else some (td, hf_td)

-- The body of the loop for a hardfork with a block.
unfoldable pub scan_hardfork : ℕ → Option ℕ → HardforkParams → ℕ → Scan → Scan
scan_hardfork block_number td hf block scan = record {
  hardfork = if leb block block_number then hf.name else scan.hardfork;
  min_td_hf = elim (both_td td hf.td) [
    | none ↦ scan.min_td_hf
    | some (td, hf_td) ↦ if leb hf_td td then some hf.name else scan.min_td_hf
  ];
  max_td_hf = elim (both_td td hf.td) [
    | none ↦ scan.max_td_hf
    | some (td, hf_td) ↦ if leb hf_td td then scan.max_td_hf else scan.previous_hf
  ];
  previous_hf = some hf.name;
}

unfoldable pub scan_loop : ℕ → Option ℕ → List HardforkParams → Scan → Scanned
unfolding scan_hardfork
scan_loop block_number td [] scan = scanned scan
scan_loop block_number td (hf ∷ hfs) scan = elim hf.block [
  | none ↦ elim (td_reached td hf.td) [
    | true ↦ returned hf.name
    | false ↦ scan_loop block_number td hfs scan
  ]
  | some block ↦ scan_loop block_number td hfs (scan_hardfork block_number td hf block scan)
]

-- The checks of the difficulty behind the loop.
unfoldable pub check_td : Option ℕ → Scan → Common → Result CommonError (Unit {0})
unfolding hardfork_gte_hardfork
check_td none scan common = ok tt
check_td (some td) scan common = do
  elim scan.min_td_hf [
    | none ↦ ok tt
    | some min_td_hf ↦ do
      reached ← hardfork_gte_hardfork (some scan.hardfork) min_td_hf no_options common
      throw_if (not reached) td_too_high
  ]
  elim scan.max_td_hf [
    | none ↦ ok tt
    | some max_td_hf ↦ do
      below ← hardfork_gte_hardfork (some max_td_hf) scan.hardfork no_options common
      throw_if (not below) td_too_low
  ]

abbrev pub first_scan : Scan
first_scan = record {
  hardfork = chainstart;
  min_td_hf = none;
  max_td_hf = none;
  previous_hf = none;
}

unfoldable pub get_hardfork_by_block_number : ℕ → Option ℕ → Common → Result CommonError ℕ
unfolding scan_loop check_td
get_hardfork_by_block_number block_number td common =
    elim (scan_loop block_number td common.hardforks first_scan) [
      | returned name ↦ ok name
      | scanned scan ↦ do check_td td scan common; ok scan.hardfork
    ]

-- The loop of `setHardfork`: whether the hardfork is there, and the state.
unfoldable pub set_loop : ℕ → Assoc Changes → Common → Bool × Common
set_loop hardfork [] common = (false, common)
set_loop hardfork ((name, _) ∷ changes) common =
    let (existing, common') =
      set_loop hardfork changes
        (if name == hardfork then record common { hardfork = hardfork } else common) in
    ((name == hardfork) || existing, common')

unfoldable pub set_hardfork : ℕ → Tables → Common → Result CommonError Common
unfolding is_supported_hardfork set_loop
set_hardfork hardfork tables common = do
  throw_if (not (is_supported_hardfork hardfork common)) not_in_supported
  let (existing, common') = set_loop hardfork tables.hardfork_changes common
  throw_if (not existing) hardfork_not_supported
  ok common'

unfoldable pub set_hardfork_by_block_number :
    ℕ → Option ℕ → Tables → Common → Result CommonError (ℕ × Common)
unfolding get_hardfork_by_block_number set_hardfork
set_hardfork_by_block_number block_number td tables common = do
  hardfork ← get_hardfork_by_block_number block_number td common
  common' ← set_hardfork hardfork tables common
  ok (hardfork, common')

unfoldable pub is_hardfork_block : ℕ → Option ℕ → Common → Result CommonError Bool
unfolding choose_hardfork hardfork_block
is_hardfork_block block_number hardfork common = do
  hardfork ← choose_hardfork hardfork (some false) common
  block ← hardfork_block (some hardfork) common
  ok (elim block [ none ↦ false | some block ↦ block == block_number ])

-- The `reduce` of `nextHardforkBlockBN`. `new BN(null)` is 0.
unfoldable pub next_loop : ℕ → List HardforkParams → Option ℕ → Option ℕ
next_loop hf_block [] acc = acc
next_loop hf_block (hf ∷ hfs) acc =
    let block : ℕ = elim hf.block [ none ↦ 0 | some block ↦ block ] in
    next_loop hf_block hfs
      (elim acc [ none ↦ if ltb hf_block block then some block else none | some next ↦ some next ])

unfoldable pub next_hardfork_block : Option ℕ → Common → Result CommonError (Option ℕ)
unfolding choose_hardfork hardfork_block next_loop
next_hardfork_block hardfork common = do
  hardfork ← choose_hardfork hardfork (some false) common
  hf_block ← hardfork_block (some hardfork) common
  ok (elim hf_block [ none ↦ none | some block ↦ next_loop block common.hardforks none ])

unfoldable pub is_next_hardfork_block : ℕ → Option ℕ → Common → Result CommonError Bool
unfolding choose_hardfork next_hardfork_block
is_next_hardfork_block block_number hardfork common = do
  hardfork ← choose_hardfork hardfork (some false) common
  next ← next_hardfork_block (some hardfork) common
  ok (elim next [ none ↦ false | some next ↦ next == block_number ])
