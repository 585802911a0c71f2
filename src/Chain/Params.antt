-- ===== src/Chain/Params.antt =====
-- packages/common/src/index.ts: the hardforks of a chain, and the parameters that they set. The name of a
-- hardfork, a topic or a parameter stands as a number, and a `null`, or an optional argument that is left
-- out, as `none`. The tables of the hardforks and of the EIPs, which are data files, are an argument.
pub mod ByBlock
pub mod Parameters
pub mod Order
pub mod Positions
pub mod Active
pub mod ActiveEips
pub mod NextBlock
mod Tests
use moola_fix.Common.{
  ℕ, suc, ◌+◌, Bool, true, false, not, ◌&&◌, ◌||◌, Option, none, some, List, [], ◌∷◌, Result, ok,
  err, ◌>>=◌, throw_if, ◌>>◌, ltb, leb, ◌==◌, if◌then◌else◌,
}
use moola_fix.Common.Assoc.{Assoc, lookup}

pub record HardforkParams : Type 0 where
  pub name : ℕ
  pub block : Option ℕ
  pub td : Option ℕ

-- The parameters of a topic, for each topic.
abbrev pub Topics : Type 0
Topics = Assoc (Assoc ℕ)

-- A file of a hardfork lists EIPs, or has the parameters in line.
pub data Changes : Type 0 where
  with_eips : List ℕ → Changes
  in_line : Topics → Changes

pub record Eip : Type 0 where
  pub topics : Topics
  pub minimum_hardfork : ℕ
  pub required_eips : List ℕ

-- `HARDFORK_CHANGES`, whose files have the name of their entry, and `EIPs`.
pub record Tables : Type 0 where
  pub hardfork_changes : Assoc Changes
  pub eips : Assoc Eip

-- `Common`, with the fields that the hardforks need.
pub record Common : Type 0 where
  pub hardforks : List HardforkParams
  pub hardfork : ℕ
  pub supported_hardforks : List ℕ
  pub active_eips : List ℕ

pub data CommonError : Type 0 where
  not_in_supported not_defined no_active td_too_high td_too_low : CommonError
  hardfork_not_supported eip_not_supported topic_not_defined type_error : CommonError
  below_minimum_hardfork required_eip_missing : CommonError

-- `hardforkOptions`
pub record HardforkOptions : Type 0 where
  pub only_supported : Option Bool
  pub only_active : Option Bool

abbrev pub includes : ℕ → List ℕ → Bool
includes x [] = false
includes x (y ∷ ys) = (y == x) || includes x ys

-- `option ?? absent`
abbrev pub option_or : Bool → Option Bool → Bool
option_or absent none = absent
option_or absent (some b) = b

unfoldable pub is_supported_hardfork : ℕ → Common → Bool
is_supported_hardfork hardfork common = elim common.supported_hardforks [
  | [] ↦ true
  | hf ∷ hfs ↦ includes hardfork (hf ∷ hfs)
]

unfoldable pub choose_hardfork : Option ℕ → Option Bool → Common → Result CommonError ℕ
unfolding is_supported_hardfork
choose_hardfork none only_supported common = ok common.hardfork
choose_hardfork (some hardfork) only_supported common =
    if option_or true only_supported && not (is_supported_hardfork hardfork common)
    then err not_in_supported
    else ok hardfork

unfoldable pub find_hardfork : ℕ → List HardforkParams → Result CommonError HardforkParams
find_hardfork hardfork [] = err not_defined
find_hardfork hardfork (hf ∷ hfs) =
    if hf.name == hardfork then ok hf else find_hardfork hardfork hfs

unfoldable pub get_hardfork : ℕ → Common → Result CommonError HardforkParams
unfolding find_hardfork
get_hardfork hardfork common = find_hardfork hardfork common.hardforks

unfoldable pub hardfork_block : Option ℕ → Common → Result CommonError (Option ℕ)
unfolding choose_hardfork get_hardfork
hardfork_block hardfork common = do
  hardfork ← choose_hardfork hardfork (some false) common
  hf ← get_hardfork hardfork common
  ok hf.block

unfoldable pub hardfork_td : Option ℕ → Common → Result CommonError (Option ℕ)
unfolding choose_hardfork get_hardfork
hardfork_td hardfork common = do
  hardfork ← choose_hardfork hardfork (some false) common
  hf ← get_hardfork hardfork common
  ok hf.td

unfoldable pub hardfork_is_active_on_block :
    Option ℕ → ℕ → HardforkOptions → Common → Result CommonError Bool
unfolding choose_hardfork hardfork_block
hardfork_is_active_on_block hardfork block_number opts common = do
  hardfork ← choose_hardfork hardfork (some (option_or false opts.only_supported)) common
  hf_block ← hardfork_block (some hardfork) common
  ok (elim hf_block [ none ↦ false | some block ↦ leb block block_number ])

unfoldable pub scan_chain : ℕ → List HardforkParams → Bool
scan_chain hardfork [] = false
scan_chain hardfork (hf ∷ hfs) =
    ((hf.name == hardfork) && elim hf.block [ none ↦ false | some _ ↦ true ])
    || scan_chain hardfork hfs

unfoldable pub hardfork_is_active_on_chain :
    Option ℕ → HardforkOptions → Common → Result CommonError Bool
unfolding choose_hardfork scan_chain
hardfork_is_active_on_chain hardfork opts common = do
  hardfork ← choose_hardfork hardfork (some (option_or false opts.only_supported)) common
  ok (scan_chain hardfork common.hardforks)

-- The test that ends the loop of `activeHardforks`.
abbrev pub is_later : Option ℕ → ℕ → Bool
is_later none block = false
is_later (some number) block = ltb number block

-- The loop of `activeHardforks`.
unfoldable pub active_loop :
    Option ℕ → HardforkOptions → Common → List HardforkParams → List HardforkParams
unfolding is_supported_hardfork
active_loop block_number opts common [] = []
active_loop block_number opts common (hf ∷ hfs) = elim hf.block [
  | none ↦ active_loop block_number opts common hfs
  | some block ↦ elim (is_later block_number block) [
    | true ↦ []
    | false ↦
        let rest = active_loop block_number opts common hfs in
        if option_or false opts.only_supported && not (is_supported_hardfork hf.name common)
        then rest
        else hf ∷ rest
  ]
]

unfoldable pub active_hardforks : Option ℕ → HardforkOptions → Common → List HardforkParams
unfolding active_loop
active_hardforks block_number opts common = active_loop block_number opts common common.hardforks

-- The name of the last item.
abbrev pub last_name : ℕ → List HardforkParams → ℕ
last_name name [] = name
last_name name (hf ∷ hfs) = last_name hf.name hfs

unfoldable pub active_hardfork : Option ℕ → HardforkOptions → Common → Result CommonError ℕ
unfolding active_hardforks
active_hardfork block_number opts common = elim (active_hardforks block_number opts common) [
  | [] ↦ err no_active
  | hf ∷ hfs ↦ ok (last_name hf.name hfs)
]

-- The loop of `hardforkGteHardfork` for one of its positions; `none` is -1.
unfoldable pub position : ℕ → ℕ → List HardforkParams → Option ℕ → Option ℕ
position name index [] pos = pos
position name index (hf ∷ hfs) pos =
    position name (suc index) hfs (if hf.name == name then some index else pos)

-- `posHf1 >= posHf2 && posHf2 !== -1`
abbrev pub gte_positions : Option ℕ → Option ℕ → Bool
gte_positions pos1 none = false
gte_positions none (some pos2) = false
gte_positions (some pos1) (some pos2) = leb pos2 pos1

unfoldable pub hardfork_gte_hardfork :
    Option ℕ → ℕ → HardforkOptions → Common → Result CommonError Bool
unfolding choose_hardfork active_hardforks position
hardfork_gte_hardfork hardfork1 hardfork2 opts common = do
  hardfork1 ← choose_hardfork hardfork1 opts.only_supported common
  let hardforks =
      if option_or false opts.only_active
      then active_hardforks none opts common
      else common.hardforks
  ok (gte_positions (position hardfork1 0 hardforks none) (position hardfork2 0 hardforks none))

abbrev pub no_options : HardforkOptions
no_options = record { only_supported = none; only_active = none }
