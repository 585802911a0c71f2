-- ===== src/Chain/Params/Parameters.antt =====
-- packages/common/src/index.ts: the parameters that hardforks and EIPs set, and the active EIPs.
use moola_fix.Common.{
  ℕ, Bool, true, false, not, ◌&&◌, ◌||◌, Option, none, some, List, [], ◌∷◌, Result, ok, err, ◌>>=◌,
  ◌>>◌, throw_if, ◌==◌, if◌then◌else◌,
}
use moola_fix.Common.Assoc.{Assoc, lookup}
use moola_fix.Chain.Params.{
  Common, CommonError, eip_not_supported, topic_not_defined, below_minimum_hardfork,
  required_eip_missing, type_error, Changes, with_eips, in_line, Tables, includes, no_options,
  choose_hardfork, active_hardforks, last_name, hardfork_gte_hardfork,
}

unfoldable pub param_by_eip : ℕ → ℕ → ℕ → Tables → Result CommonError (Option ℕ)
param_by_eip topic name eip tables = elim (lookup eip tables.eips) [
  | none ↦ err eip_not_supported
  | some eip_params ↦ elim (lookup topic eip_params.topics) [
    | none ↦ err topic_not_defined
    | some params ↦ ok (lookup name params)
  ]
]

-- `value !== null ? value : before`
abbrev pub value_or : Option ℕ → Option ℕ → Option ℕ
value_or none before = before
value_or (some value) before = some value

-- The loop of `paramByHardfork` over the EIPs of a hardfork.
unfoldable pub eips_value : ℕ → ℕ → List ℕ → Tables → Option ℕ → Result CommonError (Option ℕ)
unfolding param_by_eip
eips_value topic name [] tables value = ok value
eips_value topic name (eip ∷ eips) tables value = do
  value_eip ← param_by_eip topic name eip tables
  eips_value topic name eips tables (value_or value_eip value)

-- The value behind the changes of a hardfork.
unfoldable pub change_value : ℕ → ℕ → Changes → Tables → Option ℕ → Result CommonError (Option ℕ)
unfolding eips_value
change_value topic name (with_eips eips) tables value = eips_value topic name eips tables value
change_value topic name (in_line topics) tables value = elim (lookup topic topics) [
  | none ↦ err topic_not_defined
  | some params ↦ ok (value_or (lookup name params) value)
]

-- The loop of `paramByHardfork` over the hardforks.
unfoldable pub changes_value :
    ℕ → ℕ → ℕ → Assoc Changes → Tables → Option ℕ → Result CommonError (Option ℕ)
unfolding change_value
changes_value topic name hardfork [] tables value = ok value
changes_value topic name hardfork ((hf, changes) ∷ rest) tables value = do
  value' ← change_value topic name changes tables value
  elim (hf == hardfork) [
    | true ↦ ok value'
    | false ↦ changes_value topic name hardfork rest tables value'
  ]

unfoldable pub param_by_hardfork : ℕ → ℕ → ℕ → Tables → Common → Result CommonError (Option ℕ)
unfolding choose_hardfork changes_value
param_by_hardfork topic name hardfork tables common = do
  hardfork ← choose_hardfork (some hardfork) none common
  changes_value topic name hardfork tables.hardfork_changes tables none

-- The loop of `param`, with what follows it.
unfoldable pub param_loop : ℕ → ℕ → List ℕ → Tables → Common → Result CommonError (Option ℕ)
unfolding param_by_eip param_by_hardfork
param_loop topic name [] tables common = param_by_hardfork topic name common.hardfork tables common
param_loop topic name (eip ∷ eips) tables common = do
  value ← param_by_eip topic name eip tables
  elim value [ some v ↦ ok (some v) | none ↦ param_loop topic name eips tables common ]

unfoldable pub param : ℕ → ℕ → Tables → Common → Result CommonError (Option ℕ)
unfolding param_loop
param topic name tables common = param_loop topic name common.active_eips tables common

unfoldable pub param_by_block : ℕ → ℕ → ℕ → Tables → Common → Result CommonError (Option ℕ)
unfolding active_hardforks param_by_hardfork
param_by_block topic name block_number tables common =
    elim (active_hardforks (some block_number) no_options common) [
      | [] ↦ err type_error
      | hf ∷ hfs ↦ param_by_hardfork topic name (last_name hf.name hfs) tables common
    ]

-- Whether the changes list an EIP.
unfoldable pub lists_eip : ℕ → Changes → Bool
lists_eip eip (with_eips eips) = includes eip eips
lists_eip eip (in_line topics) = false

-- The loop of `isActivatedEIP`.
unfoldable pub activated_loop : ℕ → Assoc Changes → Common → Result CommonError Bool
unfolding lists_eip hardfork_gte_hardfork
activated_loop eip [] common = ok false
activated_loop eip ((hf, changes) ∷ rest) common = do
  gte ← hardfork_gte_hardfork none hf no_options common
  elim (gte && lists_eip eip changes) [ true ↦ ok true | false ↦ activated_loop eip rest common ]

unfoldable pub is_activated_eip : ℕ → Tables → Common → Result CommonError Bool
unfolding activated_loop
is_activated_eip eip tables common =
    if includes eip common.active_eips
    then ok true
    else activated_loop eip tables.hardfork_changes common

-- The `forEach` of `setEIPs` over the EIPs that one requires.
unfoldable pub check_required : List ℕ → List ℕ → Tables → Common → Result CommonError (Unit {0})
unfolding is_activated_eip
check_required [] eips tables common = ok tt
check_required (elem ∷ required) eips tables common = do
  activated ← is_activated_eip elem tables common
  throw_if (not (includes elem eips || activated)) required_eip_missing
  check_required required eips tables common

-- The loop of `setEIPs`.
unfoldable pub check_eips : List ℕ → List ℕ → Tables → Common → Result CommonError (Unit {0})
unfolding check_required hardfork_gte_hardfork
check_eips [] eips tables common = ok tt
check_eips (eip ∷ rest) eips tables common = elim (lookup eip tables.eips) [
  | none ↦ err eip_not_supported
  | some eip_params ↦ do
    min_hf ← hardfork_gte_hardfork none eip_params.minimum_hardfork no_options common
    throw_if (not min_hf) below_minimum_hardfork
    check_required eip_params.required_eips eips tables common
    check_eips rest eips tables common
]

unfoldable pub set_eips : List ℕ → Tables → Common → Result CommonError Common
unfolding check_eips
set_eips eips tables common = do
  check_eips eips eips tables common
  ok (record common { active_eips = eips })
