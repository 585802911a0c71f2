-- ===== src/Chain/Params/Tests.antt =====
-- The theorems on the hardforks of a chain applied to the first hardforks of the main network.
use moola_fix.Common.{
  ℕ, ◌≡◌, refl, inl, inr, true, false, Option, none, some, List, [], ◌∷◌, ok, ◌>>=◌, arith,
}
use moola_fix.Chain.Params.{
  HardforkParams, Common, with_eips, in_line, Tables, includes, no_options,
  hardfork_is_active_on_block, hardfork_gte_hardfork, active_hardfork,
}
use moola_fix.Chain.Params.ByBlock.{chainstart, get_hardfork_by_block_number, next_hardfork_block}
use moola_fix.Chain.Params.Parameters.{is_activated_eip, set_eips}
use moola_fix.Chain.Params.Order.{IsChain}
use moola_fix.Chain.Params.Active.{
  active_on_block-gte, active_hardfork-get_hardfork_by_block_number,
}
use moola_fix.Chain.Params.ActiveEips.{IsSupportedEip, set_eips-IsSupportedEip}
use moola_fix.Chain.Params.NextBlock.{IsNextBlock, next_hardfork_block-IsNextBlock}

-- Chainstart, homestead and dao, and the merge, which has no block.
abbrev chain_hardforks : List HardforkParams
chain_hardforks =
    record { name = chainstart; block = some 0; td = none }
    ∷ record { name = 1; block = some 1150000; td = none }
    ∷ record { name = 2; block = some 1920000; td = none }
    ∷ record { name = 3; block = none; td = some 58 }
    ∷ []

abbrev common : Common
common = record {
  hardforks = chain_hardforks;
  hardfork = 2;
  supported_hardforks = [];
  active_eips = [];
}

common-IsChain : IsChain common
common-IsChain = record {
  first = record { name = chainstart; block = some 0; td = none };
  later =
      record { name = 1; block = some 1150000; td = none }
      ∷ record { name = 2; block = some 1920000; td = none }
      ∷ record { name = 3; block = none; td = some 58 }
      ∷ [];
  all = refl;
  first_name = refl;
  first_block = refl;
  distinct = (ground arith, (ground arith, (ground arith, ((λ h. h), tt))));
  sorted = (omega arith, (omega arith, tt));
}

active_on_block-gte_example :
    (hardfork_is_active_on_block (some 1) 1500000 no_options common ≡ ok true)
    × ((get_hardfork_by_block_number 1500000 none common >>= λ hardfork.
          hardfork_gte_hardfork (some hardfork) 1 no_options common)
        ≡ ok true)
active_on_block-gte_example =
    active_on_block-gte 1500000 common 1 1150000 common-IsChain refl (inr (inl (refl, refl)))

active_hardfork_example :
    active_hardfork (some 1500000) no_options common
    ≡ get_hardfork_by_block_number 1500000 none common
active_hardfork_example = active_hardfork-get_hardfork_by_block_number 1500000 common common-IsChain

next_hardfork_block_example :
    (next : Option ℕ) × (next_hardfork_block (some 1) common ≡ ok next)
    × IsNextBlock 1150000 chain_hardforks next
next_hardfork_block_example =
    next_hardfork_block-IsNextBlock common 1 1150000 common-IsChain (inr (inl (refl, refl)))

-- An EIP of the hardfork 1, and one that requires it.
abbrev tables : Tables
tables = record {
  hardfork_changes = (0, in_line []) ∷ (1, with_eips (2930 ∷ [])) ∷ [];
  eips =
      (2930, record { topics = []; minimum_hardfork = 1; required_eips = [] })
      ∷ (1559, record { topics = []; minimum_hardfork = 1; required_eips = 2930 ∷ [] })
      ∷ (3198, record { topics = []; minimum_hardfork = 1; required_eips = 1559 ∷ [] })
      ∷ [];
}

set_eips_test : set_eips (1559 ∷ []) tables common ≡ ok (record common { active_eips = 1559 ∷ [] })
unfolding set_eips
set_eips_test = refl

set_eips-IsSupportedEip_example :
    ((record common { active_eips = 1559 ∷ [] }).active_eips ≡ 1559 ∷ [])
    × ((eip : ℕ)
        → includes eip (1559 ∷ []) ≡ true
        → IsSupportedEip tables (record common { active_eips = 1559 ∷ [] }) eip)
set_eips-IsSupportedEip_example =
    set_eips-IsSupportedEip (1559 ∷ []) tables common (record common { active_eips = 1559 ∷ [] })
      refl set_eips_test

-- Where EIPs were set before, an EIP that they satisfy is set without the one that it requires.
set_eips_twice_test :
    (set_eips (3198 ∷ []) tables (record common { active_eips = 1559 ∷ [] })
      ≡ ok (record common { active_eips = 3198 ∷ [] }))
    × (is_activated_eip 1559 tables (record common { active_eips = 3198 ∷ [] }) ≡ ok false)
unfolding set_eips
set_eips_twice_test = (refl, refl)
