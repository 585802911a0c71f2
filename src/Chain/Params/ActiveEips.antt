-- ===== src/Chain/Params/ActiveEips.antt =====
-- What `setEIPs` of packages/common/src/index.ts checks.
use moola_fix.Common.{
  ℕ, ◌≡◌, refl, ap, sym, ◌∙◌, inl, inr, Bool, true, false, not, ◌&&◌, ◌||◌, none, some, List, [],
  ◌∷◌, Result, err_not_ok, ok, throw_if, ◌>>◌, subst, ==_iff, ◌==◌, Bool-cases, Option-cases,
  ok-injective, >>=-eq-ok,
}
use moola_fix.Common.Assoc.{Assoc, lookup}
use moola_fix.Chain.Params.{
  Common, CommonError, required_eip_missing, below_minimum_hardfork, Changes, Eip, Tables, position,
  gte_positions, includes, no_options, choose_hardfork, hardfork_gte_hardfork,
}
use moola_fix.Chain.Params.Parameters.{
  lists_eip, activated_loop, is_activated_eip, check_required, check_eips, set_eips,
}

-- What holds of an EIP in the list: it is known, its minimum hardfork is reached, and the EIPs that it
-- requires are activated.
abbrev pub IsSupportedEip : Tables → Common → ℕ → Type 0
IsSupportedEip tables common eip =
    (params : Eip) × (lookup eip tables.eips ≡ some params)
    × (hardfork_gte_hardfork none params.minimum_hardfork no_options common ≡ ok true)
    × ((required : ℕ)
        → includes required params.required_eips ≡ true
        → is_activated_eip required tables common ≡ ok true)

-- A check that does not throw has passed.
throw_if-passes :
    {E A : Type 0} (e : E) {next : Result E A} {last : A} (test : Bool)
    → (throw_if (not test) e >> next) ≡ ok last
    → (test ≡ true) × (next ≡ ok last)
throw_if-passes e true h = (refl, h)
throw_if-passes e false h = cc

-- The hardforks alone decide about the EIPs of the hardforks.
activated_loop_eips :
    (eip : ℕ) (changes : Assoc Changes) (common : Common) (eips : List ℕ)
    → activated_loop eip changes common
      ≡ activated_loop eip changes (record common { active_eips = eips })
unfolding activated_loop hardfork_gte_hardfork choose_hardfork
activated_loop_eips eip [] common eips = refl
activated_loop_eips eip ((hf, change) ∷ rest) common eips =
    let reached =
      gte_positions (position common.hardfork 0 common.hardforks none)
        (position hf 0 common.hardforks none) in
    ap
      (λ (later : Result CommonError Bool).
        elim (reached && lists_eip eip change) as (λ _. Result CommonError Bool) [
          | true ↦ ok true
          | false ↦ later
        ])
      (activated_loop_eips eip rest common eips)

-- An EIP that is required is in the new list, or a hardfork activates it.
required-activated :
    (elem : ℕ) (eips : List ℕ) (tables : Tables) (common : Common)
    → common.active_eips ≡ []
    → (activated : Bool) → is_activated_eip elem tables common ≡ ok activated
    → (includes elem eips || activated) ≡ true
    → is_activated_eip elem tables (record common { active_eips = eips }) ≡ ok true
unfolding is_activated_eip
required-activated elem eips tables common fresh activated e there =
    elim (Bool-cases (includes elem eips)) [
      | inl new ↦ rw new refl
      | inr old ↦
          let not_before : includes elem common.active_eips ≡ false = ap (includes elem) fresh in
          let by_hardfork : activated_loop elem tables.hardfork_changes common ≡ ok activated =
            rw not_before at e in
          let active : activated ≡ true = rw old at there in
          rw old (
            sym (activated_loop_eips elem tables.hardfork_changes common eips)
            ∙ by_hardfork
            ∙ ap ok active)
    ]

check_required-activated :
    (required eips : List ℕ) (tables : Tables) (common : Common)
    → common.active_eips ≡ []
    → check_required required eips tables common ≡ ok tt
    → (elem : ℕ) → includes elem required ≡ true
    → is_activated_eip elem tables (record common { active_eips = eips }) ≡ ok true
unfolding check_required
check_required-activated [] eips tables common fresh h elem there = cc
check_required-activated (x ∷ required) eips tables common fresh h elem there =
    let (activated, found, rest) =
      >>=-eq-ok (is_activated_eip x tables common)
        (λ activated.
          throw_if (not (includes x eips || activated)) required_eip_missing
          >> check_required required eips tables common)
        h in
    let (passed, later) =
      throw_if-passes required_eip_missing (includes x eips || activated) rest in
    elim (Bool-cases (x == elem)) [
      | inl same ↦
          subst
            (λ (e : ℕ). is_activated_eip e tables (record common { active_eips = eips }) ≡ ok true)
            ((==_iff x elem).0 same)
            (required-activated x eips tables common fresh activated found passed)
      | inr other ↦
          check_required-activated required eips tables common fresh later elem (rw other at there)
    ]

-- A round of the loop of `setEIPs` that does not throw.
check_eips-cons :
    (x : ℕ) (rest eips : List ℕ) (tables : Tables) (common : Common)
    → common.active_eips ≡ []
    → check_eips (x ∷ rest) eips tables common ≡ ok tt
    → IsSupportedEip tables (record common { active_eips = eips }) x
      × (check_eips rest eips tables common ≡ ok tt)
unfolding check_eips hardfork_gte_hardfork choose_hardfork
check_eips-cons x rest eips tables common fresh h = elim (Option-cases (lookup x tables.eips)) [
  | inl missing ↦ absurd (err_not_ok (rw (missing, check_eips) at h))
  | inr (params, known) ↦
      let reached =
        gte_positions (position common.hardfork 0 common.hardforks none)
          (position params.minimum_hardfork 0 common.hardforks none) in
      let (minimum, checked) =
        throw_if-passes below_minimum_hardfork reached (rw (known, check_eips) at h) in
      let (_, required, later) =
        >>=-eq-ok (check_required params.required_eips eips tables common)
          (λ _. check_eips rest eips tables common) checked in
      (
        (
          params,
          known,
          ap ok minimum,
          check_required-activated params.required_eips eips tables common fresh required,
        ),
        later,
      )
]

check_eips-IsSupportedEip :
    (rest eips : List ℕ) (tables : Tables) (common : Common)
    → common.active_eips ≡ []
    → check_eips rest eips tables common ≡ ok tt
    → (eip : ℕ) → includes eip rest ≡ true
    → IsSupportedEip tables (record common { active_eips = eips }) eip
unfolding check_eips
check_eips-IsSupportedEip [] eips tables common fresh h eip there = cc
check_eips-IsSupportedEip (x ∷ rest) eips tables common fresh h eip there =
    let (supported, later) = check_eips-cons x rest eips tables common fresh h in
    elim (Bool-cases (x == eip)) [
      | inl same ↦
          subst (IsSupportedEip tables (record common { active_eips = eips }))
            ((==_iff x eip).0 same) supported
      | inr other ↦
          check_eips-IsSupportedEip rest eips tables common fresh later eip (rw other at there)
    ]

-- Where no EIPs were set before and `setEIPs` returns, the EIPs are set, and for each of them: the EIP is
-- known, the hardfork is at least its minimum hardfork, and `isActivatedEIP` holds from then on of
-- every EIP that it requires.
pub set_eips-IsSupportedEip :
    (eips : List ℕ) (tables : Tables) (common common' : Common)
    → common.active_eips ≡ []
    → set_eips eips tables common ≡ ok common'
    → (common'.active_eips ≡ eips)
      × ((eip : ℕ) → includes eip eips ≡ true → IsSupportedEip tables common' eip)
unfolding set_eips
set_eips-IsSupportedEip eips tables common common' fresh h =
    let (_, checked, set) =
      >>=-eq-ok (check_eips eips eips tables common)
        (λ _. ok (record common { active_eips = eips })) h in
    let same = ok-injective (record common { active_eips = eips }) common' set in
    subst
      (λ (c : Common).
        (c.active_eips ≡ eips)
        × ((eip : ℕ) → includes eip eips ≡ true → IsSupportedEip tables c eip))
      same (refl, check_eips-IsSupportedEip eips eips tables common fresh checked)
