-- ===== src/Evm/Message/Deposit.antt =====
-- Which code a contract creation stores, and for which gas: packages/vm/src/evm/evm.ts.
use moola_fix.Common.{
  ℕ, ◌+◌, ◌*◌, ◌≤◌, ◌≡◌, ◌≢◌, refl, sym, ap, ◌∙◌, inl, inr, Bool, true, not, ◌&&◌, ◌||◌, none, some,
  List, [], length, slice, ltb, leb, ◌==◌, if◌then◌else◌, Bool-cases, Option-cases, arith,
}
use moola_fix.Evm.Error.{invalid_bytecode_result}
use moola_fix.Evm.Eof.{format, byte_of, SectionSizes, code_analysis, valid_opcodes}
use moola_fix.Evm.Message.{ExecResult, Rules}
use moola_fix.Evm.Message.Create.{
  return_fee, allowed_code_size, check_container, failed_with, eof_checks, deposit,
}

-- The code is an EOF container, but for its first byte, which is tested before; its format is active, with known opcodes where these are checked.
pub record IsContainer (rules : Rules) (has_handler : ℕ → Bool) (code : List ℕ) : Type 0 where
  pub sizes : SectionSizes
  pub active : rules.eip3540 ≡ true
  pub analysed : code_analysis code ≡ some sizes
  pub opcodes :
      (not rules.eip3670
        || valid_opcodes has_handler (
            slice code
              (if ltb 0 sizes.data_size then 10 else 7)
              ((if ltb 0 sizes.data_size then 10 else 7) + sizes.code)))
      ≡ true

no_empty_container : (sizes : SectionSizes) → code_analysis [] ≢ some sizes
unfolding code_analysis
no_empty_container sizes h = cc

module _ (rules : Rules) (has_handler : ℕ → Bool) where
  -- A failed result has no code, which is no container.
  refuses_nothing :
      (limit total : ℕ) (r given : ExecResult)
      → r.return_value ≡ []
      → given ≡ check_container rules has_handler limit total r
      → given.exception_error ≢ none
  unfolding check_container
  refuses_nothing limit total r given empty same fine =
      elim (Option-cases (code_analysis r.return_value)) [
        | inr (sizes, valid) ↦ no_empty_container sizes (ap code_analysis (sym empty) ∙ valid)
        | inl invalid ↦
            cc (rw (invalid, check_container) at (sym (ap (λ q. q.exception_error) same) ∙ fine))
      ]

  check_accepts :
      (limit total : ℕ) (r : ExecResult)
      → rules.eip3540 ≡ true
      → r.exception_error ≡ none
      → (check_container rules has_handler limit total r).exception_error ≡ none
      → ((check_container rules has_handler limit total r).return_value ≡ r.return_value)
        × IsContainer rules has_handler r.return_value
  unfolding check_container
  check_accepts limit total r active fine accepted =
      elim (Option-cases (code_analysis r.return_value)) [
        | inl invalid ↦ cc (rw (invalid, check_container) at accepted)
        | inr (sizes, valid) ↦
            let start : ℕ = if ltb 0 sizes.data_size then 10 else 7 in
            let known =
              valid_opcodes has_handler (slice r.return_value start (start + sizes.code)) in
            let container = λ (h : (not rules.eip3670 || known) ≡ true).
              let c : IsContainer rules has_handler r.return_value = record {
                sizes = sizes;
                active = active;
                analysed = valid;
                opcodes = h;
              } in
              c in
            elim (Bool-cases rules.eip3670) [
              | inr unchecked ↦
                  (rw (valid, unchecked, check_container) refl, container (rw unchecked refl))
              | inl checked ↦ elim (Bool-cases known) [
                | inr unknown ↦ cc (rw (valid, checked, unknown, check_container) at accepted)
                | inl all_known ↦ (
                  rw (valid, checked, all_known, check_container) refl,
                  container (rw (checked, all_known) refl),
                )
              ]
            ]
      ]

  eof_accepts :
      (limit total : ℕ) (r : ExecResult)
      → r.exception_error ≡ none
      → (eof_checks rules has_handler limit total r).exception_error ≡ none
      → ((eof_checks rules has_handler limit total r).return_value ≡ r.return_value)
        × IsContainer rules has_handler r.return_value
  unfolding eof_checks
  eof_accepts limit total r fine accepted =
      let checked = λ (active : Bool).
        check_container rules has_handler limit total
          (if not active then failed_with invalid_bytecode_result limit r else r) in
      elim (Bool-cases rules.eip3540) [
        | inr inactive ↦ absurd (
            refuses_nothing limit total (failed_with invalid_bytecode_result limit r) _ refl
              (ap checked inactive) accepted)
        | inl active ↦
            let same : eof_checks rules has_handler limit total r
                ≡ check_container rules has_handler limit total r =
              ap checked active in
            let (kept, valid) =
              check_accepts limit total r active fine
                (sym (ap (λ q. q.exception_error) same) ∙ accepted) in
            (ap (λ q. q.return_value) same ∙ kept, valid)
      ]

  -- Where the code that a creation returns is accepted: it is not changed; the gas limit covers the gas used
  -- and the price of each byte; the code is not longer than the maximum, where there is one; and it starts
  -- with 0xef under EIP-3541 only where it is an EOF container that EIP-3540 lets pass; where it does not
  -- start so, or EIP-3541 is not active, the gas used has the price of each byte in it.
  pub deposit_accepts :
      (limit : ℕ) (r : ExecResult)
      → r.exception_error ≡ none
      → (deposit rules has_handler limit r).0.exception_error ≡ none
      → ((deposit rules has_handler limit r).0.return_value ≡ r.return_value)
        × (r.gas_used + length r.return_value * rules.create_data ≤ limit)
        × ((rules.allow_unlimited_contract_size
              || not rules.spurious_dragon
              || leb (length r.return_value) rules.max_code_size)
            ≡ true)
        × (if rules.eip3541 && byte_of r.return_value 0 == format
            then IsContainer rules has_handler r.return_value
            else (deposit rules has_handler limit r).0.gas_used
              ≡ r.gas_used + length r.return_value * rules.create_data)
  unfolding deposit
  deposit_accepts limit r fine accepted =
      elim (Bool-cases (
        leb (r.gas_used + return_fee rules r) limit
        && (rules.allow_unlimited_contract_size || allowed_code_size rules r))) [
          | inr refused ↦ elim (Bool-cases rules.homestead) [
            | inl active ↦ cc (rw (refused, active) at accepted)
            | inr frontier ↦ elim (Bool-cases (leb r.gas_used limit)) [
              | inl ran ↦ cc (rw (refused, frontier, ran) at accepted)
              | inr short ↦ cc (rw (refused, frontier, short) at accepted)
            ]
          ]
          | inl paid ↦ elim (Bool-cases (rules.eip3541 && byte_of r.return_value 0 == format)) [
            | inr plain ↦ (
              rw (paid, plain) refl,
              ground (arith, paid, fine),
              ground (arith, paid, fine),
              rw (paid, plain, fine) refl,
            )
            | inl container ↦
                let (same, valid) =
                  eof_accepts limit (r.gas_used + return_fee rules r) r fine
                    (rw (paid, container) at accepted) in
                (
                  rw (paid, container) same,
                  ground (arith, paid, fine),
                  ground (arith, paid, fine),
                  rw container valid,
                )
          ]
        ]
