-- ===== src/Evm/Eof/Opcodes.antt =====
-- The code that `validOpcodes` of packages/vm/src/evm/opcodes/eof.ts accepts.
use moola_fix.Common.{
  ℕ, zero, suc, ◌-◌, ◌<◌, ◌≡◌, refl, sym, ap, ◌∙◌, ◌↔◌, ◌⊎◌, inl, inr, ◌+◌, get_or-drop, Bool, true,
  false, List, [], ◌∷◌, ◌++◌, length, get_or, take, drop, arith, Bool-cases, length-append,
  length-take, length-drop, take-append-drop, drop-append_length,
}
use moola_fix.Evm.Eof.{byte_of, is_push, is_terminating, is_empty, known, valid_loop, valid_opcodes}

module _ (has_handler : ℕ → Bool) where
  -- Instructions with a known opcode, each PUSH with the whole of its data, the last of which ends the
  -- execution.
  pub data Instructions : List ℕ → Type 0 where
    last :
        (opcode : ℕ)
        → known has_handler opcode ≡ true
        → is_terminating opcode ≡ true
        → Instructions (opcode ∷ [])
    plain :
        (opcode : ℕ) {code : List ℕ}
        → known has_handler opcode ≡ true
        → is_push opcode ≡ false
        → Instructions code
        → Instructions (opcode ∷ code)
    push :
        (opcode : ℕ) (pushed : List ℕ) {code whole : List ℕ}
        → known has_handler opcode ≡ true
        → is_push opcode ≡ true
        → length pushed ≡ opcode - 0x5f
        → Instructions code
        → whole ≡ pushed ++ code
        → Instructions (opcode ∷ whole)

  step_inv :
      (fuel opcode : ℕ) (code : List ℕ)
      → valid_loop has_handler (suc fuel) (opcode ∷ code) ≡ true
      → (known has_handler opcode ≡ true)
        × (((is_push opcode ≡ true)
              × (is_empty (drop (opcode - 0x5f) code) ≡ false)
              × (valid_loop has_handler fuel (drop (opcode - 0x5f) code) ≡ true))
            ⊎ ((is_push opcode ≡ false) × (valid_loop has_handler fuel code ≡ true)))
  unfolding valid_loop
  step_inv fuel opcode code h = elim (Bool-cases (known has_handler opcode)) [
    | inr unknown ↦ cc (rw unknown at h)
    | inl is_known ↦ elim (Bool-cases (is_push opcode)) [
      | inr other ↦ (is_known, inr (other, rw (is_known, other) at h))
      | inl pushes ↦ elim (Bool-cases (is_empty (drop (opcode - 0x5f) code))) [
        | inl nothing ↦ cc (rw (is_known, pushes, nothing) at h)
        | inr more ↦ (is_known, inl (pushes, more, rw (is_known, pushes, more) at h))
      ]
    ]
  ]

  length-behind : (n : ℕ) (code : List ℕ) → is_empty (drop n code) ≡ false → n < length code
  length-behind zero [] h = cc
  length-behind zero (x ∷ code) h = omega arith
  length-behind (suc n) [] h = cc
  length-behind (suc n) (x ∷ code) h = omega (arith, length-behind n code h)

  last_cons :
      (opcode x : ℕ) (code : List ℕ)
      → byte_of (opcode ∷ x ∷ code) (suc (suc (length code)) - 1)
        ≡ byte_of (x ∷ code) (suc (suc (length code)) - 1 - 1)
  last_cons opcode x code =
      let front : suc (suc (length code)) - 1 ≡ suc (length code) = omega arith in
      rw (front) (ap (λ (i : ℕ). get_or (x ∷ code) i 256) (omega arith))

  -- The last byte is that of what stands behind the push data.
  last-behind :
      (opcode n : ℕ) (code : List ℕ)
      → n < length code
      → byte_of (drop n code) (length (drop n code) - 1)
        ≡ byte_of (opcode ∷ code) (suc (length code) - 1)
  last-behind opcode n [] h = absurd (omega arith)
  last-behind opcode n (x ∷ code) h =
      let same : n + (length (drop n (x ∷ code)) - 1) ≡ suc (suc (length code)) - 1 - 1 =
        omega (arith, length-drop n (x ∷ code)) in
      get_or-drop n (x ∷ code) (length (drop n (x ∷ code)) - 1) 256
      ∙ ap (λ (i : ℕ). get_or (x ∷ code) i 256) same
      ∙ sym (last_cons opcode x code)

  plain_or_last :
      (fuel opcode : ℕ) (code : List ℕ)
      → known has_handler opcode ≡ true
      → is_push opcode ≡ false
      → is_terminating (byte_of (opcode ∷ code) (suc (length code) - 1)) ≡ true
      → (is_terminating (byte_of code (length code - 1)) ≡ true → Instructions code)
      → Instructions (opcode ∷ code)
  plain_or_last fuel opcode [] k other t rest = last opcode k t
  plain_or_last fuel opcode (x ∷ code) k other t rest =
      plain opcode k other (rest (rw (← last-behind opcode 0 (x ∷ code) (omega arith)) at t))

  terminating_no_push : (opcode : ℕ) → is_terminating opcode ≡ true → is_push opcode ≡ false
  terminating_no_push opcode t = ground arith

  Instructions_nonempty : {code : List ℕ} → Instructions code → is_empty code ≡ false
  Instructions_nonempty (last opcode k t) = refl
  Instructions_nonempty (plain opcode k p v) = refl
  Instructions_nonempty (push opcode pushed k p n v e) = refl

  loop-Instructions :
      (fuel : ℕ) (code : List ℕ)
      → valid_loop has_handler fuel code ≡ true
      → is_terminating (byte_of code (length code - 1)) ≡ true
      → Instructions code
  unfolding valid_loop
  loop-Instructions zero code h t = cc
  loop-Instructions (suc fuel) [] h t = cc
  loop-Instructions (suc fuel) (opcode ∷ code) h t =
      let (is_known, which) = step_inv fuel opcode code h in
      elim which [
        | inr (other, looped) ↦
            plain_or_last fuel opcode code is_known other t
              (λ ended. loop-Instructions fuel code looped ended)
        | inl (pushes, more, looped) ↦
            let behind = drop (opcode - 0x5f) code in
            let room = length-behind (opcode - 0x5f) code more in
            push opcode (take (opcode - 0x5f) code) is_known pushes
              (omega (arith, length-take (opcode - 0x5f) code))
              (loop-Instructions fuel behind looped
                (rw (last-behind opcode (opcode - 0x5f) code room) t))
              (sym (take-append-drop (opcode - 0x5f) code))
      ]

  loop_ends : (fuel : ℕ) → 0 < fuel → valid_loop has_handler fuel [] ≡ true
  unfolding valid_loop
  loop_ends zero h = absurd (omega arith)
  loop_ends (suc fuel) h = refl

  Instructions-loop :
      (fuel : ℕ) {code : List ℕ}
      → Instructions code
      → length code < fuel
      → (valid_loop has_handler fuel code ≡ true)
        × (is_terminating (byte_of code (length code - 1)) ≡ true)
  unfolding valid_loop
  Instructions-loop zero v h = absurd (omega arith)
  Instructions-loop (suc fuel) (last opcode k t) h =
      (rw (k, terminating_no_push opcode t) (loop_ends fuel (omega arith)), t)
  Instructions-loop (suc fuel) (plain opcode {code} k p v) h =
      let (looped, ended) = Instructions-loop fuel v (omega arith) in
      (
        rw (k, p) looped,
        rw (← last-behind opcode 0 code (length-behind 0 code (Instructions_nonempty v))) ended,
      )
  Instructions-loop (suc fuel) (push opcode pushed {code} {whole} k p n v e) h =
      let n' = sym n in
      let behind : drop (opcode - 0x5f) whole ≡ code =
        rw e (drop-append_length pushed code (opcode - 0x5f) n') in
      let (looped, ended) =
        Instructions-loop fuel v (omega (arith, ap length e, length-append pushed code)) in
      let more : is_empty (drop (opcode - 0x5f) whole) ≡ false =
        rw behind (Instructions_nonempty v) in
      (
        rw (k, p, more, behind) looped,
        rw (← last-behind opcode (opcode - 0x5f) whole (length-behind (opcode - 0x5f) whole more))
            (rw behind ended),
      )

  -- The code of a section is valid exactly where it is a sequence of known instructions, each PUSH with
  -- the whole of its data, the last of which ends the execution.
  pub valid_opcodes_iff :
      (code : List ℕ) → (valid_opcodes has_handler code ≡ true) ↔ Instructions code
  unfolding valid_opcodes
  valid_opcodes_iff code = (
    λ h. elim (Bool-cases (valid_loop has_handler (suc (length code)) code)) [
      | inl looped ↦ loop-Instructions (suc (length code)) code looped (rw looped at h)
      | inr stopped ↦ cc (rw stopped at h)
    ],
    λ v.
        let (looped, ended) = Instructions-loop (suc (length code)) v (omega arith) in
        rw looped ended,
  )
