-- ===== src/Evm/Jumps/Destinations.antt =====
-- Which positions the jump analysis marks: the JUMPDEST and BEGINSUB bytes that are instructions.
use moola_fix.Common.{
  ℕ, zero, suc, ◌+◌, ◌-◌, ◌≤◌, ◌<◌, ◌≡◌, refl, sym, ◌∙◌, ◌⊎◌, ◌↔◌, inl, inr, List, true, length,
  get_or, replicate, ltb, ◌==◌, if◌then◌else◌, arith, Bool-cases, length-set, length-replicate,
  get_or-set, get_or-replicate, ltb→lt, lt→ltb, ==_iff, subst,
}
use moola_fix.Evm.Jumps.{
  mark, advance, jump_loop, valid_jump_dests, jump_is_valid, jump_sub_is_valid,
}

-- The bytes of an instruction with its data: a PUSH, 0x60 to 0x7f, has 1 to 32 bytes of data.
abbrev pub instruction_size : ℕ → ℕ
instruction_size opcode =
    if ltb opcode 0x60 then 1 else if ltb 0x7f opcode then 1 else opcode - 0x60 + 2

-- Where decoding starts at `i`, an instruction starts at the index: at `i` itself, and wherever one
-- starts after the instruction at `i` and its push data.
pub data StartsFrom (code : List ℕ) : ℕ → ℕ → Type 0 where
  here : {i : ℕ} → i < length code → StartsFrom code i i
  later :
      {i d : ℕ}
      → i < length code
      → StartsFrom code (i + instruction_size (get_or code i 0)) d
      → StartsFrom code i d

-- The mark that an instruction byte gets.
abbrev pub mark_of : ℕ → ℕ
mark_of opcode = if opcode == 0x5b then 1 else if opcode == 0x5c then 2 else 0

length-mark : (opcode i : ℕ) (jumps : List ℕ) → length (mark opcode i jumps) ≡ length jumps
unfolding mark
length-mark opcode i jumps = ground (arith, length-set jumps i 1, length-set jumps i 2)

mark-get :
    (opcode i j : ℕ) (jumps : List ℕ)
    → i < length jumps
    → get_or jumps i 0 ≡ 0
    → get_or (mark opcode i jumps) j 0 ≡ (if j == i then mark_of opcode else get_or jumps j 0)
unfolding mark
mark-get opcode i j jumps h z =
    ground (arith, get_or-set jumps i j 1 0 h, get_or-set jumps i j 2 0 h)

advance_pos : (opcode : ℕ) → 0 < advance opcode
unfolding advance
advance_pos opcode = ground arith

advance_lem : (opcode : ℕ) → advance opcode ≡ instruction_size opcode
unfolding advance
advance_lem opcode = ground arith

starts_inside : {code : List ℕ} {i d : ℕ} → StartsFrom code i d → i < length code
starts_inside (here p) = p
starts_inside (later p s) = p

module _ (code : List ℕ) where
  -- What the loop may rely on: the marks fit the code, and none is set from `i` on.
  record IsReady (i : ℕ) (jumps : List ℕ) : Type 0 where
    fits : length jumps ≡ length code
    fresh : (j : ℕ) → i ≤ j → get_or jumps j 0 ≡ 0

  mark-IsReady :
      (i : ℕ) (jumps : List ℕ)
      → IsReady i jumps
      → i < length code
      → IsReady (i + advance (get_or code i 0)) (mark (get_or code i 0) i jumps)
  mark-IsReady i jumps r h = record {
    fits = omega (arith, length-mark (get_or code i 0) i jumps, r.fits);
    fresh = λ j le. ground (
      arith,
      mark-get (get_or code i 0) i j jumps (omega (arith, r.fits)) (r.fresh i (omega arith)),
      r.fresh j (omega (arith, le)),
      advance_pos (get_or code i 0),
    );
  }

  -- The loop leaves what lies before `i`.
  jump_loop_before :
      (fuel i d : ℕ) (jumps : List ℕ)
      → IsReady i jumps
      → d < i
      → get_or (jump_loop fuel code i jumps) d 0 ≡ get_or jumps d 0
  unfolding jump_loop
  jump_loop_before zero i d jumps r h = refl
  jump_loop_before (suc fuel) i d jumps r h = elim (Bool-cases (ltb i (length code))) [
    | inl inside ↦
        let p : i < length code = ltb→lt i (length code) inside in
        rw inside (
          jump_loop_before fuel (i + advance (get_or code i 0)) d (mark (get_or code i 0) i jumps)
            (mark-IsReady i jumps r p) (omega arith)
          ∙ ground (
            arith,
            mark-get (get_or code i 0) i d jumps (omega (arith, r.fits)) (r.fresh i (omega arith)),
          ))
    | inr past ↦ rw past
  ]

  -- The loop sets a mark only where an instruction starts, and then that of its byte.
  jump_loop_sound :
      (fuel i d : ℕ) (jumps : List ℕ)
      → IsReady i jumps
      → (StartsFrom code i d
          × (get_or (jump_loop fuel code i jumps) d 0 ≡ mark_of (get_or code d 0)))
        ⊎ (get_or (jump_loop fuel code i jumps) d 0 ≡ get_or jumps d 0)
  unfolding jump_loop
  jump_loop_sound zero i d jumps r = inr refl
  jump_loop_sound (suc fuel) i d jumps r = elim (Bool-cases (ltb i (length code))) [
    | inl inside ↦
        let p : i < length code = ltb→lt i (length code) inside in
        rw inside (
          joined p (
            jump_loop_sound fuel (i + advance (get_or code i 0)) d (mark (get_or code i 0) i jumps)
              (mark-IsReady i jumps r p)))
    | inr past ↦ rw past (inr refl)
  ]
    where
      joined :
          i < length code
          → {result : ℕ}
          → (StartsFrom code (i + advance (get_or code i 0)) d
              × (result ≡ mark_of (get_or code d 0)))
            ⊎ (result ≡ get_or (mark (get_or code i 0) i jumps) d 0)
          → (StartsFrom code i d × (result ≡ mark_of (get_or code d 0)))
            ⊎ (result ≡ get_or jumps d 0)
      joined p (inl (s, e)) =
          inl
            (later p (subst (λ n. StartsFrom code (i + n) d) (advance_lem (get_or code i 0)) s), e)
      joined p (inr e) = elim (Bool-cases (d == i)) [
        | inl same ↦
            let at_i : d ≡ i = (==_iff d i).0 same in
            inl (
              subst (λ k. StartsFrom code i k) (sym at_i) (here p),
              ground (
                arith,
                at_i,
                mark-get (get_or code i 0) i d jumps (omega (arith, r.fits))
                    (r.fresh i (omega arith)),
              ),
            )
        | inr other ↦ inr (
            ground (
              arith,
              mark-get (get_or code i 0) i d jumps (omega (arith, r.fits))
                  (r.fresh i (omega arith)),
            ))
      ]

  -- With fuel for the rest of the code the loop reaches every instruction.
  jump_loop_complete :
      (fuel i d : ℕ) (jumps : List ℕ)
      → IsReady i jumps
      → length code ≤ i + fuel
      → StartsFrom code i d
      → get_or (jump_loop fuel code i jumps) d 0 ≡ mark_of (get_or code d 0)
  unfolding jump_loop
  jump_loop_complete zero i d jumps r enough s = absurd (omega (arith, enough, starts_inside s))
  jump_loop_complete (suc fuel) i d jumps r enough (here p) = rw (lt→ltb i (length code) p) (
      jump_loop_before fuel (i + advance (get_or code i 0)) i (mark (get_or code i 0) i jumps)
        (mark-IsReady i jumps r p) (omega (arith, advance_pos (get_or code i 0)))
      ∙ ground (
        arith,
        mark-get (get_or code i 0) i i jumps (omega (arith, r.fits)) (r.fresh i (omega arith)),
      ))
  jump_loop_complete (suc fuel) i d jumps r enough (later p s) = rw (lt→ltb i (length code) p) (
      jump_loop_complete fuel (i + advance (get_or code i 0)) d (mark (get_or code i 0) i jumps)
        (mark-IsReady i jumps r p) (omega (arith, enough, advance_pos (get_or code i 0)))
        (subst (λ n. StartsFrom code (i + n) d) (sym (advance_lem (get_or code i 0))) s))

  start-IsReady : IsReady 0 (replicate (length code) 0)
  start-IsReady = record {
    fits = length-replicate {A = ℕ} (length code) 0;
    fresh = λ j le. get_or-replicate {A = ℕ} (length code) j 0;
  }

  marks_at :
      (d : ℕ)
      → (StartsFrom code 0 d × (get_or (valid_jump_dests code) d 0 ≡ mark_of (get_or code d 0)))
        ⊎ (get_or (valid_jump_dests code) d 0 ≡ 0)
  unfolding valid_jump_dests
  marks_at d = elim (jump_loop_sound (length code) 0 d (replicate (length code) 0) start-IsReady) [
    | inl found ↦ inl found
    | inr e ↦ inr (e ∙ get_or-replicate {A = ℕ} (length code) d 0)
  ]

  mark_if_starts :
      (d : ℕ) → StartsFrom code 0 d → get_or (valid_jump_dests code) d 0 ≡ mark_of (get_or code d 0)
  unfolding valid_jump_dests
  mark_if_starts d =
      jump_loop_complete (length code) 0 d (replicate (length code) 0) start-IsReady (omega arith)

-- A jump is valid exactly where an instruction of the code starts whose byte is JUMPDEST.
pub jump_is_valid_iff :
    (code : List ℕ) (d : ℕ)
    → (jump_is_valid (valid_jump_dests code) d ≡ true)
      ↔ (StartsFrom code 0 d × (get_or code d 0 ≡ 0x5b))
unfolding jump_is_valid
jump_is_valid_iff code d = (
  λ h. elim (marks_at code d) [ inl (s, e) ↦ (s, ground arith) | inr e ↦ absurd (ground arith) ],
  λ (s, e). ground (arith, mark_if_starts code d s),
)

-- A subroutine may be entered exactly where an instruction of the code starts whose byte is BEGINSUB.
pub jump_sub_is_valid_iff :
    (code : List ℕ) (d : ℕ)
    → (jump_sub_is_valid (valid_jump_dests code) d ≡ true)
      ↔ (StartsFrom code 0 d × (get_or code d 0 ≡ 0x5c))
unfolding jump_sub_is_valid
jump_sub_is_valid_iff code d = (
  λ h. elim (marks_at code d) [ inl (s, e) ↦ (s, ground arith) | inr e ↦ absurd (ground arith) ],
  λ (s, e). ground (arith, mark_if_starts code d s),
)
