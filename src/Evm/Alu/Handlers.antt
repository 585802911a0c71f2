-- ===== src/Evm/Alu/Handlers.antt =====
-- The handlers of the arithmetic opcodes on the stack.
use mathlib.Core.List.{reverse-append, reverse-reverse}
use moola_fix.Common.{
  ℕ, suc, ◌↔◌, inl, inr, Result, Bool-cases, ltb, err_not_ok, err-injective, ◌+◌, ◌≤◌, ◌<◌, ◌≡◌,
  refl, sym, ap, subst, ◌∙◌, List, [], ◌∷◌, ◌++◌, reverse, take, drop, length, ok, err, arith, All,
  All-append, length-reverse, ltb-false, lt→ltb,
}
use moola_fix.Evm.Error.{VmError, stack_underflow}
use moola_fix.Evm.Stack.{Stack, max_integer, push, pop_n}
use moola_fix.Evm.Stack.View.{top_first, height, of_top, pop-push, pop_n-view}
use moola_fix.Evm.Stack.Invariant.{IsValid, Leaves, push-IsValid}
use moola_fix.Evm.Alu.{Binary, binary, run_binary, Ternary, ternary, run_ternary}
use moola_fix.Evm.Alu.Words.{binary-word, ternary-word}

abbrev IsWord : ℕ → Type 0
IsWord v = v ≤ max_integer

All-reverse : (xs : List ℕ) → All IsWord xs → All IsWord (reverse xs)
All-reverse [] h = tt
All-reverse (x ∷ xs) h =
    subst (All IsWord) (sym (reverse-append (x ∷ []) xs))
      (All-append IsWord (reverse xs) (x ∷ []) (All-reverse xs h.1) (h.0, tt))

-- The items of a valid stack are words, and there are no more than it may hold.
top_first-words : (s : Stack) (xs : List ℕ) → IsValid s → top_first s ≡ xs → All IsWord xs
top_first-words s xs h e = subst (All IsWord) e (All-reverse s.store h.words)

height-top_first : (s : Stack) (xs : List ℕ) → top_first s ≡ xs → height s ≡ length xs
height-top_first s xs e = sym (length-reverse s.store) ∙ ap length e

-- Taking the first items off a stack.
pop_n-top_first :
    (s : Stack) (front below : List ℕ) (n : ℕ)
    → top_first s ≡ front ++ below
    → length front ≡ n
    → take n (front ++ below) ≡ front
    → drop n (front ++ below) ≡ below
    → length front + length below ≡ length (front ++ below)
    → pop_n n s ≡ ok (front, of_top below s)
pop_n-top_first s front below n e len front_is below_is sum =
    pop_n-view n s
    ∙ rw (
      ltb-false (height s) n (omega (arith, height-top_first s (front ++ below) e, sum, len)),
      e,
      front_is,
      below_is,
    )

-- Pushing a word where items have been taken off a valid stack.
push-of_top :
    (s : Stack) (below : List ℕ) (v : ℕ)
    → IsValid s
    → length below < height s
    → All IsWord below
    → IsWord v
    → (t : Stack) × (push v (of_top below s) ≡ ok t) × (top_first t ≡ v ∷ below) × IsValid t
push-of_top s below v h fewer words word =
    let below_h : height (of_top below s) ≡ length below = length-reverse below in
    let rest : IsValid (of_top below s) = record {
      bounded = omega (arith, below_h, fewer, h.bounded);
      words = All-reverse below words;
    } in
    let (t, pushed, top, _) =
      pop-push v (of_top below s) word (omega (arith, below_h, fewer, h.bounded)) in
    (
      t,
      pushed,
      top ∙ ap (◌∷◌ v) (reverse-reverse below),
      subst Leaves pushed (push-IsValid v (of_top below s) rest),
    )

-- On a valid stack with two items, every opcode on two operands succeeds: it takes them off, the
-- top first, puts its value in their place, and leaves a valid stack.
pub run_binary_lem :
    (op : Binary) (s : Stack) (a b : ℕ) (below : List ℕ)
    → IsValid s
    → top_first s ≡ a ∷ b ∷ below
    → (t : Stack) × (run_binary op s ≡ ok t) × (top_first t ≡ binary op a b ∷ below) × IsValid t
unfolding run_binary
run_binary_lem op s a b below h e =
    let words = top_first-words s (a ∷ b ∷ below) h e in
    rw (pop_n-top_first s (a ∷ b ∷ []) below 2 e refl refl refl (omega arith)) (
      push-of_top s below (binary op a b) h (omega (arith, height-top_first s (a ∷ b ∷ below) e))
        words.1.1 (binary-word op a b words.0 words.1.0))

-- On a valid stack with three items, ADDMOD and MULMOD succeed: they take them off, the top first, put
-- their value in their place, and leave a valid stack.
pub run_ternary_lem :
    (op : Ternary) (s : Stack) (a b c : ℕ) (below : List ℕ)
    → IsValid s
    → top_first s ≡ a ∷ b ∷ c ∷ below
    → (t : Stack) × (run_ternary op s ≡ ok t) × (top_first t ≡ ternary op a b c ∷ below) × IsValid t
unfolding run_ternary
run_ternary_lem op s a b c below h e =
    let words = top_first-words s (a ∷ b ∷ c ∷ below) h e in
    rw (pop_n-top_first s (a ∷ b ∷ c ∷ []) below 3 e refl refl refl (omega arith)) (
      push-of_top s below (ternary op a b c) h
        (omega (arith, height-top_first s (a ∷ b ∷ c ∷ below) e)) words.1.1.1
        (ternary-word op a b c words.1.1.0))

-- The first item of a list that is long enough, and the others.
first_item :
    (n : ℕ) (xs : List ℕ)
    → suc n ≤ length xs
    → (x : ℕ) × (rest : List ℕ) × (xs ≡ x ∷ rest) × (n ≤ length rest)
first_item n [] h = absurd (omega arith)
first_item n (x ∷ xs) h = (x, xs, refl, omega arith)

binary_succeeds :
    (op : Binary) (s : Stack) → IsValid s → 2 ≤ height s → (t : Stack) × (run_binary op s ≡ ok t)
binary_succeeds op s h enough =
    let (a, s1, e1, l1) = first_item 1 (top_first s) (omega (arith, length-reverse s.store)) in
    let (b, s2, e2, _) = first_item 0 s1 l1 in
    let (t, ran, _, _) = run_binary_lem op s a b s2 h (e1 ∙ ap (◌∷◌ a) e2) in (t, ran)

ternary_succeeds :
    (op : Ternary) (s : Stack) → IsValid s → 3 ≤ height s → (t : Stack) × (run_ternary op s ≡ ok t)
ternary_succeeds op s h enough =
    let (a, s1, e1, l1) = first_item 2 (top_first s) (omega (arith, length-reverse s.store)) in
    let (b, s2, e2, l2) = first_item 1 s1 l1 in
    let (c, s3, e3, _) = first_item 0 s2 l2 in
    let (t, ran, _, _) = run_ternary_lem op s a b c s3 h (e1 ∙ ap (◌∷◌ a) (e2 ∙ ap (◌∷◌ b) e3)) in
    (t, ran)

-- What fails exactly below a height, with an underflow.
fails_iff :
    (result : Result VmError Stack) (e : VmError) (h n : ℕ)
    → (h < n → result ≡ err stack_underflow)
    → (n ≤ h → (t : Stack) × (result ≡ ok t))
    → (result ≡ err e) ↔ ((h < n) × (e ≡ stack_underflow))
fails_iff result e h n low high = (
  λ failed. elim (Bool-cases (ltb h n)) [
    | inl below ↦ (
      ground (arith, below),
      err-injective e stack_underflow (sym failed ∙ low (ground (arith, below))),
    )
    | inr enough ↦
        let (t, ran) = high (ground (arith, enough)) in absurd (err_not_ok (sym failed ∙ ran))
  ],
  λ (below, same). low below ∙ ap err (sym same),
)

-- On a valid stack, an opcode on two operands fails exactly where the stack has fewer than two items, and
-- ADDMOD and MULMOD exactly where it has fewer than three; the error is always a stack underflow.
pub operands_missing_iff :
    (op : Binary) (op' : Ternary) (s : Stack) (e : VmError)
    → IsValid s
    → ((run_binary op s ≡ err e) ↔ ((height s < 2) × (e ≡ stack_underflow)))
      × ((run_ternary op' s ≡ err e) ↔ ((height s < 3) × (e ≡ stack_underflow)))
unfolding run_binary run_ternary pop_n
operands_missing_iff op op' s e h = (
  fails_iff (run_binary op s) e (height s) 2 (λ few. rw (lt→ltb (height s) 2 few))
      (binary_succeeds op s h),
  fails_iff (run_ternary op' s) e (height s) 3 (λ few. rw (lt→ltb (height s) 3 few))
      (ternary_succeeds op' s h),
)
