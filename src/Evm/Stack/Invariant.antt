-- ===== src/Evm/Stack/Invariant.antt =====
-- The invariant of the stack of stack.ts: bounded height and 256-bit words.
use moola_fix.Common.{
  ℕ, ◌-◌, ◌≤◌, ◌≡◌, ◌⊎◌, inl, inr, some, List, [], ◌∷◌, ◌++◌, arith, Result, ok-injective,
  err_not_ok, subst, ok, err, length, set, get_elem?, take, All, All-append, All-take, All-set,
  All-get, length-append, length-take, length-set, Option-cases, Bool-cases, leb, ltb,
}
use moola_fix.Evm.Error.{VmError, stack_underflow}
use moola_fix.Evm.Stack.{Stack, max_integer, item, push, pop, swap, dup}

-- A stack within its height limit that holds 256-bit words.
pub record IsValid (s : Stack) : Type 0 where
  pub bounded : length s.store ≤ s.max_height
  pub words : All (λ v. v ≤ max_integer) s.store

-- Where a call returns, it leaves a valid stack.
abbrev pub Leaves : Result VmError Stack → Type 0
Leaves (ok s) = IsValid s
Leaves (err _) = Unit

-- Where a call returns, its value is fine and it leaves a valid stack.
abbrev pub Yields : {A : Type 0} → (A → Type 0) → Result VmError (A × Stack) → Type 0
Yields P (ok (a, s)) = P a × IsValid s
Yields P (err _) = Unit

item-cases :
    (xs : List ℕ) (i : ℕ)
    → (item xs i ≡ err stack_underflow) ⊎ ((v : ℕ) × (get_elem? xs i ≡ some v) × (item xs i ≡ ok v))
unfolding item
item-cases xs i = elim (Option-cases (get_elem? xs i)) [
  | inl missing ↦ inl (rw (missing, item))
  | inr (v, e) ↦ inr (v, e, rw (e, item))
]

-- `push` keeps the stack valid for every value: its guards refuse what would break it.
pub push-IsValid : (v : ℕ) (s : Stack) → IsValid s → Leaves (push v s)
unfolding push
push-IsValid v s h = elim (Bool-cases (ltb max_integer v)) [
  | inl big ↦ rw big tt
  | inr small ↦ elim (Bool-cases (leb s.max_height (length s.store))) [
    | inl full ↦ rw (small, full) tt
    | inr room ↦
        rw (small, room)
          (record {
            bounded = ground (arith, length-append s.store (v ∷ []));
            words = All-append (λ v. v ≤ max_integer) s.store (v ∷ []) h.words (ground arith, tt);
          })
  ]
]

shorter : (n : ℕ) (s : Stack) → IsValid s → IsValid (record s { store = take n s.store })
shorter n s h = record {
  bounded = omega (arith, length-take n s.store, h.bounded);
  words = All-take (λ v. v ≤ max_integer) n s.store h.words;
}

-- `pop` yields a word and keeps the stack valid.
pub pop-IsValid : (s : Stack) → IsValid s → Yields (λ v. v ≤ max_integer) (pop s)
unfolding pop
pop-IsValid s h = elim (Bool-cases (ltb (length s.store) 1)) [
  | inl empty ↦ rw empty tt
  | inr some_left ↦ elim (item-cases s.store (length s.store - 1)) [
    | inl missing ↦ rw (some_left, missing) tt
    | inr (v, e, found) ↦
        rw (some_left, found)
          (All-get (λ v. v ≤ max_integer) s.store _ v h.words e, shorter (length s.store - 1) s h)
  ]
]

-- `swap` keeps the stack valid.
pub swap-IsValid : (position : ℕ) (s : Stack) → IsValid s → Leaves (swap position s)
unfolding swap
swap-IsValid position s h = elim (Bool-cases (leb (length s.store) position)) [
  | inl short ↦ rw short tt
  | inr enough ↦ elim (item-cases s.store (length s.store - 1)) [
    | inl missing ↦ rw (enough, missing) tt
    | inr (x, ex, fx) ↦ elim (item-cases s.store (length s.store - position - 1)) [
      | inl missing ↦ rw (enough, fx, missing) tt
      | inr (y, ey, fy) ↦
          rw (enough, fx, fy)
            (record {
              bounded = omega (
                arith,
                length-set (set s.store (length s.store - 1) y) (length s.store - position - 1) x,
                length-set s.store (length s.store - 1) y,
                h.bounded,
              );
              words =
                  All-set (λ v. v ≤ max_integer) _ _ x
                    (All-set (λ v. v ≤ max_integer) s.store _ y h.words
                      (All-get (λ v. v ≤ max_integer) s.store _ y h.words ey))
                    (All-get (λ v. v ≤ max_integer) s.store _ x h.words ex);
            })
    ]
  ]
]

-- `dup` keeps the stack valid.
pub dup-IsValid : (position : ℕ) (s : Stack) → IsValid s → Leaves (dup position s)
unfolding dup
dup-IsValid position s h = elim (Bool-cases (ltb (length s.store) position)) [
  | inl short ↦ rw short tt
  | inr enough ↦ elim (item-cases s.store (length s.store - position)) [
    | inl missing ↦ rw (enough, missing) tt
    | inr (v, e, found) ↦ rw (enough, found) (push-IsValid v s h)
  ]
]

module _ (P : ℕ → Type 0) where
  -- What holds of all items and of a value holds of all items where the value is pushed.
  pub push-All : (v : ℕ) (s s' : Stack) → push v s ≡ ok s' → All P s.store → P v → All P s'.store
  unfolding push
  push-All v s s' h all p = elim (Bool-cases (ltb max_integer v)) [
    | inl big ↦ absurd (err_not_ok (rw big at h))
    | inr small ↦ elim (Bool-cases (leb s.max_height (length s.store))) [
      | inl full ↦ absurd (err_not_ok (rw (small, full) at h))
      | inr room ↦
          subst (λ (t : Stack). All P t.store)
            (ok-injective (record s { store = s.store ++ v ∷ [] }) s' (rw (small, room) at h))
            (All-append P s.store (v ∷ []) all (p, tt))
    ]
  ]

  -- What holds of all items holds of one that is popped, and of the rest.
  pub pop-All : (s s' : Stack) (v : ℕ) → pop s ≡ ok (v, s') → All P s.store → P v × All P s'.store
  unfolding pop
  pop-All s s' v h all = elim (Bool-cases (ltb (length s.store) 1)) [
    | inl empty ↦ absurd (err_not_ok (rw empty at h))
    | inr some_left ↦ elim (item-cases s.store (length s.store - 1)) [
      | inl missing ↦ absurd (err_not_ok (rw (some_left, missing) at h))
      | inr (x, e, found) ↦
          subst (λ (r : ℕ × Stack). P r.0 × All P r.1.store)
            (ok-injective (x, record s { store = take (length s.store - 1) s.store }) (v, s')
              (rw (some_left, found) at h))
            (All-get P s.store _ x all e, All-take P (length s.store - 1) s.store all)
    ]
  ]
