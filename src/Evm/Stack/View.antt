-- ===== src/Evm/Stack/View.antt =====
-- What the array operations of stack.ts mean for the stack read from its top.
use mathlib.Core.List.{append-nil, append_assoc, reverse-append, reverse-reverse}
use native.Mathlib.Numerals.{add-one}
use moola_fix.Common.{
  ℕ, zero, suc, ◌+◌, ◌-◌, ◌≤◌, ◌<◌, ◌≡◌, ◌∙◌, inl, inr, List, [], ◌∷◌, ◌++◌, reverse, some, arith,
  length, get_elem?, set, take, drop, ok, err, if◌then◌else◌, get_elem?-append_right,
  get_elem?-reverse, get_elem?-exchange, drop-get, ltb, ◌==◌, Bool-cases, ltb-false, leb-false,
  suc_ne_zero, length-append, length-set, reverse-split, get_elem?-some, take-append_length,
}
use moola_fix.Evm.Error.{stack_underflow}
use moola_fix.Evm.Stack.{Stack, max_integer, item, push, pop, pop_n, peek_loop, peek, swap, dup}

-- The items, the top first.
abbrev pub top_first : Stack → List ℕ
top_first s = reverse s.store

abbrev pub height : Stack → ℕ
height s = length s.store

pub item-some : (xs : List ℕ) (i v : ℕ) → get_elem? xs i ≡ some v → item xs i ≡ ok v
unfolding item
item-some xs i v h = rw (h, item)

-- With room and a value of 256 bits, `push` puts the value on top, and `pop` gives it back with the
-- stack as it was.
pub pop-push :
    (v : ℕ) (s : Stack)
    → v ≤ max_integer
    → height s < s.max_height
    → (t : Stack) × (push v s ≡ ok t) × (top_first t ≡ v ∷ top_first s) × (pop t ≡ ok (v, s))
unfolding push pop
pop-push v s small room = (
  record s { store = s.store ++ v ∷ [] },
  rw (ltb-false max_integer v small, leb-false s.max_height (length s.store) room),
  reverse-append s.store (v ∷ []),
  rw (
    ltb-false (length (s.store ++ v ∷ [])) 1 (omega (arith, len)),
    item-some (s.store ++ v ∷ []) (length (s.store ++ v ∷ []) - 1) v
        (get_elem?-append_right s.store (v ∷ []) 0 _ (omega (arith, len))),
    take-append_length s.store (v ∷ []) (length (s.store ++ v ∷ []) - 1) (omega (arith, len)),
  ),
)
  where
    len : length (s.store ++ v ∷ []) ≡ length s.store + 1
    len = length-append s.store (v ∷ [])

-- The stack with these items, the top first.
abbrev pub of_top : List ℕ → Stack → Stack
of_top xs s = record s { store = reverse xs }

-- `popN` takes the first `n` items from the top and leaves the others in order; where the stack is
-- shorter it fails.
pub pop_n-view :
    (n : ℕ) (s : Stack)
    → pop_n n s ≡ (
        if ltb (height s) n
        then err stack_underflow
        else ok (take n (top_first s), of_top (drop n (top_first s)) s))
unfolding pop_n
pop_n-view zero s = rw (ltb-false (height s) 0 (omega arith), reverse-reverse)
pop_n-view (suc n) s = elim (Bool-cases (ltb (height s) (suc n))) [
  | inl short ↦ rw short
  | inr enough ↦
      let parts = reverse-split (suc n) (height s - suc n) s.store (ground arith) in
      rw (enough, suc_ne_zero n, parts.0, parts.1, reverse-reverse)
]

peek_loop-slice :
    (rounds p : ℕ) (xs seen : List ℕ)
    → p + rounds ≤ length xs
    → peek_loop rounds (p + 1) xs seen ≡ ok (seen ++ take rounds (drop p (reverse xs)))
unfolding peek_loop
peek_loop-slice zero p xs seen h = rw append-nil
peek_loop-slice (suc rounds) p xs seen h =
    let (v, at_p) = get_elem?-some xs (length xs - (p + 1)) (omega arith) in
    let from_p : drop p (reverse xs) ≡ v ∷ drop (suc p) (reverse xs) =
      drop-get (reverse xs) p v
        (get_elem?-reverse xs p (length xs - (p + 1)) (omega arith) ∙ at_p) in
    rw
      (
        ltb-false (length xs) (p + 1) (omega arith),
        item-some xs (length xs - (p + 1)) v at_p,
        from_p,
      )
      (peek_loop-slice rounds (p + 1) xs (seen ++ v ∷ []) (omega arith)
        ∙ rw (add-one, append_assoc))

peek_loop_short :
    (rounds p : ℕ) (xs seen : List ℕ)
    → p ≤ length xs
    → length xs < p + rounds
    → peek_loop rounds (p + 1) xs seen ≡ err stack_underflow
unfolding peek_loop
peek_loop_short zero p xs seen h short = absurd (omega arith)
peek_loop_short (suc rounds) p xs seen h short = elim (Bool-cases (ltb (length xs) (p + 1))) [
  | inl past ↦ rw past
  | inr inside ↦
      let (v, at_p) = get_elem?-some xs (length xs - (p + 1)) (ground arith) in
      rw (inside, item-some xs (length xs - (p + 1)) v at_p)
        (peek_loop_short rounds (p + 1) xs (seen ++ v ∷ []) (ground arith) (omega arith))
]

-- `peek` reads the first `n` items from the top; where the stack is shorter it fails.
pub peek-view :
    (n : ℕ) (s : Stack)
    → peek n s ≡ (if ltb (height s) n then err stack_underflow else ok (take n (top_first s)))
unfolding peek
peek-view n s = elim (Bool-cases (ltb (height s) n)) [
  | inl short ↦ rw short (peek_loop_short n 0 s.store [] (omega arith) (ground arith))
  | inr enough ↦ rw enough (peek_loop-slice n 0 s.store [] (ground arith))
]

-- On a stack that is higher than `position`, `swap` exchanges the top with the item `position` places below
-- it, keeps the height, and leaves the item at every other index.
pub swap_lem :
    (position j : ℕ) (s : Stack)
    → position < height s
    → (t : Stack) × (swap position s ≡ ok t)
      × (height t ≡ height s)
      × (get_elem? t.store j ≡ (
          if j == height s - 1
          then get_elem? s.store (height s - position - 1)
          else if j == height s - position - 1
          then get_elem? s.store (height s - 1)
          else get_elem? s.store j))
unfolding swap
swap_lem position j s h =
    let top = get_elem?-some s.store (height s - 1) (omega arith) in
    let low = get_elem?-some s.store (height s - position - 1) (omega arith) in
    (
      record s { store = set (set s.store (height s - 1) low.0) (height s - position - 1) top.0 },
      rw (
        leb-false (height s) position h,
        item-some s.store (height s - 1) top.0 top.1,
        item-some s.store (height s - position - 1) low.0 low.1,
      ),
      omega (
        arith,
        length-set (set s.store (height s - 1) low.0) (height s - position - 1) top.0,
        length-set s.store (height s - 1) low.0,
      ),
      get_elem?-exchange s.store (height s - 1) (height s - position - 1) j top.0 low.0
          (omega arith) (omega arith) top.1 low.1,
    )

-- For a place between 1 and the height, `dup` does what `push` does with the item at that place,
-- counted from 1 at the top.
pub dup-view :
    (position : ℕ) (s : Stack)
    → 0 < position
    → position ≤ height s
    → (v : ℕ) × (get_elem? (top_first s) (position - 1) ≡ some v) × (dup position s ≡ push v s)
unfolding dup
dup-view position s pos h =
    let (v, at_v) = get_elem?-some s.store (height s - position) (omega arith) in
    (
      v,
      get_elem?-reverse s.store (position - 1) (height s - position) (omega arith) ∙ at_v,
      rw (ltb-false (height s) position h, item-some s.store (height s - position) v at_v),
    )
