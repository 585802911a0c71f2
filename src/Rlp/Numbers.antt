-- ===== src/Rlp/Numbers.antt =====
-- The big-endian bytes of a length: `numberToHex` with `hexToBytes`, and `decodeLength`.
use native.Mathlib.Nat.{pow-suc}
use moola_fix.Common.{
  ℕ, zero, suc, ◌+◌, ◌-◌, ◌*◌, ◌/◌, ◌%◌, ◌^◌, ◌≤◌, ◌<◌, ◌≡◌, refl, ap, subst, ◌∙◌, inl, inr, List,
  [], ◌∷◌, ◌++◌, Result, ok, ◌>>◌, throw_if, arith, length, get_or, ltb, lt→ltb, ltb-false, ◌==◌,
  if◌then◌else◌, Bool-cases, length-append, get_or-append, All-append, false,
}
use moola_fix.Common.Bytes.{from_be, from_be_acc-append, AllBytes, IsByte}
use moola_fix.Rlp.Item.{Error, extra_zeros}

-- The bytes of `hexToBytes(numberToHex(n))`: the shortest big-endian form, one byte for 0. A round
-- divides by 256, so the number is fuel enough.
unfoldable pub number_bytes_fuel : ℕ → ℕ → List ℕ
number_bytes_fuel zero n = n % 256 ∷ []
number_bytes_fuel (suc fuel) n =
    let rest = number_bytes_fuel fuel (n / 256) ++ (n % 256) ∷ [] in
    if ltb n 256 then n ∷ [] else rest

unfoldable pub number_bytes : ℕ → List ℕ
number_bytes n = number_bytes_fuel n n

-- `decodeLength`
unfoldable pub decode_length : List ℕ → Result Error ℕ
decode_length v = throw_if (get_or v 0 1 == 0) extra_zeros >> ok (from_be v)

from_be-snoc : (xs : List ℕ) (b : ℕ) → from_be (xs ++ b ∷ []) ≡ from_be xs * 256 + b
unfolding from_be
from_be-snoc xs b = from_be_acc-append 0 xs (b ∷ [])

number_bytes_fuel_lem :
    (fuel n : ℕ)
    → n ≤ fuel
    → 0 < n
    → (from_be (number_bytes_fuel fuel n) ≡ n)
      × ((get_or (number_bytes_fuel fuel n) 0 1 == 0) ≡ false)
      × (0 < length (number_bytes_fuel fuel n))
      × AllBytes (number_bytes_fuel fuel n)
unfolding number_bytes_fuel
number_bytes_fuel_lem zero n h pos = absurd (omega arith)
number_bytes_fuel_lem (suc fuel) n h pos = elim (Bool-cases (ltb n 256)) [
  | inl small ↦ rw small (unfold from_be in (omega arith, ground arith, omega arith, ground arith))
  | inr big ↦
      let (value, front, some_bytes, are_bytes) =
        number_bytes_fuel_lem fuel (n / 256) (omega arith) (ground arith) in
      rw big (
        from_be-snoc (number_bytes_fuel fuel (n / 256)) (n % 256) ∙ omega (arith, value),
        ground
            (arith, front, get_or-append (number_bytes_fuel fuel (n / 256)) ((n % 256) ∷ []) 0 1),
        omega (arith, length-append (number_bytes_fuel fuel (n / 256)) ((n % 256) ∷ [])),
        All-append IsByte (number_bytes_fuel fuel (n / 256)) ((n % 256) ∷ []) are_bytes
            (omega arith, tt),
      )
]

-- A positive number is the big-endian number of its bytes, which are not empty and do not begin
-- with zero.
pub number_bytes_lem :
    (n : ℕ)
    → 0 < n
    → (from_be (number_bytes n) ≡ n)
      × ((get_or (number_bytes n) 0 1 == 0) ≡ false)
      × (0 < length (number_bytes n))
      × AllBytes (number_bytes n)
unfolding number_bytes
number_bytes_lem n = number_bytes_fuel_lem n n (omega arith)

length-number_bytes_fuel :
    (fuel n k : ℕ) → n < 256 ^ suc k → length (number_bytes_fuel fuel n) ≤ suc k
unfolding number_bytes_fuel
length-number_bytes_fuel zero n k h = omega arith
length-number_bytes_fuel (suc fuel) n zero h = rw (lt→ltb n 256 (omega arith)) (omega arith)
length-number_bytes_fuel (suc fuel) n (suc k) h = elim (Bool-cases (ltb n 256)) [
  | inl small ↦ rw small (omega arith)
  | inr big ↦ rw big (
      omega (
        arith,
        length-append (number_bytes_fuel fuel (n / 256)) ((n % 256) ∷ []),
        length-number_bytes_fuel fuel (n / 256) k (omega (arith, pow-suc 256 (suc k))),
      ))
]

-- A number below 256^(k + 1) has at most k + 1 bytes.
pub length-number_bytes : (n k : ℕ) → n < 256 ^ suc k → length (number_bytes n) ≤ suc k
unfolding number_bytes
length-number_bytes n k h = length-number_bytes_fuel n n k h

snoc-split :
    (k : ℕ) (v : List ℕ)
    → length v ≡ suc k
    → (init : List ℕ) × (b : ℕ) × (v ≡ init ++ b ∷ []) × (length init ≡ k)
snoc-split k [] h = absurd (omega arith)
snoc-split zero (b ∷ []) h = ([], b, refl, refl)
snoc-split zero (b ∷ c ∷ v) h = absurd (omega arith)
snoc-split (suc k) (b ∷ v) h =
    let (init, c, e, l) = snoc-split k v (omega arith) in (b ∷ init, c, ap (◌∷◌ b) e, ap suc l)

number_bytes_fuel_small : (fuel n : ℕ) → n < 256 → number_bytes_fuel fuel n ≡ n ∷ []
unfolding number_bytes_fuel
number_bytes_fuel_small zero n h = let e : n % 256 ≡ n = omega arith in rw e
number_bytes_fuel_small (suc fuel) n h = rw (lt→ltb n 256 h)

pub number_bytes_small : (n : ℕ) → n < 256 → number_bytes n ≡ n ∷ []
unfolding number_bytes
number_bytes_small n h = number_bytes_fuel_small n n h

number_bytes_fuel-snoc :
    (fuel n b : ℕ)
    → 0 < n
    → b < 256
    → number_bytes_fuel (suc fuel) (n * 256 + b) ≡ number_bytes_fuel fuel n ++ b ∷ []
unfolding number_bytes_fuel
number_bytes_fuel-snoc fuel n b pos h =
    let q : (n * 256 + b) / 256 ≡ n = omega arith in
    let r : (n * 256 + b) % 256 ≡ b = omega arith in
    rw (ltb-false (n * 256 + b) 256 (omega arith), q, r)

front-snoc :
    (init : List ℕ) (b : ℕ) → 0 < length init → get_or (init ++ b ∷ []) 0 1 ≡ get_or init 0 1
front-snoc [] b h = elim h [ ]
front-snoc (x ∷ init) b h = refl

All-init : (init : List ℕ) (b : ℕ) → AllBytes (init ++ b ∷ []) → AllBytes init × (b < 256)
All-init [] b h = (tt, h.0)
All-init (x ∷ init) b h = let (hi, hb) = All-init init b h.1 in ((h.0, hi), hb)

number_bytes_fuel_extend :
    (k fuel : ℕ) (init : List ℕ) (b : ℕ)
    → length init ≡ suc k
    → AllBytes (init ++ b ∷ [])
    → ((m : ℕ)
        → from_be init ≤ m
        → (0 < from_be init) × (number_bytes_fuel m (from_be init) ≡ init))
    → from_be init * 256 + b ≤ fuel
    → (0 < from_be init * 256 + b)
      × (number_bytes_fuel fuel (from_be init * 256 + b) ≡ init ++ b ∷ [])
number_bytes_fuel_extend k zero init b l bs ih h =
    let (pos, _) = ih (from_be init) (omega arith) in absurd (omega arith)
number_bytes_fuel_extend k (suc fuel) init b l bs ih h =
    let (pos, _) = ih (from_be init) (omega arith) in
    let (_, e) = ih fuel (omega arith) in
    (
      omega arith,
      number_bytes_fuel-snoc fuel (from_be init) b pos (All-init init b bs).1
          ∙ ap (λ bytes. bytes ++ b ∷ []) e,
    )

-- Bytes that do not begin with zero are those of their number.
number_bytes_fuel_unique :
    (k fuel : ℕ) (v : List ℕ)
    → length v ≡ suc k
    → AllBytes v
    → (get_or v 0 1 == 0) ≡ false
    → from_be v ≤ fuel
    → (0 < from_be v) × (number_bytes_fuel fuel (from_be v) ≡ v)
number_bytes_fuel_unique k fuel [] l bs front h = absurd (omega arith)
number_bytes_fuel_unique zero fuel (b ∷ c ∷ v) l bs front h = absurd (omega arith)
number_bytes_fuel_unique zero fuel (b ∷ []) l bs front h =
    let value : from_be (b ∷ []) ≡ b = from_be-snoc [] b ∙ unfold from_be in (omega arith) in
    rw value (ground arith, number_bytes_fuel_small fuel b bs.0)
number_bytes_fuel_unique (suc k) fuel (c ∷ v) l bs front h =
    let (init, b, e, l') = snoc-split (suc k) (c ∷ v) l in
    let value : from_be (c ∷ v) ≡ from_be init * 256 + b = ap from_be e ∙ from_be-snoc init b in
    rw (value, e)
      (number_bytes_fuel_extend k fuel init b l' (subst AllBytes e bs)
        (λ m. number_bytes_fuel_unique k m init l' (All-init init b (subst AllBytes e bs)).0 (
          subst (λ x. (x == 0) ≡ false)
            (ap (λ xs. get_or xs 0 1) e ∙ front-snoc init b (omega arith)) front))
        (omega arith))

pub number_bytes_unique :
    (v : List ℕ)
    → 0 < length v
    → AllBytes v
    → (get_or v 0 1 == 0) ≡ false
    → number_bytes (from_be v) ≡ v
unfolding number_bytes
number_bytes_unique v some_bytes bs front =
    (number_bytes_fuel_unique (length v - 1) (from_be v) v (omega arith) bs front (omega arith)).1
