-- ===== src/Evm/Alu/Words.antt =====
-- The values that the arithmetic opcodes calculate.
use native.Mathlib.Nat.{div-le_self, mod-lt, mod-le}
use moola_fix.Common.{
  ℕ, ◌+◌, ◌-◌, ◌*◌, ◌/◌, ◌%◌, ◌^◌, ◌≤◌, ◌<◌, ◌≡◌, arith, leb, ltb, ◌==◌, if◌then◌else◌, inl, inr,
  Bool-cases, Bool, true, false,
}
use moola_fix.Evm.Stack.{max_integer}
use moola_fix.Evm.Alu.{
  two_pow256, Signed, plus, minus, from_twos, to_twos, signed_lt, signed_div, signed_mod, bit,
  Binary, add, mul, sub, div, sdiv, modulo, smod, lt, gt, slt, sgt, eq, byte, shl, shr, binary,
  Unary, is_zero, bit_not, unary, Ternary, add_mod, mul_mod, ternary,
}

mod-word : (n : ℕ) → n % two_pow256 ≤ max_integer
mod-word n = omega arith

bit-word : (c : Bool) → bit c ≤ max_integer
bit-word true = omega arith
bit-word false = omega arith

-- The absolute value of a signed number.
abbrev size : Signed → ℕ
size (plus n) = n
size (minus n) = n

to_twos-word : (x : Signed) → size x ≤ max_integer → to_twos x ≤ max_integer
unfolding to_twos
to_twos-word (plus n) h = h
to_twos-word (minus n) h = ground arith

from_twos-word : (v : ℕ) → v ≤ max_integer → size (from_twos v) ≤ max_integer
unfolding from_twos
from_twos-word v h = ground arith

-- Reading a word as a signed number and writing it back gives the word.
pub to_twos-from_twos : (v : ℕ) → v ≤ max_integer → to_twos (from_twos v) ≡ v
unfolding to_twos from_twos
to_twos-from_twos v h = ground arith

signed_div-size : (x y : Signed) → size (signed_div x y) ≤ size x
unfolding signed_div
signed_div-size (plus a) (plus b) = div-le_self a b
signed_div-size (plus a) (minus b) = div-le_self a b
signed_div-size (minus a) (plus b) = div-le_self a b
signed_div-size (minus a) (minus b) = div-le_self a b

signed_mod-size : (x y : Signed) → size (signed_mod x y) ≤ size x
unfolding signed_mod
signed_mod-size (plus a) (plus b) = mod-le a b
signed_mod-size (plus a) (minus b) = mod-le a b
signed_mod-size (minus a) (plus b) = mod-le a b
signed_mod-size (minus a) (minus b) = mod-le a b

unless_zero :
    (b : ℕ) (value : ℕ)
    → b ≤ max_integer
    → value ≤ max_integer
    → (if b == 0 then b else value) ≤ max_integer
unless_zero b value h k = ground arith

le-word : (a b : ℕ) → a ≤ b → b ≤ max_integer → a ≤ max_integer
le-word a b h k = omega arith

-- On words every opcode calculates a word.
pub binary-word :
    (op : Binary) (a b : ℕ) → a ≤ max_integer → b ≤ max_integer → binary op a b ≤ max_integer
unfolding binary
binary-word add a b h k = mod-word (a + b)
binary-word mul a b h k = mod-word (a * b)
binary-word sub a b h k = elim (Bool-cases (leb b a)) [
  | inl c ↦ rw c (to_twos-word (plus (a - b)) (omega arith))
  | inr c ↦ rw c (to_twos-word (minus (b - a)) (omega arith))
]
binary-word div a b h k = unless_zero b (a / b) k (le-word (a / b) a (div-le_self a b) h)
binary-word sdiv a b h k = unless_zero b _ k (
    to_twos-word (signed_div (from_twos a) (from_twos b))
      (le-word _ _ (signed_div-size (from_twos a) (from_twos b)) (from_twos-word a h)))
binary-word modulo a b h k = unless_zero b (a % b) k (le-word (a % b) a (mod-le a b) h)
binary-word smod a b h k = unless_zero b _ k (
    to_twos-word (signed_mod (from_twos a) (from_twos b))
      (le-word _ _ (signed_mod-size (from_twos a) (from_twos b)) (from_twos-word a h)))
binary-word lt a b h k = bit-word (ltb a b)
binary-word gt a b h k = bit-word (ltb b a)
binary-word slt a b h k = bit-word (signed_lt (from_twos a) (from_twos b))
binary-word sgt a b h k = bit-word (signed_lt (from_twos b) (from_twos a))
binary-word eq a b h k = bit-word (a == b)
binary-word byte a b h k = ground arith
binary-word shl a b h k = ground (arith, mod-word (b * 2 ^ a))
binary-word shr a b h k = ground (arith, div-le_self b (2 ^ a), h, k)

-- The same on one operand and on three.
pub unary-word : (op : Unary) (a : ℕ) → a ≤ max_integer → unary op a ≤ max_integer
unfolding unary
unary-word is_zero a h = bit-word (a == 0)
unary-word bit_not a h = omega arith

remainder-word : (n c : ℕ) → c ≤ max_integer → (if c == 0 then c else n % c) ≤ max_integer
remainder-word n c h = elim (Bool-cases (c == 0)) [
  | inl e ↦ rw e h
  | inr e ↦ rw e (le-word (n % c) c (below (mod-lt n (pos e))) h)
]
  where
    pos : (c == 0) ≡ false → 0 < c
    pos e = ground arith

    below : n % c < c → n % c ≤ c
    below less = omega arith

pub ternary-word : (op : Ternary) (a b c : ℕ) → c ≤ max_integer → ternary op a b c ≤ max_integer
unfolding ternary
ternary-word add_mod a b c h = remainder-word (a + b) c h
ternary-word mul_mod a b c h = remainder-word (a * b) c h

-- SUB is the inverse of ADD on words.
pub sub-add : (a b : ℕ) → a ≤ max_integer → b ≤ max_integer → binary add (binary sub a b) b ≡ a
unfolding binary to_twos
sub-add a b h k = ground arith
