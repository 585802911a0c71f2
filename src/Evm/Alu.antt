-- ===== src/Evm/Alu.antt =====
-- The arithmetic and comparison opcodes of packages/vm/src/evm/opcodes/functions.ts, 0x01 to 0x1c
-- without EXP, SIGNEXTEND, AND, OR and XOR. A `BN` is a natural number, or a `Signed` number where the
-- handler calculates with `fromTwos(256)`.
pub mod Words
pub mod Handlers
mod Tests
use moola_fix.Common.{
  ℕ, ◌+◌, ◌-◌, ◌*◌, ◌/◌, ◌%◌, ◌^◌, Bool, true, false, not, ◌&&◌, List, [], ◌∷◌, Result, ok, err,
  ◌>>=◌, leb, ltb, ◌==◌, if◌then◌else◌,
}
use moola_fix.Evm.Error.{VmError, internal_error}
use moola_fix.Evm.Stack.{Stack, max_integer, push, pop, pop_n}

-- `TWO_POW256`
abbrev pub two_pow256 : ℕ
two_pow256 = 2 ^ 256

-- A number of bn.js with its sign: `minus n` is -n.
pub data Signed : Type 0 where
  plus minus : ℕ → Signed

-- `fromTwos(256)` and `toTwos(256)`
unfoldable pub from_twos : ℕ → Signed
from_twos v = if leb (2 ^ 255) v then minus (two_pow256 - v) else plus v

unfoldable pub to_twos : Signed → ℕ
to_twos (plus n) = n
to_twos (minus n) = if n == 0 then 0 else two_pow256 - n

-- `a.lt(b)` of two signed numbers.
unfoldable pub signed_lt : Signed → Signed → Bool
signed_lt (plus a) (plus b) = ltb a b
signed_lt (plus a) (minus b) = false
signed_lt (minus a) (plus b) = not (a == 0 && b == 0)
signed_lt (minus a) (minus b) = ltb b a

-- `a.div(b)` of two signed numbers, which rounds towards zero.
unfoldable pub signed_div : Signed → Signed → Signed
signed_div (plus a) (plus b) = plus (a / b)
signed_div (plus a) (minus b) = minus (a / b)
signed_div (minus a) (plus b) = minus (a / b)
signed_div (minus a) (minus b) = plus (a / b)

-- `a.abs().mod(b.abs())`, negated where `a` is negative.
unfoldable pub signed_mod : Signed → Signed → Signed
signed_mod (plus a) (plus b) = plus (a % b)
signed_mod (plus a) (minus b) = plus (a % b)
signed_mod (minus a) (plus b) = minus (a % b)
signed_mod (minus a) (minus b) = minus (a % b)

abbrev pub bit : Bool → ℕ
bit c = if c then 1 else 0

-- The opcodes on two operands.
pub data Binary : Type 0 where
  add mul sub div sdiv modulo smod lt gt slt sgt eq byte shl shr : Binary

-- BYTE, SHL and SHR; `andln(0xff)` and `iand(MAX_INTEGER)` are remainders.
unfoldable pub byte_at : ℕ → ℕ → ℕ
byte_at pos word = if leb 32 pos then 0 else word / 2 ^ ((31 - pos) * 8) % 256

unfoldable pub shift_left : ℕ → ℕ → ℕ
shift_left a b = if leb 256 a then 0 else b * 2 ^ a % two_pow256

unfoldable pub shift_right : ℕ → ℕ → ℕ
shift_right a b = if leb 256 a then 0 else b / 2 ^ a

-- What each calculates; the first operand is the top of the stack. `a.sub(b)` is written with its
-- sign.
unfoldable pub binary : Binary → ℕ → ℕ → ℕ
unfolding from_twos to_twos signed_lt signed_div signed_mod byte_at shift_left shift_right
binary add a b = (a + b) % two_pow256
binary mul a b = a * b % two_pow256
binary sub a b = to_twos (if leb b a then plus (a - b) else minus (b - a))
binary div a b = if b == 0 then b else a / b
binary sdiv a b = if b == 0 then b else to_twos (signed_div (from_twos a) (from_twos b))
binary modulo a b = if b == 0 then b else a % b
binary smod a b = if b == 0 then b else to_twos (signed_mod (from_twos a) (from_twos b))
binary lt a b = bit (ltb a b)
binary gt a b = bit (ltb b a)
binary slt a b = bit (signed_lt (from_twos a) (from_twos b))
binary sgt a b = bit (signed_lt (from_twos b) (from_twos a))
binary eq a b = bit (a == b)
binary byte pos word = byte_at pos word
binary shl a b = shift_left a b
binary shr a b = shift_right a b

-- The opcodes on one operand, and those on three.
pub data Unary : Type 0 where
  is_zero bit_not : Unary

unfoldable pub unary : Unary → ℕ → ℕ
unary is_zero a = bit (a == 0)
unary bit_not a = max_integer - a

pub data Ternary : Type 0 where
  add_mod mul_mod : Ternary

unfoldable pub ternary : Ternary → ℕ → ℕ → ℕ → ℕ
ternary add_mod a b c = if c == 0 then c else (a + b) % c
ternary mul_mod a b c = if c == 0 then c else a * b % c

-- The handlers. `popN` gives as many items as it is asked for.
unfoldable pub run_unary : Unary → Stack → Result VmError Stack
run_unary op s = do (a, s') ← pop s; push (unary op a) s'

abbrev pub apply_binary : Binary → List ℕ → Stack → Result VmError Stack
apply_binary op (a ∷ b ∷ []) s = push (binary op a b) s
apply_binary op _ s = err internal_error

unfoldable pub run_binary : Binary → Stack → Result VmError Stack
run_binary op s = do (operands, s') ← pop_n 2 s; apply_binary op operands s'

abbrev pub apply_ternary : Ternary → List ℕ → Stack → Result VmError Stack
apply_ternary op (a ∷ b ∷ c ∷ []) s = push (ternary op a b c) s
apply_ternary op _ s = err internal_error

unfoldable pub run_ternary : Ternary → Stack → Result VmError Stack
run_ternary op s = do (operands, s') ← pop_n 3 s; apply_ternary op operands s'
