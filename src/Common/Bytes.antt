-- ===== src/Common/Bytes.antt =====
-- Byte strings and the numbers that they stand for: a `Buffer` is a list of numbers below 256, and
-- the big-endian reading of one is what `new BN(buffer)` documents.
use Prim.Native.Nat.{ℕ, zero, suc, ◌+◌, ◌*◌, ◌/◌, ◌%◌, ◌^◌, ◌<◌}
use native.Mathlib.Nat.{pow-suc}
use mathlib.Core.Path.{◌≡◌, refl, ap, ◌∙◌}
use mathlib.Core.List.{List, [], ◌∷◌, ◌++◌}
use native.Mathlib.Omega.{arith}
use moola_fix.Common.Lists.{length, replicate, length-append}
use moola_fix.Common.Items.{All}

abbrev pub IsByte : ℕ → Type 0
IsByte b = b < 256

abbrev pub AllBytes : List ℕ → Type 0
AllBytes = All IsByte

-- The big-endian number of a byte string behind a number read so far.
unfoldable pub from_be_acc : ℕ → List ℕ → ℕ
from_be_acc acc [] = acc
from_be_acc acc (b ∷ bytes) = from_be_acc (acc * 256 + b) bytes

unfoldable pub from_be : List ℕ → ℕ
unfolding from_be_acc
from_be = from_be_acc 0

-- The big-endian form of a number in a fixed count of bytes; what does not fit is left out.
unfoldable pub to_be : ℕ → ℕ → List ℕ
to_be zero v = []
to_be (suc n) v = to_be n (v / 256) ++ (v % 256) ∷ []

pub length-to_be : (n v : ℕ) → length (to_be n v) ≡ n
unfolding to_be
length-to_be zero v = refl
length-to_be (suc n) v =
    omega (arith, length-append (to_be n (v / 256)) ((v % 256) ∷ []), length-to_be n (v / 256))

pub from_be_acc-append :
    (acc : ℕ) (xs ys : List ℕ) → from_be_acc acc (xs ++ ys) ≡ from_be_acc (from_be_acc acc xs) ys
unfolding from_be_acc
from_be_acc-append acc [] ys = refl
from_be_acc-append acc (x ∷ xs) ys = from_be_acc-append (acc * 256 + x) xs ys

-- What was read before stands in front of the bytes that follow.
pub from_be_acc-split :
    (acc : ℕ) (xs : List ℕ) → from_be_acc acc xs ≡ acc * 256 ^ length xs + from_be xs
unfolding from_be
from_be_acc-split acc [] = omega arith
from_be_acc-split acc (x ∷ xs) =
    rw (from_be_acc-split (acc * 256 + x) xs, from_be_acc-split (0 + x) xs, pow-suc 256 (length xs))
      (regroup acc x (256 ^ length xs) (from_be xs))
  where
    regroup : (a b p r : ℕ) → (a * 256 + b) * p + r ≡ a * (p * 256) + ((0 + b) * p + r)
    regroup a b p r = grind arith

pub from_be-lt : (xs : List ℕ) → AllBytes xs → from_be xs < 256 ^ length xs
unfolding from_be
from_be-lt [] h = omega arith
from_be-lt (x ∷ xs) h =
    grind (arith, from_be-lt xs h.1, from_be_acc-split (0 + x) xs, pow-suc 256 (length xs))

pub from_be-replicate_zero : (n : ℕ) → from_be (replicate n 0) ≡ 0
unfolding from_be
from_be-replicate_zero zero = refl
from_be-replicate_zero (suc n) = from_be-replicate_zero n

-- A number that fits is read back.
pub from_be-to_be : (n v : ℕ) → v < 256 ^ n → from_be (to_be n v) ≡ v
unfolding to_be from_be
from_be-to_be zero v h = omega arith
from_be-to_be (suc n) v h =
    from_be_acc-append 0 (to_be n (v / 256)) ((v % 256) ∷ [])
    ∙ ap (λ k. k * 256 + v % 256) (from_be-to_be n (v / 256) (omega (arith, pow-suc 256 n)))
    ∙ omega arith
