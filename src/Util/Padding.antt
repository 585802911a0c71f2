-- ===== src/Util/Padding.antt =====
-- The padding of packages/util/src/bytes.ts: `zeros`, `setLength` and its two directions, and
-- `stripZeros`.
use moola_fix.Common.{
  ℕ, ◌-◌, ◌≤◌, ◌≡◌, ap, ◌∙◌, Bool, true, false, drop_none, List, [], ◌∷◌, ◌++◌, arith, length, take,
  drop, replicate, get_or, ltb, ◌==◌, if◌then◌else◌, length-append, length-take, length-replicate,
  get_or-append, get_or-take, get_or-replicate, get_or_past,
}
use moola_fix.Common.Bytes.{from_be, from_be_acc, from_be-replicate_zero, from_be_acc-append}

-- `zeros`
unfoldable pub zeros : ℕ → List ℕ
zeros n = replicate n 0

-- `setLength`; `msg.slice(-length)` is the whole message where `length` is 0.
unfoldable pub set_length : List ℕ → ℕ → Bool → List ℕ
unfolding zeros
set_length msg len right =
    if right
    then if ltb (length msg) len then msg ++ zeros (len - length msg) else take len msg
    else if ltb (length msg) len
    then zeros (len - length msg) ++ msg
    else if len == 0
    then msg
    else drop (length msg - len) msg

-- `setLengthLeft`
unfoldable pub set_length_left : List ℕ → ℕ → List ℕ
unfolding set_length
set_length_left msg len = set_length msg len false

-- `setLengthRight`
unfoldable pub set_length_right : List ℕ → ℕ → List ℕ
unfolding set_length
set_length_right msg len = set_length msg len true

-- `stripZeros` on a buffer.
unfoldable pub strip_zeros : List ℕ → List ℕ
strip_zeros [] = []
strip_zeros (b ∷ a) = if b == 0 then strip_zeros a else b ∷ a

-- Padding on the right gives the asked length, the bytes of the message and zeros behind it.
pub set_length_right_lem :
    (msg : List ℕ) (len i : ℕ)
    → (length (set_length_right msg len) ≡ len)
      × (get_or (set_length_right msg len) i 0 ≡ (if ltb i len then get_or msg i 0 else 0))
unfolding set_length_right
set_length_right_lem msg len i = ground (
  arith,
  length-append msg (replicate (len - length msg) 0),
  length-replicate {A = ℕ} (len - length msg) 0,
  length-take len msg,
  get_or-append msg (replicate (len - length msg) 0) i 0,
  get_or-replicate {A = ℕ} (len - length msg) (i - length msg) 0,
  get_or-take len msg i 0,
  get_or_past msg i 0,
)

from_be-padded : (n : ℕ) (msg : List ℕ) → from_be (replicate n 0 ++ msg) ≡ from_be msg
unfolding from_be
from_be-padded n msg =
    from_be_acc-append 0 (replicate n 0) msg
    ∙ ap (λ acc. from_be_acc acc msg) (from_be-replicate_zero n)

-- A message that is not longer than the asked length is padded on the left to that length, and
-- keeps its big-endian number.
pub set_length_left_lem :
    (msg : List ℕ) (len : ℕ)
    → length msg ≤ len
    → (length (set_length_left msg len) ≡ len) × (from_be (set_length_left msg len) ≡ from_be msg)
unfolding set_length_left
set_length_left_lem msg len h = ground (
  arith,
  length-append (replicate (len - length msg) 0) msg,
  length-replicate {A = ℕ} (len - length msg) 0,
  from_be-padded (len - length msg) msg,
  drop_none msg (length msg - len),
)

-- Stripping the leading zeros keeps the number, and leaves no zero in front.
pub strip_zeros_lem :
    (a : List ℕ)
    → (from_be (strip_zeros a) ≡ from_be a)
      × (length (strip_zeros a) ≤ length a)
      × ((get_or (strip_zeros a) 0 1 == 0) ≡ false)
unfolding strip_zeros from_be
strip_zeros_lem [] = ground arith
strip_zeros_lem (b ∷ a) = ground (arith, strip_zeros_lem a)
