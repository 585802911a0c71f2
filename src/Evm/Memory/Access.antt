-- ===== src/Evm/Memory/Access.antt =====
-- What `extend`, `write` and `read` of memory.ts do to each byte of the memory.
use moola_fix.Common.{
  ℕ, zero, suc, ◌+◌, ◌-◌, ◌%◌, ◌≤◌, ◌<◌, ◌≡◌, refl, List, ok, ok-injective, sym, ap, ap₂, ◌∙◌,
  arith, length, get_or, set, slice, drop, replicate, ltb, leb, ◌&&◌, if◌then◌else◌, length-append,
  length-replicate, length-set, length-take, length-drop, get_or-append, get_or-replicate,
  get_or-set, get_or-take, get_or-drop, get_or_past, list_ext, le→leb, ltb-false, ==_iff,
  suc_ne_zero,
}
use moola_fix.Evm.Memory.{Memory, ceil, extend, write_loop, write, read}

-- The byte at an address; beyond its end a memory reads as zero.
abbrev pub byte : Memory → ℕ → ℕ
byte m j = get_or m j 0

-- The rounded size is the next multiple of 32.
ceil_lem : (n : ℕ) → (n ≤ ceil n 32) × (ceil n 32 < n + 32) × (ceil n 32 % 32 ≡ 0)
unfolding ceil
ceil_lem n = ground arith

-- `extend` keeps a memory of whole words in whole words, does not shorten it and changes no byte.
pub extend_lem :
    (offset size j : ℕ) (m : Memory)
    → length m % 32 ≡ 0
    → (length (extend offset size m) % 32 ≡ 0)
      × (length m ≤ length (extend offset size m))
      × (byte (extend offset size m) j ≡ byte m j)
unfolding extend
extend_lem offset size j m words = ground (
  arith,
  ceil_lem (offset + size),
  length-append m (replicate (ceil (offset + size) 32 - length m) 0),
  length-replicate {A = ℕ} (ceil (offset + size) 32 - length m) 0,
  get_or-append m (replicate (ceil (offset + size) 32 - length m) 0) j 0,
  get_or-replicate {A = ℕ} (ceil (offset + size) 32 - length m) (j - length m) 0,
  get_or_past m j 0,
)

extend_room :
    (offset size : ℕ) (m : Memory) → 0 < size → offset + size ≤ length (extend offset size m)
unfolding extend
extend_room offset size m h = ground (
  arith,
  ceil_lem (offset + size),
  length-append m (replicate (ceil (offset + size) 32 - length m) 0),
  length-replicate {A = ℕ} (ceil (offset + size) 32 - length m) 0,
)

length-write_loop :
    (rounds i offset : ℕ) (value : List ℕ) (m : Memory)
    → length (write_loop rounds i offset value m) ≡ length m
unfolding write_loop
length-write_loop zero i offset value m = refl
length-write_loop (suc rounds) i offset value m = omega (
  arith,
  length-write_loop rounds (i + 1) offset value (set m (offset + i) (get_or value i 0)),
  length-set m (offset + i) (get_or value i 0),
)

byte-write_loop :
    (rounds i offset : ℕ) (value : List ℕ) (m : Memory) (j : ℕ)
    → offset + i + rounds ≤ length m
    → byte (write_loop rounds i offset value m) j ≡ (
        if leb (offset + i) j && ltb j (offset + i + rounds)
        then byte value (j - offset)
        else byte m j)
unfolding write_loop
byte-write_loop zero i offset value m j h = ground arith
byte-write_loop (suc rounds) i offset value m j h = ground (
  arith,
  byte-write_loop rounds (i + 1) offset value (set m (offset + i) (get_or value i 0)) j
      (omega (arith, length-set m (offset + i) (get_or value i 0))),
  get_or-set m (offset + i) j (get_or value i 0) 0 (omega arith),
  index,
)
  where
    index : j ≡ offset + i → get_or value (j - offset) 0 ≡ get_or value i 0
    index e = let k : j - offset ≡ i = omega arith in rw k

-- On a memory of whole words, `write` of a value of the given size succeeds, stores the value at
-- the offset, leaves every other byte as it was and the memory in whole words, no shorter.
pub write_lem :
    (offset size j : ℕ) (value : List ℕ) (m : Memory)
    → length value ≡ size
    → length m % 32 ≡ 0
    → (t : Memory) × (write offset size value m ≡ ok t)
      × (length t % 32 ≡ 0)
      × (length m ≤ length t)
      × (byte t j
          ≡ (if leb offset j && ltb j (offset + size) then byte value (j - offset) else byte m j))
unfolding write
write_lem offset zero j value m l words = (m, refl, words, ground arith, ground arith)
write_lem offset (suc n) j value m l words =
    let e = extend offset (suc n) m in
    let long : length (write_loop (suc n) 0 offset value e) ≡ length e =
      length-write_loop (suc n) 0 offset value e in
    let covers : offset + suc n ≤ length e = extend_room offset (suc n) m (omega arith) in
    let grown = extend_lem offset (suc n) j m words in
    (
      write_loop (suc n) 0 offset value e,
      rw (suc_ne_zero n, (==_iff (length value) (suc n)).1 l, le→leb (offset + suc n) _ covers),
      omega (arith, long, grown.0),
      omega (arith, long, grown.1),
      ground (arith, byte-write_loop (suc n) 0 offset value e j (omega arith), grown.2),
    )

-- On a memory of whole words, `read` of at least one byte gives `size` bytes, which are those of the
-- memory from the offset on, and leaves the memory with the same bytes.
pub read_lem :
    (offset size i j : ℕ) (m : Memory)
    → length m % 32 ≡ 0
    → i < size
    → (length (read offset size m).0 ≡ size)
      × (byte (read offset size m).0 i ≡ byte m (offset + i))
      × (byte (read offset size m).1 j ≡ byte m j)
unfolding read
read_lem offset size i j m words h =
    let e = extend offset size m in
    let covers : offset + size ≤ length e = extend_room offset size m (omega arith) in
    let same = extend_lem offset size (offset + i) m words in
    let loaded : length (slice e offset (offset + size)) ≡ size =
      omega (arith, length-take (offset + size - offset) (drop offset e), length-drop offset e) in
    rw (ltb-false (length (slice e offset (offset + size))) size (omega arith)) (
      loaded,
      ground (
        arith,
        get_or-take (offset + size - offset) (drop offset e) i 0,
        get_or-drop offset e i 0,
        same.2,
      ),
      (extend_lem offset size j m words).2,
    )

-- A range inside the memory needs no extension.
extend_inside :
    (offset size : ℕ) (m : Memory)
    → offset + size ≤ length m
    → length m % 32 ≡ 0
    → extend offset size m ≡ m
unfolding extend
extend_inside offset size m covers words = ground (arith, ceil_lem (offset + size))

read-memory :
    (offset size : ℕ) (m : Memory)
    → offset + size ≤ length m
    → length m % 32 ≡ 0
    → (read offset size m).1 ≡ m
unfolding read
read-memory = extend_inside

write_covers :
    (offset size : ℕ) (value : List ℕ) (m : Memory) {t : Memory}
    → 0 < size
    → write offset size value m ≡ ok t
    → offset + size ≤ length t
unfolding write
write_covers offset size value m some_bytes e = ground (
  arith,
  extend_room offset size m some_bytes,
  length-write_loop size 0 offset value (extend offset size m),
)

-- On a memory of whole words, writing at least one byte succeeds, and reading back the range just
-- written gives the bytes written and leaves the memory unchanged.
pub read-write :
    (offset : ℕ) (value : List ℕ) (m : Memory)
    → 0 < length value
    → length m % 32 ≡ 0
    → (t : Memory) × (write offset (length value) value m ≡ ok t)
      × (read offset (length value) t ≡ (value, t))
read-write offset value m some_bytes words =
    let (t, wrote, t_words, _, _) = write_lem offset (length value) 0 value m refl words in
    let covers : offset + length value ≤ length t =
      write_covers offset (length value) value m some_bytes wrote in
    (
      t,
      wrote,
      read_inside offset value t covers t_words
          (read_lem offset (length value) 0 0 t t_words some_bytes).0
          λ i h. (read_lem offset (length value) i 0 t t_words h).1 ∙ stored t wrote i h,
    )
  where
    stored :
        (t : Memory)
        → write offset (length value) value m ≡ ok t
        → (i : ℕ) → i < length value
        → byte t (offset + i) ≡ byte value i
    stored t wrote i h =
        let (t', wrote', _, _, at_i) =
          write_lem offset (length value) (offset + i) value m refl words in
        let same : t ≡ t' = ok-injective t t' (sym wrote ∙ wrote') in
        let k : offset + i - offset ≡ i = omega arith in
        let found : byte t' (offset + i) ≡ byte value (offset + i - offset) =
          ground (arith, at_i) in
        ap (λ m. byte m (offset + i)) same ∙ found ∙ ap (byte value) k

    read_inside :
        (offset : ℕ) (value : List ℕ) (t : Memory)
        → offset + length value ≤ length t
        → length t % 32 ≡ 0
        → length (read offset (length value) t).0 ≡ length value
        → ((i : ℕ) → i < length value → byte (read offset (length value) t).0 i ≡ byte value i)
        → read offset (length value) t ≡ (value, t)
    read_inside offset value t covers words l h =
        ap₂ (λ bytes m. (bytes, m))
          (list_ext (read offset (length value) t).0 value 0 l (λ i p. h i (omega arith)))
          (read-memory offset (length value) t covers words)
