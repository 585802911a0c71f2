-- ===== src/State/TransientStorage/Journal.antt =====
-- Undoing the journal of transientStorage.ts brings back every value.
use moola_fix.Common.{
  ℕ, zero, suc, ◌+◌, ◌≡◌, refl, sym, ◌∙◌, inl, inr, Option, none, some, true, List, [], ◌∷◌, ◌++◌,
  ok, err, ◌>>=◌, ok-injective, >>=-eq-ok, Result-cases, arith, length, ◌==◌, if◌then◌else◌,
  Bool-cases, Option-cases, ==_iff,
}
use moola_fix.Common.Assoc.{
  Assoc, lookup, has, insert, lookup-insert, has-insert, has-lookup, lookup-has,
}
use moola_fix.State.TransientStorage.{
  Buffer, zero_word, Modification, TransientStorage, Error, slot_or_zero, map_of, put, undo,
  undo_all,
}

abbrev pub Storage : Type 0
Storage = Assoc (Assoc Buffer)

-- The value of a slot, as `get` finds it.
abbrev pub value_at : Storage → ℕ → ℕ → Buffer
value_at storage a k = elim (lookup a storage) [ none ↦ zero_word | some map ↦ slot_or_zero k map ]

-- Two storages that answer every `get` alike.
abbrev pub SameValues : Storage → Storage → Type 0
SameValues s t = (a k : ℕ) → value_at s a k ≡ value_at t a k

-- The value of every slot after one slot is set.
value_at-set :
    (s : Storage) (a k : ℕ) (v : Buffer) (b j : ℕ)
    → value_at (insert a (insert k v (map_of a s)) s) b j
      ≡ (if a == b then (if k == j then v else value_at s b j) else value_at s b j)
value_at-set s a k v b j = elim (Bool-cases (a == b)) [
  | inl same ↦
      let e : a ≡ b = (==_iff a b).0 same in
      rw (lookup-insert a b (insert k v (map_of a s)) s, same, value_at)
        (rw (← e) (set-in_map (lookup a s)))
  | inr other ↦ rw (lookup-insert a b (insert k v (map_of a s)) s, other, value_at)
]
  where
    set-in_map :
        (found : Option (Assoc Buffer))
        → slot_or_zero j (insert k v (elim found [ none ↦ [] | some map ↦ map ]))
          ≡ (if k == j then v else elim found [ none ↦ zero_word | some map ↦ slot_or_zero j map ])
    set-in_map none = ground arith
    set-in_map (some map) = ground (arith, lookup-insert k j v map)

-- The second storage has the values of the first, and a map for each address that the first has.
pub record Sim (s t : Storage) : Type 0 where
  pub values : SameValues s t
  pub maps : (a : ℕ) → has a s ≡ true → has a t ≡ true

pub Sim-refl : (s : Storage) → Sim s s
Sim-refl s = record { values = λ a k. refl; maps = λ a h. h }

pub Sim-trans : (s t u : Storage) → Sim s t → Sim t u → Sim s u
Sim-trans s t u h k = record {
  values = λ a j. h.values a j ∙ k.values a j;
  maps = λ a p. k.maps a (h.maps a p);
}

Sim-insert :
    (s t : Storage) (a k : ℕ) (v : Buffer)
    → Sim s t
    → Sim (insert a (insert k v (map_of a s)) s) (insert a (insert k v (map_of a t)) t)
Sim-insert s t a k v h = record {
  values = λ b j. ground (arith, value_at-set s a k v b j, value_at-set t a k v b j, h.values b j);
  maps = λ b. ground (
    arith,
    has-insert a b (insert k v (map_of a s)) s,
    has-insert a b (insert k v (map_of a t)) t,
    h.maps b,
  );
}

pub undo_lem :
    (m : Modification) (s : Storage)
    → has m.addr s ≡ true
    → undo m s ≡ ok (insert m.addr (insert m.key m.prev_value (map_of m.addr s)) s)
unfolding undo
undo_lem m s h = let (map, e) = has-lookup m.addr s h in rw (e, undo, map_of)

undo-has :
    (m : Modification) (s u : Storage)
    → undo m s ≡ ok u
    → (has m.addr s ≡ true) × (u ≡ insert m.addr (insert m.key m.prev_value (map_of m.addr s)) s)
unfolding undo
undo-has m s u e = elim (Option-cases (lookup m.addr s)) [
  | inl missing ↦ absurd (missing_fails (rw (missing, undo) at e))
  | inr (map, found) ↦ (
    lookup-has m.addr map s found,
    rw (found, map_of) (sym (ok-injective _ u (rw (found, undo) at e))),
  )
]
  where
    missing_fails : err Error.type_error ≡ ok u → ⊥
    missing_fails h = cc

undo-Sim :
    (m : Modification) (s t u : Storage)
    → Sim s t
    → undo m s ≡ ok u
    → (v : Storage) × (undo m t ≡ ok v) × Sim u v
undo-Sim m s t u h e =
    let (present, e') = undo-has m s u e in
    (
      insert m.addr (insert m.key m.prev_value (map_of m.addr t)) t,
      undo_lem m t (h.maps m.addr present),
      rw e' (Sim-insert s t m.addr m.key m.prev_value h),
    )

-- Undoing carries over to a storage with the same values.
pub undo_all-Sim :
    (n : ℕ) (journal : List Modification) (s t u : Storage)
    → Sim s t
    → undo_all n journal s ≡ ok u
    → (v : Storage) × (undo_all n journal t ≡ ok v) × Sim u v
unfolding undo_all
undo_all-Sim zero journal s t u h e = (t, refl, rw (← ok-injective s u e) h)
undo_all-Sim (suc n) [] s t u h e = absurd (cc)
undo_all-Sim (suc n) (m ∷ journal) s t u h e =
    let (s', one, others) = >>=-eq-ok (undo m s) (undo_all n journal) e in
    let (t', one', h') = undo-Sim m s t s' h one in
    rw one' (undo_all-Sim n journal s' t' u h' others)

-- Undoing the newest modifications and then the others.
pub undo_all-append :
    (js rest : List Modification) (k : ℕ) (s : Storage)
    → undo_all (length js + k) (js ++ rest) s
      ≡ (undo_all (length js) (js ++ rest) s >>= undo_all k rest)
unfolding undo_all
undo_all-append [] rest k s = let e : 0 + k ≡ k = omega arith in rw e
undo_all-append (m ∷ js) rest k s =
    let e : suc (length js) + k ≡ suc (length js + k) = omega arith in
    rw e (elim (Result-cases (undo m s)) [
      | inl (s', done) ↦ rw done (undo_all-append js rest k s')
      | inr (error, failed) ↦ rw failed
    ])

slot-map_of : (s : Storage) (a k : ℕ) → slot_or_zero k (map_of a s) ≡ value_at s a k
slot-map_of s a k = elim (Option-cases (lookup a s)) [
  | inl missing ↦ rw (missing, map_of, value_at)
  | inr (map, found) ↦ rw (found, map_of, value_at)
]

put-writes :
    (addr key key_len : ℕ) (value : Buffer) (s : TransientStorage) {t : TransientStorage}
    → put addr key key_len value s ≡ ok t
    → t ≡ record s {
      storage = insert addr (insert key value (map_of addr s.storage)) s.storage;
      journal =
          record { addr = addr; key = key; prev_value = slot_or_zero key (map_of addr s.storage) }
          ∷ s.journal;
    }
unfolding put
put-writes addr key key_len value s e = ground arith

-- Undoing the modification that `put` has put into the journal brings back every value.
pub undo-put :
    (addr key key_len : ℕ) (value : Buffer) (s : TransientStorage) {t : TransientStorage}
    → put addr key key_len value s ≡ ok t
    → (m : Modification) × (t.journal ≡ m ∷ s.journal)
      × (t.indices ≡ s.indices)
      × (u : Storage) × (undo m t.storage ≡ ok u)
      × Sim s.storage u
unfolding put
undo-put addr key key_len value s {t} e =
    let wrote = put-writes addr key key_len value s e in
    let after = insert addr (insert key value (map_of addr s.storage)) s.storage in
    let m : Modification = record {
      addr = addr;
      key = key;
      prev_value = slot_or_zero key (map_of addr s.storage);
    } in
    rw wrote (
      m,
      refl,
      refl,
      insert addr (insert key m.prev_value (map_of addr after)) after,
      undo_lem m after (
          ground
            (arith, has-insert addr addr (insert key value (map_of addr s.storage)) s.storage)),
      record {
        values = λ b j. ground (
          arith,
          value_at-set after addr key m.prev_value b j,
          value_at-set s.storage addr key value b j,
          slot-map_of s.storage addr key,
        );
        maps = λ b. ground (
          arith,
          has-insert addr b (insert key m.prev_value (map_of addr after)) after,
          has-insert addr b (insert key value (map_of addr s.storage)) s.storage,
        );
      },
    )
