-- ===== src/Trie/CheckpointDb/Maps.antt =====
-- What the maps of changes of packages/trie/src/checkpointDb.ts show.
use moola_fix.Common.{
  ℕ, ◌≡◌, refl, ◌∙◌, inl, inr, Option, none, some, [], ◌∷◌, ◌==◌, Bool-cases, ==_iff,
}
use moola_fix.Common.Assoc.{
  Assoc, lookup, insert, lookup-insert, IsMap, insert-IsMap, lookup-missing,
}
use moola_fix.Trie.CheckpointDb.{dump, batch_ops}
use moola_fix.Trie.CheckpointDb.Abstract.{View, update, apply_ops}

module _ {V : Type 0} where
  -- What a map of changes has for a key, and else what lies below it.
  abbrev pub over : Option (Option V) → Option V → Option V
  over (some v) below = v
  over none below = below

  unfoldable pub either : Option (Option V) → Option (Option V) → Option (Option V)
  either (some v) below = some v
  either none below = below

  pub lookup-dump :
      (map current : Assoc (Option V)) (k : ℕ)
      → IsMap map
      → lookup k (dump map current) ≡ either (lookup k map) (lookup k current)
  unfolding dump either
  lookup-dump [] current k h = refl
  lookup-dump ((j, v) ∷ map) current k h = elim (Bool-cases (j == k)) [
    | inl same ↦
        let gone : lookup k map ≡ none = lookup-missing k map (rw ((==_iff j k).0 same) at h.0) in
        rw same (
          lookup-dump map (insert j v current) k h.1
          ∙ rw (gone, either) (lookup-insert j k v current ∙ rw same))
    | inr other ↦
        rw other
          (lookup-dump map (insert j v current) k h.1 ∙ rw (lookup-insert j k v current, other))
  ]

  pub dump-IsMap : (map current : Assoc (Option V)) → IsMap current → IsMap (dump map current)
  unfolding dump
  dump-IsMap [] current h = h
  dump-IsMap ((j, v) ∷ map) current h =
      dump-IsMap map (insert j v current) (insert-IsMap j v current h)

  -- What the rest of a map of changes makes of a change before it.
  over-cons :
      (j k : ℕ) (v : Option V) (map : Assoc (Option V)) (view : View V)
      → IsMap ((j, v) ∷ map)
      → over (lookup k map) (update j v view k) ≡ over (lookup k ((j, v) ∷ map)) (view k)
  over-cons j k v map view h = elim (Bool-cases (j == k)) [
    | inl same ↦
        let gone : lookup k map ≡ none = lookup-missing k map (rw ((==_iff j k).0 same) at h.0) in
        rw (same, gone) refl
    | inr other ↦ rw other refl
  ]

  -- The batch that a commit writes has the effect of its map.
  pub apply_ops-batch_ops :
      (map : Assoc (Option V)) (view : View V) (k : ℕ)
      → IsMap map
      → apply_ops (batch_ops map) view k ≡ over (lookup k map) (view k)
  unfolding batch_ops
  apply_ops-batch_ops [] view k h = refl
  apply_ops-batch_ops ((j, none) ∷ map) view k h =
      apply_ops-batch_ops map (update j none view) k h.1 ∙ over-cons j k none map view h
  apply_ops-batch_ops ((j, some v) ∷ map) view k h =
      apply_ops-batch_ops map (update j (some v) view) k h.1 ∙ over-cons j k (some v) map view h

  -- A map dumped into the map below it shows what the two show together.
  pub over-dump :
      (map current : Assoc (Option V)) (k : ℕ) (below : Option (Option V)) (v : Option V)
      → IsMap map
      → over (elim (lookup k (dump map current)) [ some w ↦ some w | none ↦ below ]) v
        ≡ over
            (elim (lookup k map) [
              | some w ↦ some w
              | none ↦ elim (lookup k current) [ some w ↦ some w | none ↦ below ]
            ])
            v
  unfolding either
  over-dump map current k below v h =
      rw (lookup-dump map current k h) (cases (lookup k map) (lookup k current))
    where
      cases :
          (a b : Option (Option V))
          → over (elim (either a b) [ some w ↦ some w | none ↦ below ]) v
            ≡ over (elim a [ some w ↦ some w | none ↦ elim b [ some w ↦ some w | none ↦ below ] ]) v
      cases (some w) b = refl
      cases none b = refl
