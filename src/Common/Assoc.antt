-- ===== src/Common/Assoc.antt =====
-- A JavaScript `Map` as an association list in insertion order, keyed by numbers: a key that the
-- program writes as a hexadecimal string stands for the number that it spells.
use Prim.Native.Nat.{ℕ}
use mathlib.Core.Path.{◌≡◌, refl}
use mathlib.Core.Logic.{inl, inr}
use mathlib.Core.Bool.{Bool, true, false, ◌||◌}
use mathlib.Core.Option.{Option, none, some}
use mathlib.Core.List.{List, [], ◌∷◌}
use native.Mathlib.Omega.{arith}
use moola_fix.Common.Tests.{Bool-cases, ◌==◌, if◌then◌else◌}

abbrev pub Assoc {ℓ} : Type ℓ → Type ℓ
Assoc V = List (ℕ × V)

module _ {ℓ} {V : Type ℓ} where
  -- `map.get(k)`
  abbrev pub lookup : ℕ → Assoc V → Option V
  lookup k [] = none
  lookup k ((j, v) ∷ m) = if j == k then some v else lookup k m

  -- `map.has(k)`
  abbrev pub has : ℕ → Assoc V → Bool
  has k [] = false
  has k ((j, v) ∷ m) = (j == k) || has k m

  -- `map.set(k, v)`
  abbrev pub insert : ℕ → V → Assoc V → Assoc V
  insert k v [] = (k, v) ∷ []
  insert k v ((j, w) ∷ m) = if j == k then (j, v) ∷ m else (j, w) ∷ insert k v m

  pub lookup-insert :
      (k j : ℕ) (v : V) (m : Assoc V)
      → lookup j (insert k v m) ≡ (if k == j then some v else lookup j m)
  lookup-insert k j v [] = refl
  lookup-insert k j v ((i, w) ∷ m) = ground (arith, lookup-insert k j v m)

  pub has-insert : (k j : ℕ) (v : V) (m : Assoc V) → has j (insert k v m) ≡ ((k == j) || has j m)
  has-insert k j v [] = refl
  has-insert k j v ((i, w) ∷ m) = ground (arith, has-insert k j v m)

  pub has-lookup : (k : ℕ) (m : Assoc V) → has k m ≡ true → (v : V) × (lookup k m ≡ some v)
  has-lookup k [] h = cc
  has-lookup k ((j, v) ∷ m) h = elim (Bool-cases (j == k)) [
    | inl e ↦ (v, rw e)
    | inr ne ↦ rw ne (has-lookup k m (rw ne at h))
  ]

  pub lookup-has : (k : ℕ) (v : V) (m : Assoc V) → lookup k m ≡ some v → has k m ≡ true
  lookup-has k v [] h = cc
  lookup-has k v ((j, w) ∷ m) h = ground (arith, lookup-has k v m)

  -- A map has one entry for a key.
  abbrev pub IsMap : Assoc V → Type 0
  IsMap [] = Unit
  IsMap ((j, v) ∷ m) = (has j m ≡ false) × IsMap m

  pub insert-IsMap : (k : ℕ) (v : V) (m : Assoc V) → IsMap m → IsMap (insert k v m)
  insert-IsMap k v [] h = (refl, tt)
  insert-IsMap k v ((j, w) ∷ m) h = elim (Bool-cases (j == k)) [
    | inl same ↦ rw same h
    | inr other ↦ rw other (ground (arith, has-insert k j v m, other, h.0), insert-IsMap k v m h.1)
  ]

  pub lookup-missing : (k : ℕ) (m : Assoc V) → has k m ≡ false → lookup k m ≡ none
  lookup-missing k [] h = refl
  lookup-missing k ((j, v) ∷ m) h = elim (Bool-cases (j == k)) [
    | inl same ↦ absurd (ground (arith, same, h))
    | inr other ↦ rw other (lookup-missing k m (rw other at h))
  ]
