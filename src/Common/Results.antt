-- ===== src/Common/Results.antt =====
-- Results with an error, and their `do` notation. A `throw` is an `err`.
use mathlib.Core.Path.{◌≡◌, refl}
use mathlib.Core.Logic.{◌⊎◌, inl, inr}
use mathlib.Core.Bool.{Bool, true, false}

pub data Result {ℓ} (E : Type 0) (A : Type ℓ) : Type ℓ where
  ok : A → Result E A
  err : E → Result E A

infixl 5 ◌>>=◌ ◌>>◌
abbrev pub ◌>>=◌ {ℓ κ} :
    {E : Type 0} {A : Type ℓ} {B : Type κ} → Result E A → (A → Result E B) → Result E B
err failure >>= next = err failure
ok result >>= next = next result

abbrev pub ◌>>◌ {ℓ} : {E : Type 0} {B : Type ℓ} → Result E (Unit {0}) → Result E B → Result E B
first >> second = first >>= λ _. second

-- `if (c) throw e`
abbrev pub throw_if : {E : Type 0} → Bool → E → Result E (Unit {0})
throw_if true e = err e
throw_if false e = ok tt

-- What has succeeded after a first step has succeeded in that step.
pub >>=-eq-ok {ℓ κ} :
    {E : Type 0} {A : Type ℓ} {B : Type κ} (first : Result E A) (next : A → Result E B) {last : B}
    → (first >>= next) ≡ ok last
    → (result : A) × (first ≡ ok result) × (next result ≡ ok last)
>>=-eq-ok (err failure) next done = cc
>>=-eq-ok (ok result) next done = (result, refl, done)

pub err_not_ok {ℓ} :
    {E : Type 0} {A : Type ℓ} {e : E} {a : A} → ¬ (◌≡◌ {A = Result E A} (err e) (ok a))
err_not_ok h = cc

pub ok-injective {ℓ} :
    {E : Type 0} {A : Type ℓ} (a b : A) → ◌≡◌ {A = Result E A} (ok a) (ok b) → a ≡ b
ok-injective a b h = cc

pub err-injective {ℓ} :
    {E : Type 0} {A : Type ℓ} (d e : E) → ◌≡◌ {A = Result E A} (err d) (err e) → d ≡ e
err-injective d e h = cc

pub Result-cases {ℓ} :
    {E : Type 0} {A : Type ℓ} (r : Result E A) → ((a : A) × (r ≡ ok a)) ⊎ ((e : E) × (r ≡ err e))
Result-cases (ok a) = inl (a, refl)
Result-cases (err e) = inr (e, refl)

-- A check that does not throw has passed.
pub throw_if-skips {ℓ} :
    {E : Type 0} {B : Type ℓ} (c : Bool) (e : E) (next : Result E B) {last : B}
    → (throw_if c e >> next) ≡ ok last
    → (c ≡ false) × (next ≡ ok last)
throw_if-skips true e next h = absurd (err_not_ok h)
throw_if-skips false e next h = (refl, h)
