-- ===== src/Prelude/Outcome.antt =====
-- Rust's `Result` with `?` as a do block.
use mathlib.Core.Path.{◌≡◌, refl}
use mathlib.Core.Logic.{◌⊎◌, inl, inr}
use mathlib.Core.Bool.{Bool, true, false}
use mathlib.Core.Option.{Option, none, some}

pub data Result {ℓ κ} (A : Type ℓ) (E : Type κ) : Type (ℓ ⊔ κ) where
  ok : A → Result A E
  err : E → Result A E

infixl 5 ◌>>=◌ ◌>>◌
abbrev pub ◌>>=◌ {ℓ κ μ} :
    {A : Type ℓ} {B : Type κ} {E : Type μ} → Result A E → (A → Result B E) → Result B E
ok a >>= f = f a
err e >>= f = err e

abbrev pub ◌>>◌ {κ μ} : {B : Type κ} {E : Type μ} → Result (Unit {0}) E → Result B E → Result B E
m >> k = m >>= λ _. k

-- `if !b { return Err(e) }`
abbrev pub guard {μ} : {E : Type μ} → Bool → E → Result (Unit {0}) E
guard true e = ok tt
guard false e = err e

-- `option.ok_or(e)`
abbrev pub ok_or {ℓ μ} : {A : Type ℓ} {E : Type μ} → Option A → E → Result A E
ok_or none e = err e
ok_or (some a) e = ok a

-- `result.map_err(f)`
abbrev pub map_err {ℓ κ μ} :
    {A : Type ℓ} {E : Type κ} {F : Type μ} → (E → F) → Result A E → Result A F
map_err f (ok a) = ok a
map_err f (err e) = err (f e)

pub ok_injective {ℓ κ} :
    {A : Type ℓ} {E : Type κ} {a b : A} → ◌≡◌ {A = Result A E} (ok a) (ok b) → a ≡ b
ok_injective h = cc

-- Inversion of a successful bind.
pub >>=-eq-ok {ℓ κ μ} :
    {A : Type ℓ} {B : Type κ} {E : Type μ} (first : Result A E) (rest : A → Result B E) {c : B}
    → (first >>= rest) ≡ ok c
    → (value : A) × (first ≡ ok value) × (rest value ≡ ok c)
>>=-eq-ok (err e) rest bound = cc
>>=-eq-ok (ok value) rest bound = (value, refl, bound)

pub Result-cases {ℓ κ} :
    {A : Type ℓ} {E : Type κ} (r : Result A E) → ((a : A) × (r ≡ ok a)) ⊎ ((e : E) × (r ≡ err e))
Result-cases (ok a) = inl (a, refl)
Result-cases (err e) = inr (e, refl)
