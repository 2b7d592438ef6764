-- ===== src/Prelude/Results.antt =====
-- Code that raises returns a `Result`, whose error is the exception's class.
use mathlib.Core.Path.{◌≡◌, refl}
use mathlib.Core.Bool.{Bool, true, false}
use mathlib.Core.Option.{Option, none, some}

pub data Result {ℓ κ} (E : Type ℓ) (A : Type κ) : Type (ℓ ⊔ κ) where
  ok : A → Result E A
  err : E → Result E A

infixl 5 ◌>>=◌ ◌>>◌
abbrev pub ◌>>=◌ {ℓ κ μ} :
    {E : Type ℓ} {A : Type κ} {B : Type μ} → Result E A → (A → Result E B) → Result E B
ok a >>= f = f a
err e >>= f = err e

abbrev pub ◌>>◌ {ℓ μ} : {E : Type ℓ} {B : Type μ} → Result E (Unit {0}) → Result E B → Result E B
m >> k = m >>= λ _. k

-- `if not test: raise e`
abbrev pub guard {ℓ} : {E : Type ℓ} → Bool → E → Result E (Unit {0})
guard true e = ok tt
guard false e = err e

abbrev pub or_raise {ℓ κ} : {E : Type ℓ} {A : Type κ} → Option A → E → Result E A
or_raise none e = err e
or_raise (some a) e = ok a

-- Inversion of a chain that succeeds, each step in the style of an eliminator.
module _ {ℓ κ μ ν} {E : Type ℓ} {A : Type κ} {B : Type μ} {G : Type ν} where
  pub from_some :
      (o : Option A) (e : E) (f : A → Result E B) {b : B}
      → (or_raise o e >>= f) ≡ ok b
      → ((a : A) → o ≡ some a → f a ≡ ok b → G)
      → G
  from_some none e f h k = absurd (cc)
  from_some (some a) e f h k = k a refl h

  pub from_ok :
      (m : Result E A) (f : A → Result E B) {b : B}
      → (m >>= f) ≡ ok b
      → ((a : A) → m ≡ ok a → f a ≡ ok b → G)
      → G
  from_ok (ok a) f h k = k a refl h
  from_ok (err e) f h k = absurd (cc)

module _ {ℓ μ ν} {E : Type ℓ} {B : Type μ} {G : Type ν} where
  pub from_guard :
      (t : Bool) (e : E) (m : Result E B) {b : B}
      → (guard t e >> m) ≡ ok b
      → (t ≡ true → m ≡ ok b → G)
      → G
  from_guard true e m h k = k refl h
  from_guard false e m h k = absurd (cc)

pub ok-injective {ℓ κ} :
    {E : Type ℓ} {A : Type κ} {a b : A} → ◌≡◌ {A = Result E A} (ok a) (ok b) → a ≡ b
ok-injective h = cc

abbrev pub is_ok {ℓ κ} : {E : Type ℓ} {A : Type κ} → Result E A → Bool
is_ok (ok a) = true
is_ok (err e) = false

-- What cannot succeed does not.
pub never_ok {ℓ κ} :
    {E : Type ℓ} {A : Type κ} (r : Result E A) → ((a : A) → r ≡ ok a → ⊥) → is_ok r ≡ false
never_ok (ok a) h = absurd (h a refl)
never_ok (err e) h = refl
