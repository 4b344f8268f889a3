-- ===== src/Base/Results.antt =====
-- `outcome::result`: a value or an error, and postconditions on it.
use mathlib.Core.Path.{◌≡◌, refl, subst}
use mathlib.Core.Bool.{Bool, true, false}
use bittorrent_client.Base.Tests.{if◌then◌else◌}

pub data Result {ℓ κ} (E : Type κ) (A : Type ℓ) : Type (ℓ ⊔ κ) where
  ok : A → Result E A
  err : E → Result E A

-- OUTCOME_TRY.
infixl 5 ◌>>=◌ ◌>>◌
abbrev pub ◌>>=◌ {ℓ κ ι} :
    {E : Type ι} {A : Type ℓ} {B : Type κ} → Result E A → (A → Result E B) → Result E B
ok a >>= f = f a
err e >>= f = err e

abbrev pub ◌>>◌ {ℓ ι} : {E : Type ι} {B : Type ℓ} → Result E (Unit {0}) → Result E B → Result E B
m >> k = m >>= λ _. k

abbrev pub guard {ι} : {E : Type ι} → Bool → E → Result E (Unit {0})
guard true e = ok tt
guard false e = err e

-- `P` holds of the value, or `Q` of the error.
pub data Ensures {ℓ κ ι μ} {E : Type κ} {A : Type ℓ} (Q : E → Type ι) (P : A → Type μ)
    : Result E A → Type (ℓ ⊔ κ ⊔ ι ⊔ μ) where
  holds : {a : A} → P a → Ensures Q P (ok a)
  rejected : {e : E} → Q e → Ensures Q P (err e)

module _ {ℓ κ ι μ} {E : Type κ} {A : Type ℓ} {Q : E → Type ι} {P : A → Type μ} where
  pub Ensures-ok : {r : Result E A} {a : A} → Ensures Q P r → r ≡ ok a → P a
  Ensures-ok (holds h) e = subst P (cc) h
  Ensures-ok (rejected h) e = cc

  pub Ensures-err : {r : Result E A} {x : E} → Ensures Q P r → r ≡ err x → Q x
  Ensures-err (holds h) e = cc
  Ensures-err (rejected h) e = subst Q (cc) h

  pub Ensures-if :
      (b : Bool) {x y : Result E A}
      → (b ≡ true → Ensures Q P x)
      → (b ≡ false → Ensures Q P y)
      → Ensures Q P (if b then x else y)
  Ensures-if true hx hy = hx refl
  Ensures-if false hx hy = hy refl

  pub Ensures-bind {ℓ' μ'} :
      {B : Type ℓ'} {P' : B → Type μ'} {r : Result E A} {f : A → Result E B}
      → Ensures Q P r
      → ((a : A) → P a → Ensures Q P' (f a))
      → Ensures Q P' (r >>= f)
  Ensures-bind (holds {a} h) k = k a h
  Ensures-bind (rejected h) k = rejected h

  pub Ensures-mono {ν} :
      {P' : A → Type ν} {r : Result E A} → Ensures Q P r → ((a : A) → P a → P' a) → Ensures Q P' r
  Ensures-mono (holds {a} h) k = holds (k a h)
  Ensures-mono (rejected h) k = rejected h
