-- ===== src/Prelude/Results.antt =====
-- The outcome of code that may throw or answer with an error.
use mathlib.Core.Path.{◌≡◌, refl}
use mathlib.Core.Bool.{Bool, true, false}
use mathlib.Core.Option.{Option, none, some}

pub data Result {ℓ} (E : Type 0) (A : Type ℓ) : Type ℓ where
  ok : A → Result E A
  err : E → Result E A

infixl 5 ◌>>=◌ ◌>>◌
abbrev pub ◌>>=◌ {ℓ κ} :
    {E : Type 0} {A : Type ℓ} {B : Type κ} → Result E A → (A → Result E B) → Result E B
ok a >>= f = f a
err e >>= f = err e

abbrev pub ◌>>◌ {ℓ κ} :
    {E : Type 0} {A : Type ℓ} {B : Type κ} → Result E A → Result E B → Result E B
m >> k = m >>= λ _. k

-- `if (!test) throw e`
abbrev pub guard : {E : Type 0} → Bool → E → Result E (Unit {0})
guard true e = ok tt
guard false e = err e

-- The value that is there, or the error.
abbrev pub found {κ} : {E : Type 0} {A : Type κ} → E → Option A → Result E A
found e none = err e
found e (some a) = ok a

-- A predicate of a chain: of its error, and of what follows each check that passes.
module _ {ℓ μ} {E : Type 0} {B : Type ℓ} (P : Result E B → Type μ) where
  pub guard_split :
      (b : Bool) (e : E) (m : Result E B) → P (err e) → (b ≡ true → P m) → P (guard b e >> m)
  guard_split true e m f t = t refl
  guard_split false e m f t = f

  pub found_split {κ} :
      {A : Type κ} (o : Option A) (e : E) (f : A → Result E B)
      → P (err e)
      → ((a : A) → o ≡ some a → P (f a))
      → P (found e o >>= f)
  found_split none e f n s = n
  found_split (some a) e f n s = s a refl

  pub chain_split {κ} :
      {A : Type κ} (m : Result E A) (f : A → Result E B)
      → ((e : E) → m ≡ err e → P (err e))
      → ((a : A) → m ≡ ok a → P (f a))
      → P (m >>= f)
  chain_split (ok a) f n s = s a refl
  chain_split (err e) f n s = n e refl
