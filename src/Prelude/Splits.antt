-- ===== src/Prelude/Splits.antt =====
-- To prove a predicate of a value that branches, one premise for each branch.
use mathlib.Core.Path.{◌≡◌, refl}
use mathlib.Core.Logic.{◌⊎◌, inl, inr}
use mathlib.Core.Bool.{Bool, true, false}
use mathlib.Core.Option.{Option, none, some}
use mathlib.Core.List.{List, [], ◌∷◌}
use nova_connect.Prelude.Tests.{if◌then◌else◌}
use nova_connect.Prelude.Classes.{Eq}
use nova_connect.Prelude.Maps.{Map, lookup, has}

pub if_split {κ μ} :
    {B : Type κ} (P : B → Type μ) (b : Bool) {x y : B}
    → (b ≡ true → P x)
    → (b ≡ false → P y)
    → P (if b then x else y)
if_split P true t f = t refl
if_split P false t f = f refl

module _ {ℓ κ μ} {A : Type ℓ} {B : Type κ} (P : B → Type μ) where
  pub option_split :
      (o : Option A) {n : B} {f : A → B}
      → (o ≡ none → P n)
      → ((a : A) → o ≡ some a → P (f a))
      → P (elim o [ none ↦ n | some a ↦ f a ])
  option_split none n s = n refl
  option_split (some a) n s = s a refl

  pub list_split :
      (l : List A) {n : B} {f : A → List A → B}
      → (l ≡ [] → P n)
      → ((x : A) (r : List A) → l ≡ x ∷ r → P (f x r))
      → P (elim l [ [] ↦ n | x ∷ r ↦ f x r ])
  list_split [] n s = n refl
  list_split (x ∷ r) n s = s x r refl

pub List-cases {ℓ} : {A : Type ℓ} (l : List A) → (l ≡ []) ⊎ ((x : A) × (r : List A) × (l ≡ x ∷ r))
List-cases [] = inl refl
List-cases (x ∷ r) = inr (x, r, refl)

module _ {ℓ κ} {K : Type ℓ} {V : Type κ} ⦃e : Eq K⦄ where
  pub has-lookup : (k : K) (m : Map K V) → has k m ≡ true → (v : V) × (lookup k m ≡ some v)
  has-lookup k m h = go (lookup k m) refl h
    where
      go :
          (o : Option V)
          → lookup k m ≡ o
          → (elim o [ none ↦ false | some _ ↦ true ]) ≡ true
          → (v : V) × (lookup k m ≡ some v)
      go none l h = cc
      go (some v) l h = (v, l)
