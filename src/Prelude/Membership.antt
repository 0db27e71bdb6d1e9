-- ===== src/Prelude/Membership.antt =====
-- The elements of a list, by clauses, and what `filter`, `slice`, `map` and `some` do to them.
use Prim.Native.Nat.{ℕ, zero, suc, ◌≤◌, ◌<◌}
use mathlib.Core.Path.{◌≡◌, refl, ap, subst}
use mathlib.Core.Logic.{◌⊎◌, inl, inr}
use mathlib.Core.Bool.{Bool, true, false}
use mathlib.Core.List.{List, [], ◌∷◌, ◌++◌, map}
use mathlib.Core.Option.{some}
use native.Mathlib.Omega.{arith}
use nova_connect.Prelude.Tests.{Bool-cases}
use nova_connect.Prelude.Lists.{any, keep, find, take, length, length-keep-le}

module _ {A : Type 0} where
  abbrev pub In : A → List A → Type 0
  In x [] = ⊥
  In x (y ∷ ys) = (x ≡ y) ⊎ In x ys

  pub In-keep : (p : A → Bool) (x : A) (xs : List A) → In x xs → p x ≡ true → In x (keep p xs)
  In-keep p x [] i h = i
  In-keep p x (y ∷ ys) i h = ground (arith, i, ap p, In-keep p x ys)

  pub In-keep_in : (p : A → Bool) (x : A) (xs : List A) → In x (keep p xs) → In x xs
  In-keep_in p x [] i = i
  In-keep_in p x (y ∷ ys) i = ground (arith, i, In-keep_in p x ys)

  pub In-keep_holds : (p : A → Bool) (x : A) (xs : List A) → In x (keep p xs) → p x ≡ true
  In-keep_holds p x [] i = absurd i
  In-keep_holds p x (y ∷ ys) i = ground (arith, i, ap p, In-keep_holds p x ys)

  pub In-take : (n : ℕ) (x : A) (xs : List A) → In x (take n xs) → In x xs
  In-take zero x xs i = absurd i
  In-take (suc n) x [] i = absurd i
  In-take (suc n) x (y ∷ ys) i = ground (arith, i, In-take n x ys)

  pub any-In : (p : A → Bool) (x : A) (xs : List A) → In x xs → p x ≡ true → any p xs ≡ true
  any-In p x [] i h = absurd i
  any-In p x (y ∷ ys) i h = ground (arith, i, ap p, any-In p x ys)

  pub any-found : (p : A → Bool) (xs : List A) → any p xs ≡ true → (x : A) × In x xs × (p x ≡ true)
  any-found p [] h = cc
  any-found p (x ∷ xs) h = elim (Bool-cases (p x)) [
    | inl e ↦ (x, inl refl, e)
    | inr e ↦ let r = any-found p xs (ground (arith, h, e)) in (r.0, inr r.1, r.2)
  ]

  pub length-keep-lt :
      (p : A → Bool) (x : A) (xs : List A) → In x xs → p x ≡ false → length (keep p xs) < length xs
  length-keep-lt p x [] i h = absurd i
  length-keep-lt p x (y ∷ ys) i h =
      ground (arith, i, ap p, length-keep-le p ys, length-keep-lt p x ys)

module _ {A B : Type 0} where
  pub In-map : (f : A → B) (x : A) (xs : List A) → In x xs → In (f x) (map f xs)
  In-map f x [] i = absurd i
  In-map f x (y ∷ ys) i = ground (arith, i, ap f, In-map f x ys)

  pub In-map_from :
      (f : A → B) (y : B) (xs : List A) → In y (map f xs) → (x : A) × In x xs × (y ≡ f x)
  In-map_from f y [] i = absurd i
  In-map_from f y (x ∷ xs) (inl e) = (x, inl refl, e)
  In-map_from f y (x ∷ xs) (inr i) = let r = In-map_from f y xs i in (r.0, inr r.1, r.2)

module _ {A : Type 0} where
  pub keep_none : (p : A → Bool) (x : A) (xs : List A) → keep p xs ≡ [] → In x xs → p x ≡ false
  keep_none p x xs e i = elim (Bool-cases (p x)) [
    | inl h ↦ absurd (subst (In x) e (In-keep p x xs i h))
    | inr h ↦ h
  ]

  pub take_none : (n : ℕ) (xs : List A) → take (suc n) xs ≡ [] → xs ≡ []
  take_none n [] e = refl
  take_none n (x ∷ xs) e = cc

  pub take_short : (n : ℕ) (xs : List A) → length (take n xs) < n → take n xs ≡ xs
  take_short zero xs h = absurd (omega (arith, h))
  take_short (suc n) [] h = refl
  take_short (suc n) (x ∷ xs) h = ap (λ r. x ∷ r) (take_short n xs (omega (arith, h)))

  -- A map that keeps the test can only take elements out of what is kept, and takes `x` out.
  pub length-keep-map_le :
      (p : A → Bool) (f : A → A) (xs : List A)
      → ((y : A) → p y ≡ false → p (f y) ≡ false)
      → length (keep p (map f xs)) ≤ length (keep p xs)
  length-keep-map_le p f [] c = omega arith
  length-keep-map_le p f (y ∷ ys) c = ground (arith, c y, length-keep-map_le p f ys c)

  pub length-keep-map_lt :
      (p : A → Bool) (f : A → A) (x : A) (xs : List A)
      → ((y : A) → p y ≡ false → p (f y) ≡ false)
      → In x xs
      → p x ≡ true
      → p (f x) ≡ false
      → length (keep p (map f xs)) < length (keep p xs)
  length-keep-map_lt p f x [] c i h k = absurd i
  length-keep-map_lt p f x (y ∷ ys) c (inl e) h k =
      ground (arith, ap p e, ap (λ z. p (f z)) e, length-keep-map_le p f ys c)
  length-keep-map_lt p f x (y ∷ ys) c (inr i) h k =
      ground (arith, c y, length-keep-map_lt p f x ys c i h k)

  pub any-map :
      (p : A → Bool) (f : A → A) (xs : List A)
      → ((y : A) → p (f y) ≡ p y)
      → any p (map f xs) ≡ any p xs
  any-map p f [] c = refl
  any-map p f (y ∷ ys) c = ground (arith, c y, any-map p f ys c)

  pub In-append_left : (x : A) (xs ys : List A) → In x xs → In x (xs ++ ys)
  In-append_left x [] ys i = absurd i
  In-append_left x (y ∷ xs) ys i = ground (arith, i, In-append_left x xs ys)

  pub In-append_right : (x : A) (xs ys : List A) → In x ys → In x (xs ++ ys)
  In-append_right x [] ys i = i
  In-append_right x (y ∷ xs) ys i = inr (In-append_right x xs ys i)

  pub In-append_cases : (x : A) (xs ys : List A) → In x (xs ++ ys) → In x xs ⊎ In x ys
  In-append_cases x [] ys i = inr i
  In-append_cases x (y ∷ xs) ys (inl e) = inl (inl e)
  In-append_cases x (y ∷ xs) ys (inr i) = elim (In-append_cases x xs ys i) [
    | inl j ↦ inl (inr j)
    | inr j ↦ inr j
  ]

  pub In-append_last : (x : A) (xs : List A) → In x (xs ++ x ∷ [])
  In-append_last x [] = inl refl
  In-append_last x (y ∷ xs) = inr (In-append_last x xs)

  pub In-append_either : (x y : A) (xs : List A) → In x (xs ++ y ∷ []) → In x xs ⊎ (x ≡ y)
  In-append_either x y [] (inl e) = inr e
  In-append_either x y [] (inr i) = absurd i
  In-append_either x y (z ∷ zs) (inl e) = inl (inl e)
  In-append_either x y (z ∷ zs) (inr i) = elim (In-append_either x y zs i) [
    | inl j ↦ inl (inr j)
    | inr e ↦ inr e
  ]

  pub any-append_left : (p : A → Bool) (xs ys : List A) → any p xs ≡ true → any p (xs ++ ys) ≡ true
  any-append_left p [] ys h = cc
  any-append_left p (y ∷ xs) ys h = ground (arith, h, any-append_left p xs ys)

  -- A search for an element that is there finds one.
  pub find-In :
      (p : A → Bool) (x : A) (xs : List A)
      → In x xs
      → p x ≡ true
      → (y : A) × (find p xs ≡ some y) × In y xs × (p y ≡ true)
  find-In p x [] i h = absurd i
  find-In p x (y ∷ ys) i h = elim (Bool-cases (p y)) [
    | inl e ↦ (y, ground (arith, e), inl refl, e)
    | inr e ↦
        let later : In x ys = ground (arith, i, ap p, e, h) in
        let r = find-In p x ys later h in (r.0, ground (arith, e, r.1), inr r.2, r.3)
  ]

  pub keep-nonempty :
      (p : A → Bool) (xs : List A) → any p xs ≡ true → (y : A) × (r : List A) × (keep p xs ≡ y ∷ r)
  keep-nonempty p [] h = cc
  keep-nonempty p (x ∷ xs) h = elim (Bool-cases (p x)) [
    | inl e ↦ (x, keep p xs, ground (arith, e))
    | inr e ↦
        let r = keep-nonempty p xs (ground (arith, h, e)) in (r.0, r.1, ground (arith, e, r.2))
  ]
