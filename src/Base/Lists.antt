-- ===== src/Base/Lists.antt =====
-- Lists measured by native numbers, membership by recursion, and predicates on all elements.
use Prim.Native.Nat.{ℕ, suc, ◌+◌}
use mathlib.Core.Path.{◌≡◌, refl, sym, ap, subst}
use mathlib.Core.Logic.{◌⊎◌, inl, inr}
use mathlib.Core.List.{List, [], ◌∷◌, ◌++◌, map}
use native.Mathlib.Omega.{arith}

module _ {ℓ} {A : Type ℓ} where
  abbrev pub length : List A → ℕ
  length [] = 0
  length (x ∷ xs) = suc (length xs)

  pub length-append : (xs ys : List A) → length (xs ++ ys) ≡ length xs + length ys
  length-append [] ys = omega arith
  length-append (x ∷ xs) ys = omega (arith, length-append xs ys)

module _ {A : Type 0} where
  -- `x` is an element of the list.
  abbrev pub In : A → List A → Type 0
  In x [] = ⊥
  In x (y ∷ ys) = (x ≡ y) ⊎ In x ys

  pub In-append_left : (x : A) (xs ys : List A) → In x xs → In x (xs ++ ys)
  In-append_left x [] ys h = absurd h
  In-append_left x (y ∷ xs) ys (inl e) = inl e
  In-append_left x (y ∷ xs) ys (inr h) = inr (In-append_left x xs ys h)

  pub In-append_right : (x : A) (xs ys : List A) → In x ys → In x (xs ++ ys)
  In-append_right x [] ys h = h
  In-append_right x (y ∷ xs) ys h = inr (In-append_right x xs ys h)

  pub In-append_cases : (x : A) (xs ys : List A) → In x (xs ++ ys) → In x xs ⊎ In x ys
  In-append_cases x [] ys h = inr h
  In-append_cases x (y ∷ xs) ys (inl e) = inl (inl e)
  In-append_cases x (y ∷ xs) ys (inr h) = elim (In-append_cases x xs ys h) [
    | inl m ↦ inl (inr m)
    | inr m ↦ inr m
  ]

  -- No element stands twice.
  abbrev pub Distinct : List A → Type 0
  Distinct [] = Unit
  Distinct (x ∷ xs) = (¬ In x xs) × Distinct xs

module _ {ℓ κ} {A : Type ℓ} (P : A → Type κ) where
  abbrev pub All : List A → Type κ
  All [] = Unit
  All (x ∷ xs) = P x × All xs

  pub All-append : (xs ys : List A) → All xs → All ys → All (xs ++ ys)
  All-append [] ys hx hy = hy
  All-append (x ∷ xs) ys hx hy = (hx.0, All-append xs ys hx.1 hy)

  pub All_middle : (x : A) (xs ys : List A) → All (xs ++ x ∷ ys) → P x
  All_middle x [] ys h = h.0
  All_middle x (y ∷ xs) ys h = All_middle x xs ys h.1

module _ {κ} {A : Type 0} (P : A → Type κ) where
  pub All-In : (x : A) (xs : List A) → All P xs → In x xs → P x
  All-In x [] h m = absurd m
  All-In x (y ∷ ys) h (inl e) = rw e h.0
  All-In x (y ∷ ys) h (inr m) = All-In x ys h.1 m

module _ {A B : Type 0} (f : A → B) where
  pub In-map : (x : A) (xs : List A) → In x xs → In (f x) (map f xs)
  In-map x [] m = m
  In-map x (y ∷ ys) (inl e) = inl (ap f e)
  In-map x (y ∷ ys) (inr m) = inr (In-map x ys m)

  pub map-In : (b : B) (xs : List A) → In b (map f xs) → (x : A) × In x xs × (b ≡ f x)
  map-In b [] m = absurd m
  map-In b (y ∷ ys) (inl e) = (y, inl refl, e)
  map-In b (y ∷ ys) (inr m) = let (x, i, e) = map-In b ys m in (x, inr i, e)

  -- A function that tells the elements of a list apart keeps them distinct.
  pub map-Distinct :
      (xs : List A)
      → Distinct xs
      → ((x y : A) → In x xs → In y xs → f x ≡ f y → x ≡ y)
      → Distinct (map f xs)
  map-Distinct [] d h = tt
  map-Distinct (x ∷ xs) (alone, d) h = (
    (λ m.
        let (y, i, e) = map-In (f x) xs m in
        alone (subst (λ z. In z xs) (sym (h x y (inl refl) (inr i) e)) i)),
    map-Distinct xs d (λ y z i j. h y z (inr i) (inr j)),
  )
