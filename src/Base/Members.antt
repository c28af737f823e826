-- ===== src/Base/Members.antt =====
-- Membership as a test, and how many elements distinct elements need.
use Prim.Native.Nat.{suc, ◌≤◌}
use mathlib.Core.Path.{◌≡◌, refl, sym, ◌∙◌, subst}
use mathlib.Core.Logic.{inl, inr, ite, if_pos, if_neg}
use mathlib.Core.Bool.{Bool, true, false}
use mathlib.Core.List.{List, [], ◌∷◌}
use native.Mathlib.Omega.{arith}
use l_3_4_gateway_api_poc.Base.Lists.{length, In, Distinct}

module _ {A : Type 0} (dec : Discrete A) where
  -- `_, exists := m[k]` on the keys of a map
  unfoldable pub has : A → List A → Bool
  has x [] = false
  has x (y ∷ ys) = ite (dec x y) true (has x ys)

  pub has-In : (x : A) (ys : List A) → has x ys ≡ true → In x ys
  unfolding has
  has-In x [] h = absurd (cc)
  has-In x (y ∷ ys) h = elim (dec x y) [ yes e ↦ inl e | no ne ↦ inr (has-In x ys (ground arith)) ]

  pub has_not-In : (x : A) (ys : List A) → has x ys ≡ false → ¬ In x ys
  unfolding has
  has_not-In x [] h m = m
  has_not-In x (y ∷ ys) h (inl e) = absurd (ground arith)
  has_not-In x (y ∷ ys) h (inr m) = has_not-In x ys (ground arith) m

  pub In-has : (x : A) (ys : List A) → In x ys → has x ys ≡ true
  unfolding has
  In-has x [] m = absurd m
  In-has x (y ∷ ys) (inl e) = ground arith
  In-has x (y ∷ ys) (inr m) = ground (arith, In-has x ys m)

  pub not_In-has : (x : A) (ys : List A) → ¬ In x ys → has x ys ≡ false
  unfolding has
  not_In-has x [] h = refl
  not_In-has x (y ∷ ys) h =
      let rest = not_In-has x ys (λ m. h (inr m)) in
      if_neg (dec x y) (λ e. h (inl e)) true (has x ys) ∙ rest

  -- The list without the first `x`.
  unfoldable pub remove : A → List A → List A
  remove x [] = []
  remove x (y ∷ ys) = ite (dec x y) ys (y ∷ remove x ys)

  pub length-remove : (x : A) (ys : List A) → In x ys → suc (length (remove x ys)) ≡ length ys
  unfolding remove
  length-remove x [] m = absurd m
  length-remove x (y ∷ ys) (inl e) = ground arith
  length-remove x (y ∷ ys) (inr m) = ground (arith, length-remove x ys m)

  pub In-remove : (x z : A) (ys : List A) → In z ys → ¬ (z ≡ x) → In z (remove x ys)
  unfolding remove
  In-remove x z [] m ne = m
  In-remove x z (y ∷ ys) m ne = elim (dec x y) [
    | yes e ↦
        rw (if_pos (dec x y) e ys (y ∷ remove x ys))
          (elim m [ inl p ↦ absurd (ne (p ∙ sym e)) | inr k ↦ k ])
    | no o ↦
        rw (if_neg (dec x y) o ys (y ∷ remove x ys))
          (elim m [ inl p ↦ inl p | inr k ↦ inr (In-remove x z ys k ne) ])
  ]

  pub remove-In : (x z : A) (ys : List A) → In z (remove x ys) → In z ys
  unfolding remove
  remove-In x z [] m = m
  remove-In x z (y ∷ ys) m = elim (dec x y) [
    | yes e ↦ inr (rw (if_pos (dec x y) e ys (y ∷ remove x ys)) at m)
    | no o ↦
        let k : In z (y ∷ remove x ys) = rw (if_neg (dec x y) o ys (y ∷ remove x ys)) at m in
        elim k [ inl p ↦ inl p | inr j ↦ inr (remove-In x z ys j) ]
  ]

  pub remove-Distinct : (x : A) (ys : List A) → Distinct ys → Distinct (remove x ys)
  unfolding remove
  remove-Distinct x [] d = tt
  remove-Distinct x (y ∷ ys) (alone, d) = elim (dec x y) [
    | yes e ↦ rw (if_pos (dec x y) e ys (y ∷ remove x ys)) d
    | no o ↦
        rw (if_neg (dec x y) o ys (y ∷ remove x ys))
          ((λ m. alone (remove-In x y ys m)), remove-Distinct x ys d)
  ]

  pub remove_gone : (x : A) (ys : List A) → Distinct ys → ¬ In x (remove x ys)
  unfolding remove
  remove_gone x [] d m = m
  remove_gone x (y ∷ ys) (alone, d) m = elim (dec x y) [
    | yes e ↦ alone (subst (λ z. In z ys) e (rw (if_pos (dec x y) e ys (y ∷ remove x ys)) at m))
    | no o ↦
        let k : In x (y ∷ remove x ys) = rw (if_neg (dec x y) o ys (y ∷ remove x ys)) at m in
        elim k [ inl p ↦ o p | inr j ↦ remove_gone x ys d j ]
  ]

  -- Distinct elements of a list are at most as many as its elements.
  pub length-Distinct :
      (xs ys : List A) → Distinct xs → ((x : A) → In x xs → In x ys) → length xs ≤ length ys
  length-Distinct [] ys d h = omega arith
  length-Distinct (x ∷ xs) ys (n, d) h =
      let rest =
        length-Distinct xs (remove x ys) d
          (λ z m. In-remove x z ys (h z (inr m)) (λ e. n (rw (← e) m))) in
      omega (arith, rest, length-remove x ys (h x (inl refl)))
