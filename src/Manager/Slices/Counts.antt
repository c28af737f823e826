-- ===== src/Manager/Slices/Counts.antt =====
-- Two slices are the same if they have each string as often.
use l_3_4_gateway_api_poc.Base.{
  ◌↔◌, ℕ, suc, ◌+◌, ◌-◌, ◌≡◌, ◌≢◌, refl, true, none, some, List, [], ◌∷◌, Text, text_discrete,
  lookup, insert, lookup-insert, lookup-delete, length, arith, ite, if_pos, if◌then◌else◌, ◌==◌,
  Option-cases, inl, inr, In, remove, length-remove, ◌<◌,
}
use l_3_4_gateway_api_poc.Manager.Slices.{
  or_zero, count_up, take_one, count_down, same_string_slice,
}

-- How often a string stands in a list.
abbrev pub count : Text → List Text → ℕ
count x [] = 0
count x (y ∷ ys) = ite (text_discrete x y) (suc (count x ys)) (count x ys)

abbrev value : Text → List (Text × ℕ) → ℕ
value x diff = or_zero (lookup text_discrete x diff)

-- No key has the count 0.
abbrev IsPositive : List (Text × ℕ) → Type 0
IsPositive diff = (x : Text) → lookup text_discrete x diff ≢ some 0

count_up-value :
    (xs : List Text) (diff : List (Text × ℕ)) (x : Text)
    → value x (count_up xs diff) ≡ count x xs + value x diff
unfolding count_up
count_up-value [] diff x = omega arith
count_up-value (y ∷ ys) diff x =
    let put = lookup-insert text_discrete y x (suc (value y diff)) diff in
    let rest = count_up-value ys (insert text_discrete y (suc (value y diff)) diff) x in
    elim (text_discrete x y) [
      | yes e ↦
          let same : value x diff ≡ value y diff = rw e refl in ground (arith, put, rest, same)
      | no ne ↦ ground (arith, put, rest)
    ]

count_up-IsPositive :
    (xs : List Text) (diff : List (Text × ℕ)) → IsPositive diff → IsPositive (count_up xs diff)
unfolding count_up
count_up-IsPositive [] diff h = h
count_up-IsPositive (y ∷ ys) diff h = count_up-IsPositive ys _ (λ x e.
    let put = lookup-insert text_discrete y x (suc (value y diff)) diff in
    elim (text_discrete x y) [
      | yes p ↦ absurd (ground (arith, put))
      | no np ↦ h x (ground (arith, put))
    ])

take_one-lookup :
    (y x : Text) (n : ℕ) (diff : List (Text × ℕ))
    → lookup text_discrete x (take_one y n diff)
      ≡ ite
          (text_discrete x y)
          (if n - 1 == 0 then none else some (n - 1))
          (lookup text_discrete x diff)
take_one-lookup y x n diff =
    ground
      (arith, lookup-insert text_discrete y x (n - 1) diff, lookup-delete text_discrete y x diff)

take_one-value :
    (y x : Text) (n : ℕ) (diff : List (Text × ℕ))
    → lookup text_discrete y diff ≡ some n
    → value x (take_one y n diff) ≡ value x diff - ite (text_discrete x y) 1 0
take_one-value y x n diff h =
    let now = take_one-lookup y x n diff in
    elim (text_discrete x y) [
      | yes e ↦
          let same : lookup text_discrete x diff ≡ some n = rw e h in ground (arith, now, same)
      | no ne ↦ ground (arith, now)
    ]

take_one-IsPositive :
    (y : Text) (n : ℕ) (diff : List (Text × ℕ)) → IsPositive diff → IsPositive (take_one y n diff)
take_one-IsPositive y n diff h x e =
    let now = take_one-lookup y x n diff in
    elim (text_discrete x y) [
      | yes p ↦ absurd (ground (arith, now))
      | no np ↦ h x (ground (arith, now))
    ]

positive_value :
    (y : Text) (n : ℕ) (diff : List (Text × ℕ))
    → IsPositive diff
    → lookup text_discrete y diff ≡ some n
    → n ≢ 0
positive_value y n diff h e z = h y (rw (← z) e)

count_down-value :
    (xs : List Text) (diff rest : List (Text × ℕ)) (x : Text)
    → IsPositive diff
    → count_down xs diff ≡ some rest
    → value x diff ≡ count x xs + value x rest
unfolding count_down
count_down-value [] diff rest x h e = ground arith
count_down-value (y ∷ ys) diff rest x h e = elim (Option-cases (lookup text_discrete y diff)) [
  | inl n ↦ absurd (ground arith)
  | inr (n, s) ↦
      let next : count_down ys (take_one y n diff) ≡ some rest = rw (s, count_down) at e in
      let ih =
        count_down-value ys (take_one y n diff) rest x (take_one-IsPositive y n diff h) next in
      let now = take_one-value y x n diff s in
      let more = positive_value y n diff h s in
      elim (text_discrete x y) [
        | yes p ↦
            let same : value x diff ≡ n = rw (p, s, or_zero) refl in
            ground (arith, ih, now, same, more)
        | no np ↦ ground (arith, ih, now)
      ]
]

values_zero :
    (diff : List (Text × ℕ)) → IsPositive diff → ((x : Text) → value x diff ≡ 0) → diff ≡ []
unfolding lookup
values_zero [] h z = refl
values_zero ((k, n) ∷ diff) h z =
    let here = if_pos (text_discrete k k) refl (some n) (lookup text_discrete k diff) in
    let none_left = z k in absurd (h k (ground arith))

count_down_all :
    (xs : List Text) (diff : List (Text × ℕ))
    → IsPositive diff
    → ((x : Text) → value x diff ≡ count x xs)
    → count_down xs diff ≡ some []
unfolding count_down
count_down_all [] diff h e = rw (values_zero diff h e) refl
count_down_all (y ∷ ys) diff h e = elim (Option-cases (lookup text_discrete y diff)) [
  | inl n ↦
      let here = if_pos (text_discrete y y) refl (suc (count y ys)) (count y ys) in
      let some_left = e y in absurd (ground arith)
  | inr (n, s) ↦
      rw (s, count_down)
        (count_down_all ys (take_one y n diff) (take_one-IsPositive y n diff h) (λ x.
          let now = take_one-value y x n diff s in
          let before = e x in
          elim (text_discrete x y) [
            | yes p ↦ ground (arith, now, before)
            | no np ↦ ground (arith, now, before)
          ]))
]

-- Where sameStringSlice holds of two slices, each string stands in both as often.
same_string_slice-count :
    (a b : List Text) (x : Text) → same_string_slice a b ≡ true → count x a ≡ count x b
unfolding same_string_slice lookup
same_string_slice-count a b x h =
    let up = count_up-value a [] x in
    let positive = count_up-IsPositive a [] (λ z e. absurd (cc)) in
    elim (Option-cases (count_down b (count_up a []))) [
      | inl n ↦ absurd (ground arith)
      | inr ([], s) ↦
          let down = count_down-value b (count_up a []) [] x positive s in ground (arith, up, down)
      | inr (k ∷ ks, s) ↦ absurd (ground arith)
    ]

count-pos : (x : Text) (xs : List Text) → In x xs → 0 < count x xs
count-pos x [] m = absurd m
count-pos x (y ∷ ys) (inl e) = ground arith
count-pos x (y ∷ ys) (inr m) = ground (arith, count-pos x ys m)

In-count : (x : Text) (xs : List Text) → 0 < count x xs → In x xs
In-count x [] h = absurd (omega arith)
In-count x (y ∷ ys) h = elim (text_discrete x y) [
  | yes e ↦ inl e
  | no ne ↦ inr (In-count x ys (ground arith))
]

count-remove :
    (y x : Text) (xs : List Text)
    → In y xs
    → count x xs
      ≡ ite
          (text_discrete x y)
          (suc (count x (remove text_discrete y xs)))
          (count x (remove text_discrete y xs))
unfolding remove
count-remove y x [] m = absurd m
count-remove y x (z ∷ zs) (inl e) = ground arith
count-remove y x (z ∷ zs) (inr m) = ground (arith, count-remove y x zs m)

length-count : (a b : List Text) → ((x : Text) → count x a ≡ count x b) → length a ≡ length b
length-count [] [] h = refl
length-count [] (y ∷ b) h =
    let e = h y in
    let here = if_pos (text_discrete y y) refl (suc (count y b)) (count y b) in
    absurd (ground arith)
length-count (x ∷ a) b h =
    let e = h x in
    let here = if_pos (text_discrete x x) refl (suc (count x a)) (count x a) in
    let there : In x b = In-count x b (ground arith) in
    let shorter =
      length-count a (remove text_discrete x b)
        (λ z. let both = h z in let gone = count-remove x z b there in ground arith) in
    omega (arith, shorter, length-remove text_discrete x b there)

-- Two slices in which each string stands as often are the same for sameStringSlice, whatever their
-- order.
pub same_string_slice_all :
    (a b : List Text) → ((x : Text) → count x a ≡ count x b) → same_string_slice a b ≡ true
unfolding same_string_slice lookup
same_string_slice_all a b h =
    let positive = count_up-IsPositive a [] (λ z e. absurd (cc)) in
    let down =
      count_down_all b (count_up a []) positive
        (λ x. let up = count_up-value a [] x in let same = h x in ground (arith, up, same)) in
    ground (arith, down, length-count a b h)

-- sameStringSlice holds of two slices exactly if each string stands in both as often, whatever
-- their order.
pub same_string_slice-counts :
    (a b : List Text) → (same_string_slice a b ≡ true) ↔ ((x : Text) → count x a ≡ count x b)
same_string_slice-counts a b = ((λ h x. same_string_slice-count a b x h), same_string_slice_all a b)
