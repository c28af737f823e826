-- ===== src/Base/Keys.antt =====
-- The keys of an association list.
use mathlib.Core.Path.{◌≡◌, refl, sym, ap, ◌∙◌}
use mathlib.Core.Logic.{◌⊎◌, inl, inr, if_pos, if_neg}
use mathlib.Core.Option.{some}
use mathlib.Core.List.{List, [], ◌∷◌, ◌++◌, map}
use l_3_4_gateway_api_poc.Base.Lists.{In, Distinct, All}
use l_3_4_gateway_api_poc.Base.Maps.{lookup, insert, delete}

abbrev pub keys : {K V : Type 0} → List (K × V) → List K
keys = map (λ e. e.0)

module _ {K V : Type 0} (dec : Discrete K) where
  pub In-keys-insert :
      (j k : K) (v : V) (m : List (K × V))
      → In j (keys (insert dec k v m))
      → (j ≡ k) ⊎ In j (keys m)
  unfolding insert
  In-keys-insert j k v [] (inl e) = inl e
  In-keys-insert j k v [] (inr m) = absurd m
  In-keys-insert j k v ((i, w) ∷ m) h = elim (dec k i) [
    | yes p ↦
        let h1 : In j (k ∷ keys m) =
          rw (if_pos (dec k i) p ((k, v) ∷ m) ((i, w) ∷ insert dec k v m)) at h in
        elim h1 [ inl e ↦ inl e | inr n ↦ inr (inr n) ]
    | no np ↦
        let h1 : In j (i ∷ keys (insert dec k v m)) =
          rw (if_neg (dec k i) np ((k, v) ∷ m) ((i, w) ∷ insert dec k v m)) at h in
        elim h1 [
          | inl e ↦ inr (inl e)
          | inr n ↦ elim (In-keys-insert j k v m n) [ inl e ↦ inl e | inr o ↦ inr (inr o) ]
        ]
  ]

  pub keys-insert-Distinct :
      (k : K) (v : V) (m : List (K × V)) → Distinct (keys m) → Distinct (keys (insert dec k v m))
  unfolding insert
  keys-insert-Distinct k v [] d = ((λ n. n), tt)
  keys-insert-Distinct k v ((i, w) ∷ m) (alone, d) = elim (dec k i) [
    | yes p ↦
        rw (if_pos (dec k i) p ((k, v) ∷ m) ((i, w) ∷ insert dec k v m))
          ((λ n. alone (rw p at n)), d)
    | no np ↦ rw (if_neg (dec k i) np ((k, v) ∷ m) ((i, w) ∷ insert dec k v m)) (
      (λ n. elim (In-keys-insert i k v m n) [ inl e ↦ np (sym e) | inr o ↦ alone o ]),
      keys-insert-Distinct k v m d,
    )
  ]

  pub In-keys-delete : (j k : K) (m : List (K × V)) → In j (keys (delete dec k m)) → In j (keys m)
  unfolding delete
  In-keys-delete j k [] h = h
  In-keys-delete j k ((i, w) ∷ m) h = elim (dec k i) [
    | yes p ↦ inr (
        In-keys-delete j k m
          (rw (if_pos (dec k i) p (delete dec k m) ((i, w) ∷ delete dec k m)) at h))
    | no np ↦
        let h1 : In j (i ∷ keys (delete dec k m)) =
          rw (if_neg (dec k i) np (delete dec k m) ((i, w) ∷ delete dec k m)) at h in
        elim h1 [ inl e ↦ inl e | inr n ↦ inr (In-keys-delete j k m n) ]
  ]

  pub keys-insert-In :
      (j k : K) (v : V) (m : List (K × V))
      → (j ≡ k) ⊎ In j (keys m)
      → In j (keys (insert dec k v m))
  unfolding insert
  keys-insert-In j k v [] h = h
  keys-insert-In j k v ((i, w) ∷ m) h = elim (dec k i) [
    | yes p ↦
        rw (if_pos (dec k i) p ((k, v) ∷ m) ((i, w) ∷ insert dec k v m))
          (elim h [ inl e ↦ inl e | inr (inl e) ↦ inl (e ∙ sym p) | inr (inr n) ↦ inr n ])
    | no np ↦ rw (if_neg (dec k i) np ((k, v) ∷ m) ((i, w) ∷ insert dec k v m)) (elim h [
      | inl e ↦ inr (keys-insert-In j k v m (inl e))
      | inr (inl e) ↦ inl e
      | inr (inr n) ↦ inr (keys-insert-In j k v m (inr n))
    ])
  ]

  pub keys-delete-In :
      (j k : K) (m : List (K × V)) → In j (keys m) → ¬ (j ≡ k) → In j (keys (delete dec k m))
  unfolding delete
  keys-delete-In j k [] h ne = h
  keys-delete-In j k ((i, w) ∷ m) h ne = elim (dec k i) [
    | yes p ↦
        rw (if_pos (dec k i) p (delete dec k m) ((i, w) ∷ delete dec k m))
          (elim h [ inl e ↦ absurd (ne (e ∙ sym p)) | inr n ↦ keys-delete-In j k m n ne ])
    | no np ↦
        rw (if_neg (dec k i) np (delete dec k m) ((i, w) ∷ delete dec k m))
          (elim h [ inl e ↦ inl e | inr n ↦ inr (keys-delete-In j k m n ne) ])
  ]

  pub not_In-keys-delete : (k : K) (m : List (K × V)) → ¬ In k (keys (delete dec k m))
  unfolding delete
  not_In-keys-delete k [] h = h
  not_In-keys-delete k ((i, w) ∷ m) h = elim (dec k i) [
    | yes p ↦
        not_In-keys-delete k m
          (rw (if_pos (dec k i) p (delete dec k m) ((i, w) ∷ delete dec k m)) at h)
    | no np ↦
        let h1 : In k (i ∷ keys (delete dec k m)) =
          rw (if_neg (dec k i) np (delete dec k m) ((i, w) ∷ delete dec k m)) at h in
        elim h1 [ inl e ↦ np e | inr n ↦ not_In-keys-delete k m n ]
  ]

  pub keys-delete-Distinct :
      (k : K) (m : List (K × V)) → Distinct (keys m) → Distinct (keys (delete dec k m))
  unfolding delete
  keys-delete-Distinct k [] d = tt
  keys-delete-Distinct k ((i, w) ∷ m) (alone, d) = elim (dec k i) [
    | yes p ↦
        rw (if_pos (dec k i) p (delete dec k m) ((i, w) ∷ delete dec k m))
          (keys-delete-Distinct k m d)
    | no np ↦
        rw (if_neg (dec k i) np (delete dec k m) ((i, w) ∷ delete dec k m))
          ((λ n. alone (In-keys-delete i k m n)), keys-delete-Distinct k m d)
  ]

  delete_absent : (k : K) (m : List (K × V)) → ¬ In k (keys m) → delete dec k m ≡ m
  unfolding delete
  delete_absent k [] h = refl
  delete_absent k ((i, w) ∷ m) h =
      if_neg (dec k i) (λ p. h (inl p)) _ _
      ∙ ap (λ r. (i, w) ∷ r) (delete_absent k m (λ n. h (inr n)))

  pub lookup-append_middle :
      (k : K) (v : V) (p s : List (K × V))
      → ¬ In k (keys p)
      → lookup dec k (p ++ (k, v) ∷ s) ≡ some v
  unfolding lookup
  lookup-append_middle k v [] s h = if_pos (dec k k) refl _ _
  lookup-append_middle k v ((i, w) ∷ p) s h =
      if_neg (dec k i) (λ e. h (inl e)) _ _ ∙ lookup-append_middle k v p s (λ n. h (inr n))

  pub delete-append_middle :
      (k : K) (v : V) (p s : List (K × V))
      → ¬ In k (keys p)
      → ¬ In k (keys s)
      → delete dec k (p ++ (k, v) ∷ s) ≡ p ++ s
  unfolding delete
  delete-append_middle k v [] s h g = if_pos (dec k k) refl _ _ ∙ delete_absent k s g
  delete-append_middle k v ((i, w) ∷ p) s h g =
      if_neg (dec k i) (λ e. h (inl e)) _ _
      ∙ ap (λ r. (i, w) ∷ r) (delete-append_middle k v p s (λ n. h (inr n)) g)

  In-keys_middle : (k : K) (v : V) (p s : List (K × V)) → In k (keys (p ++ (k, v) ∷ s))
  In-keys_middle k v [] s = inl refl
  In-keys_middle k v (e ∷ p) s = inr (In-keys_middle k v p s)

  pub keys_middle-Distinct :
      (k : K) (v : V) (p s : List (K × V))
      → Distinct (keys (p ++ (k, v) ∷ s))
      → (¬ In k (keys p)) × (¬ In k (keys s))
  keys_middle-Distinct k v [] s d = ((λ m. m), d.0)
  keys_middle-Distinct k v ((i, w) ∷ p) s (alone, d) =
      let (before, behind) = keys_middle-Distinct k v p s d in
      ((elim [ inl e ↦ alone (rw (← e) (In-keys_middle k v p s)) | inr m ↦ before m ]), behind)

  pub insert_twice :
      (k : K) (v : V) (m : List (K × V)) → insert dec k v (insert dec k v m) ≡ insert dec k v m
  unfolding insert
  insert_twice k v [] = if_pos (dec k k) refl _ _
  insert_twice k v ((i, w) ∷ m) = elim (dec k i) [
    | yes p ↦
        rw (if_pos (dec k i) p ((k, v) ∷ m) ((i, w) ∷ insert dec k v m))
          (if_pos (dec k k) refl ((k, v) ∷ m) ((k, v) ∷ insert dec k v m))
    | no np ↦
        rw (if_neg (dec k i) np ((k, v) ∷ m) ((i, w) ∷ insert dec k v m))
          (if_neg (dec k i) np _ _ ∙ ap (λ r. (i, w) ∷ r) (insert_twice k v m))
  ]

  module _ (P : K × V → Type 0) where
    pub insert-All :
        (k : K) (v : V) (m : List (K × V)) → P (k, v) → All P m → All P (insert dec k v m)
    unfolding insert
    insert-All k v [] n h = (n, tt)
    insert-All k v ((j, t) ∷ m) n (o, h) = elim (dec k j) [
      | yes p ↦ rw (if_pos (dec k j) p ((k, v) ∷ m) ((j, t) ∷ insert dec k v m)) (n, h)
      | no np ↦
          rw (if_neg (dec k j) np ((k, v) ∷ m) ((j, t) ∷ insert dec k v m))
            (o, insert-All k v m n h)
    ]

    pub delete-All : (k : K) (m : List (K × V)) → All P m → All P (delete dec k m)
    unfolding delete
    delete-All k [] h = tt
    delete-All k ((j, t) ∷ m) (o, h) = elim (dec k j) [
      | yes p ↦
          rw (if_pos (dec k j) p (delete dec k m) ((j, t) ∷ delete dec k m)) (delete-All k m h)
      | no np ↦
          rw (if_neg (dec k j) np (delete dec k m) ((j, t) ∷ delete dec k m)) (o, delete-All k m h)
    ]
