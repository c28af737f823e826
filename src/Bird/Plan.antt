-- ===== src/Bird/Plan.antt =====
-- Which rules `setPolicyRoutes` deletes and which addresses it leaves for the loop that adds.
use l_3_4_gateway_api_poc.Base.{
  ◌≡◌, refl, sym, ◌∙◌, ◌⊎◌, inl, inr, true, false, Bool-cases, List, [], ◌∷◌, Text, text_discrete,
  delete, exists, exists-In, keys, In-keys-delete, keys-delete-In, not_In-keys-delete,
  keys-delete-Distinct, delete-All, In, Distinct, All, if◌then◌else◌, subst,
}

module _ {R V : Type 0} (src : R → Text) where
  -- A rule is deleted unless it is the first one of an address.
  unfoldable pub dropped : List R → List (Text × V) → List R
  dropped [] m = []
  dropped (r ∷ rs) m =
      if exists (src r) m then dropped rs (delete text_discrete (src r) m) else r ∷ dropped rs m

  unfoldable pub left : List R → List (Text × V) → List (Text × V)
  left [] m = m
  left (r ∷ rs) m = if exists (src r) m then left rs (delete text_discrete (src r) m) else left rs m

  pub dropped_kept :
      (r : R) (rs : List R) (m : List (Text × V))
      → exists (src r) m ≡ true
      → dropped (r ∷ rs) m ≡ dropped rs (delete text_discrete (src r) m)
  unfolding dropped
  dropped_kept r rs m h = rw h refl

  pub dropped_gone :
      (r : R) (rs : List R) (m : List (Text × V))
      → exists (src r) m ≡ false
      → dropped (r ∷ rs) m ≡ r ∷ dropped rs m
  unfolding dropped
  dropped_gone r rs m h = rw h refl

  pub left_kept :
      (r : R) (rs : List R) (m : List (Text × V))
      → exists (src r) m ≡ true
      → left (r ∷ rs) m ≡ left rs (delete text_discrete (src r) m)
  unfolding left
  left_kept r rs m h = rw h refl

  pub left_gone :
      (r : R) (rs : List R) (m : List (Text × V))
      → exists (src r) m ≡ false
      → left (r ∷ rs) m ≡ left rs m
  unfolding left
  left_gone r rs m h = rw h refl

  pub dropped-In : (x : R) (rs : List R) (m : List (Text × V)) → In x (dropped rs m) → In x rs
  unfolding dropped
  dropped-In x [] m i = i
  dropped-In x (r ∷ rs) m i = elim (Bool-cases (exists (src r) m)) [
    | inl h ↦ inr (dropped-In x rs _ (rw (dropped_kept r rs m h) at i))
    | inr h ↦
        let j : In x (r ∷ dropped rs m) = rw (dropped_gone r rs m h) at i in
        elim j [ inl e ↦ inl e | inr k ↦ inr (dropped-In x rs m k) ]
  ]

  pub left-In :
      (k : Text) (rs : List R) (m : List (Text × V)) → In k (keys (left rs m)) → In k (keys m)
  unfolding left
  left-In k [] m i = i
  left-In k (r ∷ rs) m i = elim (Bool-cases (exists (src r) m)) [
    | inl h ↦
        In-keys-delete text_discrete k (src r) m (left-In k rs _ (rw (left_kept r rs m h) at i))
    | inr h ↦ left-In k rs m (rw (left_gone r rs m h) at i)
  ]

  pub left-Distinct :
      (rs : List R) (m : List (Text × V)) → Distinct (keys m) → Distinct (keys (left rs m))
  unfolding left
  left-Distinct [] m d = d
  left-Distinct (r ∷ rs) m d = elim (Bool-cases (exists (src r) m)) [
    | inl h ↦
        rw (left_kept r rs m h)
          (left-Distinct rs _ (keys-delete-Distinct text_discrete (src r) m d))
    | inr h ↦ rw (left_gone r rs m h) (left-Distinct rs m d)
  ]

  pub left-All :
      (P : Text × V → Type 0) (rs : List R) (m : List (Text × V)) → All P m → All P (left rs m)
  unfolding left
  left-All P [] m a = a
  left-All P (r ∷ rs) m a = elim (Bool-cases (exists (src r) m)) [
    | inl h ↦ rw (left_kept r rs m h) (left-All P rs _ (delete-All text_discrete P (src r) m a))
    | inr h ↦ rw (left_gone r rs m h) (left-All P rs m a)
  ]

  -- A rule that stays has an address of the map.
  pub stays-In :
      (x : R) (rs : List R) (m : List (Text × V))
      → In x rs
      → ¬ In x (dropped rs m)
      → In (src x) (keys m)
  stays-In x [] m i n = absurd i
  stays-In x (r ∷ rs) m i n = elim (Bool-cases (exists (src r) m)) [
    | inl h ↦ elim i [
      | inl e ↦ subst (λ z. In (src z) (keys m)) (sym e) (exists-In (src r) m h)
      | inr j ↦
          In-keys-delete text_discrete (src x) (src r) m
            (stays-In x rs _ j (rw (dropped_kept r rs m h) at n))
    ]
    | inr h ↦
        let n1 : ¬ In x (r ∷ dropped rs m) = rw (dropped_gone r rs m h) at n in
        elim i [ inl e ↦ absurd (n1 (inl e)) | inr j ↦ stays-In x rs m j (λ k. n1 (inr k)) ]
  ]

  -- The address of a rule that stays is not left.
  pub stays_not-left :
      (x : R) (rs : List R) (m : List (Text × V))
      → In x rs
      → ¬ In x (dropped rs m)
      → ¬ In (src x) (keys (left rs m))
  stays_not-left x [] m i n = absurd i
  stays_not-left x (r ∷ rs) m i n = elim (Bool-cases (exists (src r) m)) [
    | inl h ↦ rw (left_kept r rs m h) (elim i [
      | inl e ↦ λ l. not_In-keys-delete text_discrete (src r) m (
          subst (λ z. In (src z) (keys (delete text_discrete (src r) m))) e
            (left-In (src x) rs _ l))
      | inr j ↦ stays_not-left x rs _ j (rw (dropped_kept r rs m h) at n)
    ])
    | inr h ↦
        let n1 : ¬ In x (r ∷ dropped rs m) = rw (dropped_gone r rs m h) at n in
        rw (left_gone r rs m h) (elim i [
          | inl e ↦ absurd (n1 (inl e))
          | inr j ↦ stays_not-left x rs m j (λ k. n1 (inr k))
        ])
  ]

  -- Two rules that stay have different addresses.
  pub stays_alone :
      (x y : R) (rs : List R) (m : List (Text × V))
      → In x rs
      → In y rs
      → ¬ In x (dropped rs m)
      → ¬ In y (dropped rs m)
      → src x ≡ src y
      → x ≡ y
  stays_alone x y [] m i j n o e = absurd i
  stays_alone x y (r ∷ rs) m i j n o e = elim (Bool-cases (exists (src r) m)) [
    | inl h ↦
        let n1 : ¬ In x (dropped rs (delete text_discrete (src r) m)) =
          rw (dropped_kept r rs m h) at n in
        let o1 : ¬ In y (dropped rs (delete text_discrete (src r) m)) =
          rw (dropped_kept r rs m h) at o in
        let other : (z : R)
            → In z rs
            → ¬ In z (dropped rs (delete text_discrete (src r) m))
            → src z ≡ src r
            → ⊥ =
          λ z k p q.
            not_In-keys-delete text_discrete (src r) m
              (subst (λ t. In t (keys (delete text_discrete (src r) m))) q (stays-In z rs _ k p)) in
        elim i [
          | inl f ↦ elim j [
            | inl g ↦ f ∙ sym g
            | inr l ↦ absurd (other y l o1 (sym e ∙ (λ t. src (f t))))
          ]
          | inr k ↦ elim j [
            | inl g ↦ absurd (other x k n1 (e ∙ (λ t. src (g t))))
            | inr l ↦ stays_alone x y rs _ k l n1 o1 e
          ]
        ]
    | inr h ↦
        let n1 : ¬ In x (r ∷ dropped rs m) = rw (dropped_gone r rs m h) at n in
        let o1 : ¬ In y (r ∷ dropped rs m) = rw (dropped_gone r rs m h) at o in
        elim i [
          | inl f ↦ absurd (n1 (inl f))
          | inr k ↦ elim j [
            | inl g ↦ absurd (o1 (inl g))
            | inr l ↦ stays_alone x y rs m k l (λ p. n1 (inr p)) (λ p. o1 (inr p)) e
          ]
        ]
  ]

  -- An address of the map is left, or a rule that stays has it.
  pub left_or_stays :
      (k : Text) (rs : List R) (m : List (Text × V))
      → Distinct rs
      → In k (keys m)
      → In k (keys (left rs m)) ⊎ ((x : R) × In x rs × (¬ In x (dropped rs m)) × (src x ≡ k))
  unfolding left
  left_or_stays k [] m d i = inl i
  left_or_stays k (r ∷ rs) m (alone, d) i = elim (Bool-cases (exists (src r) m)) [
    | inl h ↦ elim (text_discrete k (src r)) [
      | yes e ↦
          inr
            (r, inl refl, (λ g. alone (dropped-In r rs _ (rw (dropped_kept r rs m h) at g))), sym e)
      | no ne ↦ elim (left_or_stays k rs _ d (keys-delete-In text_discrete k (src r) m i ne)) [
        | inl l ↦ inl (rw (left_kept r rs m h) l)
        | inr (x, j, n, e) ↦ inr (x, inr j, rw (dropped_kept r rs m h) n, e)
      ]
    ]
    | inr h ↦ elim (left_or_stays k rs m d i) [
      | inl l ↦ inl (rw (left_gone r rs m h) l)
      | inr (x, j, n, e) ↦ inr (
        x,
        inr j,
        rw (dropped_gone r rs m h)
            (elim [ inl f ↦ alone (subst (λ z. In z rs) f j) | inr g ↦ n g ]),
        e,
      )
    ]
  ]
