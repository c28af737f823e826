-- ===== src/Annotation/Tables.antt =====
-- The table of the policy routes is one that no other policy route of the pod has.
use l_3_4_gateway_api_poc.Base.{
  ℕ, zero, suc, ◌+◌, ◌≤◌, ◌<◌, ◌≡◌, refl, List, [], ◌∷◌, ℤ, pos, int_discrete, arith, length, In,
  Distinct, has, has-In, has_not-In, length-Distinct, Bool-cases, inl, inr, ℕ_discrete, ◌↔◌, ◌⊎◌,
  Option, none, some, Option-cases, Text, codes, text_discrete, lookup,
}
use l_3_4_gateway_api_poc.Annotation.{
  NetworkSelectionElement, CniArgs, Value, float, whole, anys, texts, policy_routes, other, text,
  put, argument, put_table_id, policy_route_nad_name, used_table_ids, free_table_id_from,
  get_free_table_id,
}

abbrev numbers_from : ℕ → ℕ → List ℤ
numbers_from zero i = []
numbers_from (suc n) i = pos i ∷ numbers_from n (suc i)

length-numbers_from : (n i : ℕ) → length (numbers_from n i) ≡ n
length-numbers_from zero i = refl
length-numbers_from (suc n) i = omega (arith, length-numbers_from n (suc i))

In-numbers_from :
    (z : ℤ) (n i : ℕ) → In z (numbers_from n i) → (j : ℕ) × (z ≡ pos j) × (i ≤ j) × (j < i + n)
In-numbers_from z zero i m = absurd m
In-numbers_from z (suc n) i (inl e) = (i, e, omega arith, omega arith)
In-numbers_from z (suc n) i (inr m) =
    let (j, e, l, u) = In-numbers_from z n (suc i) m in (j, e, omega arith, omega arith)

numbers_from-Distinct : (n i : ℕ) → Distinct (numbers_from n i)
numbers_from-Distinct zero i = tt
numbers_from-Distinct (suc n) i = (
  λ m.
      let (j, e, l, u) = In-numbers_from (pos i) n (suc i) m in
      let same : i ≡ j = cc in omega arith,
  numbers_from-Distinct n (suc i),
)

-- Either the number is not in use, or the search ran to its end.
free_table_id_from_below :
    (n i : ℕ) (used : List ℤ)
    → let r = free_table_id_from n i used in
      (i ≤ r)
      × (r ≤ i + n)
      × ((j : ℕ) → i ≤ j → j < r → In (pos j) used)
      × (r < i + n → ¬ In (pos r) used)
unfolding free_table_id_from
free_table_id_from_below zero i used =
    (omega arith, omega arith, (λ j l u. absurd (omega arith)), (λ l. absurd (omega arith)))
free_table_id_from_below (suc n) i used = elim (Bool-cases (has int_discrete (pos i) used)) [
  | inl taken ↦
      let (l, u, below, free) = free_table_id_from_below n (suc i) used in
      rw (taken, free_table_id_from)
        (
          omega arith,
          omega arith,
          (λ j lj jr. elim (ℕ_discrete j i) [
            | yes e ↦ rw e (has-In int_discrete (pos i) used taken)
            | no ne ↦ below j (omega arith) jr
          ]),
          (λ lt. free (omega arith)),
        )
  | inr unused ↦
      rw (unused, free_table_id_from)
        (
          omega arith,
          omega arith,
          (λ j lj jr. absurd (omega arith)),
          (λ lt. has_not-In int_discrete (pos i) used unused),
        )
]

free_table_id_from-free :
    (i : ℕ) (used : List ℤ) → ¬ In (pos (free_table_id_from (length used) i used)) used
free_table_id_from-free i used m =
    let r = free_table_id_from (length used) i used in
    let (l, u, below, free) = free_table_id_from_below (length used) i used in
    elim (ℕ_discrete r (i + length used)) [
      | no ne ↦ free (omega arith) m
      | yes e ↦
          let taken : (z : ℤ) → In z (numbers_from (suc (length used)) i) → In z used = λ z k.
            let (j, p, lj, uj) = In-numbers_from z (suc (length used)) i k in
            elim (ℕ_discrete j r) [
              | yes q ↦ rw p (rw q m)
              | no nq ↦ rw p (below j lj (omega arith))
            ] in
          let count =
            length-Distinct int_discrete (numbers_from (suc (length used)) i) used
              (numbers_from-Distinct (suc (length used)) i) taken in
          absurd (omega (arith, count, length-numbers_from (suc (length used)) i))
    ]

-- A policy route with the number for its table, as JSON gives it.
abbrev pub UsesTable : ℤ → NetworkSelectionElement → Type 0
UsesTable z e =
    (e.name ≡ codes "policy-route")
    × ((args : CniArgs) × (e.cni_args ≡ some args)
        × (lookup text_discrete (codes "tableId") args ≡ some (float z)))

-- One of the attachments uses the table.
abbrev pub InUse : ℤ → List NetworkSelectionElement → Type 0
InUse z [] = ⊥
InUse z (e ∷ es) = UsesTable z e ⊎ InUse z es

put-In : (z x : ℤ) (xs : List ℤ) → In z (put int_discrete x xs) ↔ ((z ≡ x) ⊎ In z xs)
unfolding put
put-In z x xs = elim (Bool-cases (has int_discrete x xs)) [
  | inl h ↦
      rw (h, put) ((λ i. inr i), elim [ inl e ↦ rw e (has-In int_discrete x xs h) | inr i ↦ i ])
  | inr h ↦ rw (h, put) ((λ i. i), λ i. i)
]

put_table_id-In :
    (z : ℤ) (o : Option Value) (used : List ℤ)
    → In z (put_table_id o used) ↔ ((o ≡ some (float z)) ⊎ In z used)
put_table_id-In z none used = ((λ i. inr i), elim [ inl e ↦ absurd (cc) | inr i ↦ i ])
put_table_id-In z (some (text t)) used = ((λ i. inr i), elim [ inl e ↦ absurd (cc) | inr i ↦ i ])
put_table_id-In z (some (float n)) used = (
  (λ i. elim ((put-In z n used).0 i) [ inl e ↦ inl (rw e refl) | inr j ↦ inr j ]),
  elim [ inl e ↦ (put-In z n used).1 (inl (cc)) | inr i ↦ (put-In z n used).1 (inr i) ],
)
put_table_id-In z (some (whole n)) used = ((λ i. inr i), elim [ inl e ↦ absurd (cc) | inr i ↦ i ])
put_table_id-In z (some (anys xs)) used = ((λ i. inr i), elim [ inl e ↦ absurd (cc) | inr i ↦ i ])
put_table_id-In z (some (texts xs)) used = ((λ i. inr i), elim [ inl e ↦ absurd (cc) | inr i ↦ i ])
put_table_id-In z (some (policy_routes xs)) used =
    ((λ i. inr i), elim [ inl e ↦ absurd (cc) | inr i ↦ i ])
put_table_id-In z (some other) used = ((λ i. inr i), elim [ inl e ↦ absurd (cc) | inr i ↦ i ])

-- What an argument comes from.
pub argument-some :
    (key : Text) (e : NetworkSelectionElement) (v : Value)
    → argument key e ≡ some v
    → (args : CniArgs) × (e.cni_args ≡ some args) × (lookup text_discrete key args ≡ some v)
argument-some key e v h = elim (Option-cases e.cni_args) [
  | inl n ↦ let gone : argument key e ≡ none = rw n refl in absurd (cc)
  | inr (args, s) ↦ (args, s, rw s at h)
]

-- An attachment that is a policy route, and one that is not.
InUse-cons :
    (z : ℤ) (e : NetworkSelectionElement) (es : List NetworkSelectionElement) (used : List ℤ)
    (next skipped : List ℤ) (d : Dec (e.name ≡ policy_route_nad_name))
    → In z next ↔ (InUse z es ⊎ In z (put_table_id (argument (codes "tableId") e) used))
    → In z skipped ↔ (InUse z es ⊎ In z used)
    → In z (elim d [ yes _ ↦ next | no _ ↦ skipped ]) ↔ (InUse z (e ∷ es) ⊎ In z used)
InUse-cons z e es used next skipped (yes p) rest unchanged =
    let put_one = put_table_id-In z (argument (codes "tableId") e) used in
    (
      (λ i. elim (rest.0 i) [
        | inl u ↦ inl (inr u)
        | inr j ↦ elim (put_one.0 j) [
          | inl s ↦ inl (inl (p, argument-some (codes "tableId") e (float z) s))
          | inr k ↦ inr k
        ]
      ]),
      elim [
        | inl (inl (q, (args, s, l))) ↦ rest.1 (inr (put_one.1 (inl (rw s l))))
        | inl (inr u) ↦ rest.1 (inl u)
        | inr i ↦ rest.1 (inr (put_one.1 (inr i)))
      ],
    )
InUse-cons z e es used next skipped (no np) rest unchanged = (
  (λ i. elim (unchanged.0 i) [ inl u ↦ inl (inr u) | inr j ↦ inr j ]),
  elim [
    | inl (inl (q, r)) ↦ absurd (np q)
    | inl (inr u) ↦ unchanged.1 (inl u)
    | inr i ↦ unchanged.1 (inr i)
  ],
)

used_table_ids-InUse :
    (z : ℤ) (es : List NetworkSelectionElement) (used : List ℤ)
    → In z (used_table_ids es used) ↔ (InUse z es ⊎ In z used)
unfolding used_table_ids
used_table_ids-InUse z [] used = ((λ i. inr i), elim [ inl e ↦ absurd e | inr i ↦ i ])
used_table_ids-InUse z (e ∷ es) used =
    InUse-cons z e es used _ _ (text_discrete e.name policy_route_nad_name)
      (used_table_ids-InUse z es (put_table_id (argument (codes "tableId") e) used))
      (used_table_ids-InUse z es used)

-- The table that getFreeTableID gives is the one of no policy route among the given attachments, is
-- 5000 or more, and every smaller one from 5000 on is the one of a policy route.
pub get_free_table_id-free :
    (es : List NetworkSelectionElement)
    → (¬ InUse (pos (get_free_table_id es)) es)
      × (5000 ≤ get_free_table_id es)
      × ((j : ℕ) → 5000 ≤ j → j < get_free_table_id es → InUse (pos j) es)
unfolding get_free_table_id
get_free_table_id-free es =
    let used = used_table_ids es [] in
    let (l, u, below, _) = free_table_id_from_below (length used) 5000 used in
    (
      (λ u. free_table_id_from-free 5000 used ((used_table_ids-InUse _ es []).1 (inl u))),
      l,
      λ j lj jr. elim ((used_table_ids-InUse (pos j) es []).0 (below j lj jr)) [
        | inl u ↦ u
        | inr i ↦ absurd i
      ],
    )
