-- ===== src/Endpoints/Free.antt =====
-- The identifier that a new endpoint gets.
use l_3_4_gateway_api_poc.Base.{
  ℕ, zero, suc, ◌+◌, ◌≤◌, ◌<◌, ◌≡◌, refl, List, [], ◌∷◌, ℤ, pos, negsuc, int_discrete, arith,
  length, In, Distinct, has, has-In, has_not-In, length-Distinct, Bool-cases, ◌⊎◌, inl, inr,
  ℕ_discrete,
}
use l_3_4_gateway_api_poc.Endpoints.Identifiers.{free_from, free_identifier}

free_from-pos :
    (n i r : ℕ) (used : List ℤ)
    → free_from n i used ≡ pos r
    → (i ≤ r) × (r < i + n) × (¬ In (pos r) used) × ((j : ℕ) → i ≤ j → j < r → In (pos j) used)
unfolding free_from
free_from-pos zero i r used h = absurd (cc)
free_from-pos (suc n) i r used h = elim (Bool-cases (has int_discrete (pos i) used)) [
  | inl taken ↦
      let next : free_from n (suc i) used ≡ pos r = ground arith in
      let (l, u, free, below) = free_from-pos n (suc i) r used next in
      (
        omega arith,
        omega arith,
        free,
        λ j lj jr. elim (ℕ_discrete j i) [
          | yes e ↦ rw e (has-In int_discrete (pos i) used taken)
          | no ne ↦ below j (omega arith) jr
        ],
      )
  | inr unused ↦
      let here : i ≡ r = ground arith in
      (
        omega arith,
        omega arith,
        rw (← here) (has_not-In int_discrete (pos i) used unused),
        λ j lj jr. absurd (omega arith),
      )
]

free_from-negsuc :
    (n i k : ℕ) (used : List ℤ)
    → free_from n i used ≡ negsuc k
    → (j : ℕ) → i ≤ j
    → j < i + n
    → In (pos j) used
unfolding free_from
free_from-negsuc zero i k used h j l u = absurd (omega arith)
free_from-negsuc (suc n) i k used h j l u = elim (Bool-cases (has int_discrete (pos i) used)) [
  | inl taken ↦
      let next : free_from n (suc i) used ≡ negsuc k = ground arith in
      elim (ℕ_discrete j i) [
        | yes e ↦ rw e (has-In int_discrete (pos i) used taken)
        | no ne ↦ free_from-negsuc n (suc i) k used next j (omega arith) (omega arith)
      ]
  | inr unused ↦ absurd (ground arith)
]

-- An identifier that getIdentifier finds is below the maximum and is the least that is not in use.
pub free_identifier-pos :
    (used : List ℤ) (max_endpoints r : ℕ)
    → free_identifier used max_endpoints ≡ pos r
    → (r < max_endpoints) × (¬ In (pos r) used) × ((j : ℕ) → j < r → In (pos j) used)
unfolding free_identifier
free_identifier-pos used max_endpoints r h =
    let (l, u, free, below) = free_from-pos max_endpoints 0 r used h in
    (omega arith, free, λ j jr. below j (omega arith) jr)

-- Where getIdentifier returns a negative number, every identifier below the maximum is in use.
pub free_identifier-negsuc :
    (used : List ℤ) (max_endpoints k j : ℕ)
    → free_identifier used max_endpoints ≡ negsuc k
    → j < max_endpoints
    → In (pos j) used
unfolding free_identifier
free_identifier-negsuc used max_endpoints k j h u =
    free_from-negsuc max_endpoints 0 k used h j (omega arith) (omega arith)

abbrev numbers_below : ℕ → List ℤ
numbers_below zero = []
numbers_below (suc n) = pos n ∷ numbers_below n

length-numbers_below : (n : ℕ) → length (numbers_below n) ≡ n
length-numbers_below zero = refl
length-numbers_below (suc n) = omega (arith, length-numbers_below n)

In-numbers_below : (z : ℤ) (n : ℕ) → In z (numbers_below n) → (j : ℕ) × (z ≡ pos j) × (j < n)
In-numbers_below z zero m = absurd m
In-numbers_below z (suc n) (inl e) = (n, e, omega arith)
In-numbers_below z (suc n) (inr m) = let (j, e, u) = In-numbers_below z n m in (j, e, omega arith)

numbers_below-Distinct : (n : ℕ) → Distinct (numbers_below n)
numbers_below-Distinct zero = tt
numbers_below-Distinct (suc n) = (
  λ m. let (j, e, u) = In-numbers_below (pos n) n m in let same : n ≡ j = cc in omega arith,
  numbers_below-Distinct n,
)

pub Int-cases : (z : ℤ) → ((n : ℕ) × (z ≡ pos n)) ⊎ ((n : ℕ) × (z ≡ negsuc n))
Int-cases (pos n) = inl (n, refl)
Int-cases (negsuc n) = inr (n, refl)

-- Where fewer identifiers are in use than the maximum, getIdentifier finds one.
pub free_identifier_enough :
    (used : List ℤ) (max_endpoints : ℕ)
    → length used < max_endpoints
    → (r : ℕ) × (free_identifier used max_endpoints ≡ pos r)
free_identifier_enough used max_endpoints h =
    elim (Int-cases (free_identifier used max_endpoints)) [
      | inl found ↦ found
      | inr (k, full) ↦
          let taken : (z : ℤ) → In z (numbers_below max_endpoints) → In z used = λ z m.
            let (j, e, u) = In-numbers_below z max_endpoints m in
            rw e (free_identifier-negsuc used max_endpoints k j full u) in
          let count =
            length-Distinct int_discrete (numbers_below max_endpoints) used
              (numbers_below-Distinct max_endpoints) taken in
          absurd (omega (arith, length-numbers_below max_endpoints))
    ]
