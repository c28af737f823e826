-- ===== src/Endpoints/Distinct.antt =====
-- No two endpoints get one identifier, and an endpoint keeps the one that it has.
use l_3_4_gateway_api_poc.Base.{
  ℕ, ◌≤◌, ◌^◌, ◌≡◌, refl, sym, ◌∙◌, Option, none, some, List, [], ◌∷◌, Text, text_discrete, ℤ, pos,
  arith, length, In, Distinct, has, Bool-cases, Option-cases, ◌⊎◌, inl, inr, lookup, insert,
  lookup-insert, IsInt, atoi-itoa, atoi-IsInt,
}
use l_3_4_gateway_api_poc.Endpoints.{Endpoint, get_identifier, set_identifier}
use l_3_4_gateway_api_poc.Endpoints.Free.{free_identifier-pos, Int-cases}
use l_3_4_gateway_api_poc.Endpoints.Identifiers.{
  free_identifier, keep_identifiers, give_identifiers, assign_identifiers, uids,
}

-- GetIdentifier reads back the identifier that SetIdentifier wrote, for every value of Go's type
-- int.
pub get_identifier-set_identifier :
    (e : Endpoint) (i : ℤ) → IsInt i → get_identifier (set_identifier e i) ≡ some i
unfolding get_identifier set_identifier
get_identifier-set_identifier e i h = atoi-itoa i h

get_identifier-IsInt : (e : Endpoint) (i : ℤ) → get_identifier e ≡ some i → IsInt i
unfolding get_identifier
get_identifier-IsInt e i h = elim (Option-cases (e.zone)) [
  | inl n ↦ absurd (ground arith)
  | inr (zone, s) ↦ atoi-IsInt zone i (ground arith)
]

abbrev cons_some : Option ℤ → List ℤ → List ℤ
cons_some none is = is
cons_some (some i) is = i ∷ is

-- The identifiers of the endpoints that have one.
abbrev pub identifiers : List Endpoint → List ℤ
identifiers [] = []
identifiers (e ∷ es) = cons_some (get_identifier e) (identifiers es)

-- The identifiers by UID are in use, and no two UIDs have one.
abbrev Kept : List (Text × ℤ) → List ℤ → Type 0
Kept by_uid used =
    ((u : Text) (i : ℤ) → lookup text_discrete u by_uid ≡ some i → In i used × IsInt i)
    × ((u v : Text) (i : ℤ)
        → lookup text_discrete u by_uid ≡ some i
        → lookup text_discrete v by_uid ≡ some i
        → u ≡ v)

lookup-insert_cases :
    (by_uid : List (Text × ℤ)) (uid u : Text) (id i : ℤ)
    → lookup text_discrete u (insert text_discrete uid id by_uid) ≡ some i
    → ((u ≡ uid) × (i ≡ id)) ⊎ (lookup text_discrete u by_uid ≡ some i)
lookup-insert_cases by_uid uid u id i h =
    let found = sym (lookup-insert text_discrete uid u id by_uid) ∙ h in
    elim (text_discrete u uid) [ yes e ↦ inl (e, ground arith) | no ne ↦ inr (ground arith) ]

insert-Kept :
    (by_uid : List (Text × ℤ)) (used : List ℤ) (uid : Text) (id : ℤ)
    → Kept by_uid used
    → IsInt id
    → ¬ In id used
    → Kept (insert text_discrete uid id by_uid) (id ∷ used)
insert-Kept by_uid used uid id (there, one) int free = (
  λ u i h. elim (lookup-insert_cases by_uid uid u id i h) [
    | inl (p, q) ↦ (inl q, rw q int)
    | inr q ↦ (inr (there u i q).0, (there u i q).1)
  ],
  λ u v i h g. elim (lookup-insert_cases by_uid uid u id i h) [
    | inl (p, q) ↦ elim (lookup-insert_cases by_uid uid v id i g) [
      | inl (r, s) ↦ p ∙ sym r
      | inr s ↦ absurd (free (rw (← q) (there v i s).0))
    ]
    | inr q ↦ elim (lookup-insert_cases by_uid uid v id i g) [
      | inl (r, s) ↦ absurd (free (rw (← s) (there u i q).0))
      | inr s ↦ one u v i q s
    ]
  ],
)

keep_identifiers-Kept :
    (new : List Text) (old : List Endpoint) (by_uid : List (Text × ℤ)) (used : List ℤ)
    → Kept by_uid used
    → Distinct (identifiers old)
    → ((i : ℤ) → In i (identifiers old) → ¬ In i used)
    → let taken = keep_identifiers new old (by_uid, used) in Kept taken.0 taken.1
unfolding keep_identifiers
keep_identifiers-Kept new [] by_uid used k d a = k
keep_identifiers-Kept new (e ∷ es) by_uid used k d a = elim (Option-cases (get_identifier e)) [
  | inl n ↦
      rw (n, keep_identifiers) (keep_identifiers-Kept new es by_uid used k (rw n at d) (rw n at a))
  | inr (id, s) ↦
      let (free, d1) : (¬ In id (identifiers es)) × Distinct (identifiers es) = rw s at d in
      let a1 : (i : ℤ) → In i (id ∷ identifiers es) → ¬ In i used = rw s at a in
      elim (Bool-cases (has text_discrete e.uid new)) [
        | inl there ↦
            rw (s, keep_identifiers)
              (rw (there, keep_identifiers)
                (keep_identifiers-Kept new es _ (id ∷ used)
                  (insert-Kept by_uid used e.uid id k (get_identifier-IsInt e id s)
                    (a1 id (inl refl)))
                  d1 (λ i m. elim [ inl p ↦ free (rw (← p) m) | inr q ↦ a1 i (inr m) q ])))
        | inr gone ↦
            rw (s, keep_identifiers)
              (rw (gone, keep_identifiers)
                (keep_identifiers-Kept new es by_uid used k d1 (λ i m. a1 i (inr m))))
      ]
]

used-Kept :
    (by_uid : List (Text × ℤ)) (used : List ℤ) (id : ℤ) → Kept by_uid used → Kept by_uid (id ∷ used)
used-Kept by_uid used id (there, one) = (λ u i h. (inr (there u i h).0, (there u i h).1), one)

-- An identifier that is given was kept for one of the endpoints, or was not in use.
abbrev IsGiven : List (Text × ℤ) → List ℤ → List Endpoint → ℤ → Type 0
IsGiven by_uid used es i =
    ((u : Text) × In u (uids es) × (lookup text_discrete u by_uid ≡ some i)) ⊎ (¬ In i used)

abbrev AllGiven : List (Text × ℤ) → List ℤ → List Endpoint → List Endpoint → Type 0
AllGiven by_uid used es final =
    ((i : ℤ) → In i (identifiers final) → IsGiven by_uid used es i)
    × Distinct (identifiers final)
    × (length (identifiers final) ≡ length final)

cons-AllGiven :
    (by_uid : List (Text × ℤ)) (used : List ℤ) (e : Endpoint) (es final : List Endpoint) (id : ℤ)
    → IsInt id
    → IsGiven by_uid used (e ∷ es) id
    → ¬ In id (identifiers final)
    → ((i : ℤ) → In i (identifiers final) → IsGiven by_uid used (e ∷ es) i)
    → Distinct (identifiers final)
    → length (identifiers final) ≡ length final
    → AllGiven by_uid used (e ∷ es) (set_identifier e id ∷ final)
cons-AllGiven by_uid used e es final id int given new all d n =
    rw (get_identifier-set_identifier e id int)
      ((λ i. elim [ inl p ↦ rw p given | inr m ↦ all i m ]), (new, d), omega arith)

later-IsGiven :
    (by_uid : List (Text × ℤ)) (used : List ℤ) (e : Endpoint) (es : List Endpoint) (i : ℤ)
    → IsGiven by_uid used es i
    → IsGiven by_uid used (e ∷ es) i
later-IsGiven by_uid used e es i (inl (u, m, h)) = inl (u, inr m, h)
later-IsGiven by_uid used e es i (inr free) = inr free

give_identifiers-AllGiven :
    (by_uid : List (Text × ℤ)) (max_endpoints : ℕ) (es : List Endpoint) (used : List ℤ)
    → max_endpoints ≤ 2 ^ 63
    → Kept by_uid used
    → Distinct (uids es)
    → AllGiven by_uid used es (give_identifiers by_uid max_endpoints es used)
unfolding give_identifiers
give_identifiers-AllGiven by_uid n [] used small k d = ((λ i m. absurd m), tt, refl)
give_identifiers-AllGiven by_uid n (e ∷ es) used small (there, one) (alone, d) =
    elim (Option-cases (lookup text_discrete e.uid by_uid)) [
      | inr (id, s) ↦
          let (all, distinct, len) =
            give_identifiers-AllGiven by_uid n es used small (there, one) d in
          let new : ¬ In id (identifiers (give_identifiers by_uid n es used)) = λ m.
            elim (all id m) [
              | inl (u, mu, h) ↦ alone (rw (one e.uid u id s h) mu)
              | inr free ↦ free (there e.uid id s).0
            ] in
          rw (s, give_identifiers)
            (cons-AllGiven by_uid used e es _ id (there e.uid id s).1 (inl (e.uid, inl refl, s)) new
              (λ i m. later-IsGiven by_uid used e es i (all i m)) distinct len)
      | inl s ↦ elim (Int-cases (free_identifier used n)) [
        | inr (x, full) ↦
            let (all, distinct, len) =
              give_identifiers-AllGiven by_uid n es used small (there, one) d in
            rw (s, give_identifiers)
              (rw (full, give_identifiers)
                ((λ i m. later-IsGiven by_uid used e es i (all i m)), distinct, len))
        | inl (r, found) ↦
            let (lt, free, _) = free_identifier-pos used n r found in
            let (all, distinct, len) =
              give_identifiers-AllGiven by_uid n es (pos r ∷ used) small
                (used-Kept by_uid used (pos r) (there, one)) d in
            let new : ¬ In (pos r) (identifiers (give_identifiers by_uid n es (pos r ∷ used))) =
              λ m. elim (all (pos r) m) [
                | inl (u, mu, h) ↦ free (there u (pos r) h).0
                | inr out ↦ out (inl refl)
              ] in
            rw (s, give_identifiers)
              (rw (found, give_identifiers)
                (cons-AllGiven by_uid used e es _ (pos r) (omega arith) (inr free) new
                  (λ i m. elim (all i m) [
                    | inl (u, mu, h) ↦ inl (u, inr mu, h)
                    | inr out ↦ inr (λ j. out (inr j))
                  ])
                  distinct len))
      ]
    ]

-- Where the old endpoints that have an identifier have different ones and the new endpoints have
-- different UIDs, every endpoint of the result has an identifier and no two have the same one, for
-- a maximum of up to 2^63.
pub assign_identifiers-Distinct :
    (old new : List Endpoint) (max_endpoints : ℕ)
    → max_endpoints ≤ 2 ^ 63
    → Distinct (identifiers old)
    → Distinct (uids new)
    → Distinct (identifiers (assign_identifiers old new max_endpoints))
      × (length (identifiers (assign_identifiers old new max_endpoints))
          ≡ length (assign_identifiers old new max_endpoints))
unfolding assign_identifiers lookup
assign_identifiers-Distinct old new n small d u =
    let none_kept : Kept [] [] = ((λ u i h. absurd (cc)), (λ u v i h g. absurd (cc))) in
    let kept = keep_identifiers-Kept (uids new) old [] [] none_kept d (λ i m z. z) in
    let given = give_identifiers-AllGiven _ n new _ small kept u in (given.1, given.2)
