-- ===== src/Endpoints/Complete.antt =====
-- Every new endpoint gets an identifier while there is room for all of them.
use l_3_4_gateway_api_poc.Base.{
  ℕ, suc, ◌+◌, ◌≤◌, ◌≡◌, refl, ap, sym, none, some, List, [], ◌∷◌, Text, text_discrete, ℤ, pos,
  arith, length, In, Distinct, has, has-In, Bool-cases, Option-cases, inl, inr, lookup, insert,
  length-Distinct, if◌then◌else◌,
}
use l_3_4_gateway_api_poc.Endpoints.{Endpoint, get_identifier, set_identifier}
use l_3_4_gateway_api_poc.Endpoints.Free.{free_identifier_enough}
use l_3_4_gateway_api_poc.Endpoints.Identifiers.{
  keep_identifiers, give_identifiers, assign_identifiers, uids,
}
use l_3_4_gateway_api_poc.Endpoints.Stable.{In-uids, keep_identifiers_kept}

-- The old endpoints whose identifiers are kept.
abbrev kept_endpoints : List Text → List Endpoint → List Endpoint
kept_endpoints new [] = []
kept_endpoints new (e ∷ es) = elim (get_identifier e) [
  | none ↦ kept_endpoints new es
  | some id ↦
      if has text_discrete e.uid new then e ∷ kept_endpoints new es else kept_endpoints new es
]

length-uids : (es : List Endpoint) → length (uids es) ≡ length es
length-uids [] = refl
length-uids (e ∷ es) = omega (arith, length-uids es)

length-keep_identifiers :
    (new : List Text) (old : List Endpoint) (by_uid : List (Text × ℤ)) (used : List ℤ)
    → length (keep_identifiers new old (by_uid, used)).1
      ≡ length (kept_endpoints new old) + length used
unfolding keep_identifiers
length-keep_identifiers new [] by_uid used = omega arith
length-keep_identifiers new (e ∷ es) by_uid used = elim (Option-cases (get_identifier e)) [
  | inl n ↦ rw (n, keep_identifiers, kept_endpoints) (length-keep_identifiers new es by_uid used)
  | inr (id, s) ↦ elim (Bool-cases (has text_discrete e.uid new)) [
    | inl p ↦
        rw (s, keep_identifiers, kept_endpoints)
          (rw (p, keep_identifiers, kept_endpoints)
            (omega (
              arith,
              length-keep_identifiers new es (insert text_discrete e.uid id by_uid) (id ∷ used),
            )))
    | inr p ↦
        rw (s, keep_identifiers, kept_endpoints)
          (rw (p, keep_identifiers, kept_endpoints) (length-keep_identifiers new es by_uid used))
  ]
]

-- A UID of a kept endpoint is that of an old endpoint with an identifier, and is among the new.
abbrev IsKept : List Text → List Endpoint → Text → Type 0
IsKept new old u =
    (o : Endpoint) × In o old × (o.uid ≡ u) × In u new × ((i : ℤ) × (get_identifier o ≡ some i))

later-IsKept :
    (new : List Text) (e : Endpoint) (old : List Endpoint) (u : Text)
    → IsKept new old u
    → IsKept new (e ∷ old) u
later-IsKept new e old u (o, m, same, there, id) = (o, inr m, same, there, id)

kept_endpoints-IsKept :
    (new : List Text) (old : List Endpoint) (u : Text)
    → In u (uids (kept_endpoints new old))
    → IsKept new old u
kept_endpoints-IsKept new [] u m = absurd m
kept_endpoints-IsKept new (e ∷ es) u m = elim (Option-cases (get_identifier e)) [
  | inl n ↦
      later-IsKept new e es u (kept_endpoints-IsKept new es u (rw (n, uids, kept_endpoints) at m))
  | inr (id, s) ↦ elim (Bool-cases (has text_discrete e.uid new)) [
    | inl p ↦
        let m1 : In u (e.uid ∷ uids (kept_endpoints new es)) =
          rw (p, uids, kept_endpoints) at (rw (s, uids, kept_endpoints) at m) in
        elim m1 [
          | inl q ↦ (e, inl refl, sym q, rw q (has-In text_discrete e.uid new p), (id, s))
          | inr k ↦ later-IsKept new e es u (kept_endpoints-IsKept new es u k)
        ]
    | inr p ↦
        let m1 : In u (uids (kept_endpoints new es)) =
          rw (p, uids, kept_endpoints) at (rw (s, uids, kept_endpoints) at m) in
        later-IsKept new e es u (kept_endpoints-IsKept new es u m1)
  ]
]

kept_endpoints-Distinct :
    (new : List Text) (old : List Endpoint)
    → Distinct (uids old)
    → Distinct (uids (kept_endpoints new old))
kept_endpoints-Distinct new [] d = tt
kept_endpoints-Distinct new (e ∷ es) (alone, d) =
    let rest = kept_endpoints-Distinct new es d in
    let apart : ¬ In e.uid (uids (kept_endpoints new es)) = λ m.
      let (o, mo, same, _, _) = kept_endpoints-IsKept new es e.uid m in
      alone (rw same at (In-uids o es mo)) in
    elim (Option-cases (get_identifier e)) [
      | inl n ↦ rw (n, uids, kept_endpoints) rest
      | inr (id, s) ↦ elim (Bool-cases (has text_discrete e.uid new)) [
        | inl p ↦ rw (s, uids, kept_endpoints) (rw (p, uids, kept_endpoints) (apart, rest))
        | inr p ↦ rw (s, uids, kept_endpoints) (rw (p, uids, kept_endpoints) rest)
      ]
    ]

-- The UIDs that have an identifier, and how many have none.
abbrev holders : List (Text × ℤ) → List Text → List Text
holders by_uid [] = []
holders by_uid (u ∷ us) = elim (lookup text_discrete u by_uid) [
  | none ↦ holders by_uid us
  | some i ↦ u ∷ holders by_uid us
]

abbrev missing : List (Text × ℤ) → List Text → ℕ
missing by_uid [] = 0
missing by_uid (u ∷ us) = elim (lookup text_discrete u by_uid) [
  | none ↦ suc (missing by_uid us)
  | some i ↦ missing by_uid us
]

holders-missing :
    (by_uid : List (Text × ℤ)) (us : List Text)
    → length (holders by_uid us) + missing by_uid us ≡ length us
holders-missing by_uid [] = omega arith
holders-missing by_uid (u ∷ us) = elim (Option-cases (lookup text_discrete u by_uid)) [
  | inl n ↦ rw (n, holders, missing) (omega (arith, holders-missing by_uid us))
  | inr (i, s) ↦ rw (s, holders, missing) (omega (arith, holders-missing by_uid us))
]

In-holders :
    (by_uid : List (Text × ℤ)) (us : List Text) (u : Text) (i : ℤ)
    → In u us
    → lookup text_discrete u by_uid ≡ some i
    → In u (holders by_uid us)
In-holders by_uid [] u i m h = absurd m
In-holders by_uid (v ∷ us) u i (inl p) h = rw (← p) (rw (h, In, holders) (inl refl))
In-holders by_uid (v ∷ us) u i (inr m) h =
    let rest = In-holders by_uid us u i m h in
    elim (Option-cases (lookup text_discrete v by_uid)) [
      | inl n ↦ rw (n, In, holders) rest
      | inr (j, s) ↦ rw (s, In, holders) (inr rest)
    ]

give_identifiers_enough :
    (by_uid : List (Text × ℤ)) (n : ℕ) (es : List Endpoint) (used : List ℤ)
    → length used + missing by_uid (uids es) ≤ n
    → uids (give_identifiers by_uid n es used) ≡ uids es
unfolding give_identifiers set_identifier
give_identifiers_enough by_uid n [] used h = refl
give_identifiers_enough by_uid n (e ∷ es) used h =
    elim (Option-cases (lookup text_discrete e.uid by_uid)) [
      | inr (id, s) ↦
          let ih = give_identifiers_enough by_uid n es used (rw (s, uids, missing) at h) in
          rw (s, give_identifiers) (ap (λ us. e.uid ∷ us) ih)
      | inl s ↦
          let h1 : length used + suc (missing by_uid (uids es)) ≤ n = rw (s, uids, missing) at h in
          let (r, found) = free_identifier_enough used n (omega arith) in
          let ih = give_identifiers_enough by_uid n es (pos r ∷ used) (omega arith) in
          rw (s, give_identifiers) (rw (found, give_identifiers) (ap (λ us. e.uid ∷ us) ih))
    ]

-- Where the new endpoints are no more than the maximum and the old endpoints have different UIDs,
-- no new endpoint is left out: the result has the UIDs of the new endpoints in their order.
pub assign_identifiers_enough :
    (old new : List Endpoint) (max_endpoints : ℕ)
    → Distinct (uids old)
    → length (uids new) ≤ max_endpoints
    → uids (assign_identifiers old new max_endpoints) ≡ uids new
unfolding assign_identifiers
assign_identifiers_enough old new n d room =
    let taken = keep_identifiers (uids new) old ([], []) in
    let subset : (u : Text)
        → In u (uids (kept_endpoints (uids new) old))
        → In u (holders taken.0 (uids new)) =
      λ u m.
        let (o, mo, same, there, (i, g)) = kept_endpoints-IsKept (uids new) old u m in
        In-holders taken.0 (uids new) u i there
          (rw same at (keep_identifiers_kept (uids new) old [] [] o i d mo (rw same there) g)) in
    let count =
      length-Distinct text_discrete (uids (kept_endpoints (uids new) old))
        (holders taken.0 (uids new)) (kept_endpoints-Distinct (uids new) old d) subset in
    give_identifiers_enough _ n new _ (
      omega (
        arith,
        count,
        length-uids (kept_endpoints (uids new) old),
        length-keep_identifiers (uids new) old [] [],
        holders-missing taken.0 (uids new),
      ))
