-- ===== src/Endpoints/Merged.antt =====
-- What is in two slices that are merged.
use l_3_4_gateway_api_poc.Base.{
  ◌≡◌, refl, ◌∙◌, Option, none, some, List, [], ◌∷◌, ◌++◌, Text, text_discrete, lookup, insert,
  lookup-insert, arith, In, Distinct, ite, if_neg, Option-cases, inl, inr,
}
use l_3_4_gateway_api_poc.Endpoints.{Endpoint}
use l_3_4_gateway_api_poc.Endpoints.Identifiers.{uids}
use l_3_4_gateway_api_poc.Endpoints.Merge.{Endpoints, by_uid, merge_endpoint, merge_into}

-- The endpoint of a UID.
abbrev pub find : Text → List Endpoint → Option Endpoint
find u [] = none
find u (e ∷ es) = ite (text_discrete u e.uid) (some e) (find u es)

-- One endpoint of the first slice and one of the second, of the same UID.
abbrev pub merged : Option Endpoint → Option Endpoint → Option Endpoint
merged none b = b
merged (some a) none = some a
merged (some a) (some b) = some (record {
  target_ref = a.target_ref;
  ready = a.ready;
  addresses = a.addresses ++ b.addresses;
  zone = elim (a.zone) [ none ↦ b.zone | some zone ↦ some zone ];
})

abbrev or_else : Option Endpoint → Option Endpoint → Option Endpoint
or_else none b = b
or_else (some a) b = some a

find-none : (u : Text) (es : List Endpoint) → ¬ In u (uids es) → find u es ≡ none
find-none u [] h = refl
find-none u (e ∷ es) h =
    if_neg (text_discrete u e.uid) (λ p. h (inl p)) _ _ ∙ find-none u es (λ m. h (inr m))

by_uid-lookup :
    (u : Text) (es : List Endpoint) (m : Endpoints)
    → Distinct (uids es)
    → lookup text_discrete u (by_uid es m) ≡ or_else (find u es) (lookup text_discrete u m)
unfolding by_uid
by_uid-lookup u [] m d = refl
by_uid-lookup u (e ∷ es) m (alone, d) =
    let rest = by_uid-lookup u es (insert text_discrete e.uid e m) d in
    let put = lookup-insert text_discrete e.uid u e m in
    elim (text_discrete u e.uid) [
      | yes p ↦
          let gone : find u es ≡ none = find-none u es (λ i. alone (rw p at i)) in
          ground (arith, rest, put, gone)
      | no ne ↦ ground (arith, rest, put)
    ]

merge_into-lookup :
    (u : Text) (es : List Endpoint) (m : Endpoints)
    → Distinct (uids es)
    → lookup text_discrete u (merge_into es m) ≡ merged (lookup text_discrete u m) (find u es)
unfolding merge_into
merge_into-lookup u [] m d = elim (Option-cases (lookup text_discrete u m)) [
  | inl n ↦ rw n refl
  | inr (x, s) ↦ rw s refl
]
merge_into-lookup u (e ∷ es) m (alone, d) = elim (Option-cases (lookup text_discrete e.uid m)) [
  | inl n ↦
      let rest = merge_into-lookup u es (insert text_discrete e.uid e m) d in
      let put = lookup-insert text_discrete e.uid u e m in
      elim (text_discrete u e.uid) [
        | yes p ↦
            let gone = find-none u es (λ i. alone (rw p at i)) in
            let same : lookup text_discrete u m ≡ lookup text_discrete e.uid m = rw p refl in
            ground (arith, rest, put, gone, same)
        | no ne ↦ ground (arith, rest, put)
      ]
  | inr (x, s) ↦
      let rest = merge_into-lookup u es (insert text_discrete e.uid (merge_endpoint x e) m) d in
      let put = lookup-insert text_discrete e.uid u (merge_endpoint x e) m in
      elim (text_discrete u e.uid) [
        | yes p ↦
            let gone = find-none u es (λ i. alone (rw p at i)) in
            let same : lookup text_discrete u m ≡ lookup text_discrete e.uid m = rw p refl in
            ground (arith, rest, put, gone, same)
        | no ne ↦ ground (arith, rest, put)
      ]
]

-- The merged map of two slices, each without a repeated UID, has for every UID the endpoint of
-- either slice, or for a UID of both the first one's with the second one's addresses behind its own
-- and the second one's zone where it has none, and all else as in the first one.
pub merge_into-by_uid :
    (u : Text) (a b : List Endpoint)
    → Distinct (uids a)
    → Distinct (uids b)
    → lookup text_discrete u (merge_into b (by_uid a [])) ≡ merged (find u a) (find u b)
unfolding lookup
merge_into-by_uid u a b da db =
    ground (arith, merge_into-lookup u b (by_uid a []) db, by_uid-lookup u a [] da)
