-- ===== src/Endpoints/Identifiers.antt =====
-- `getEndpointSlicesWithIdentifiers` of controllermanager/endpointslice.go.
use l_3_4_gateway_api_poc.Base.{
  ℕ, zero, suc, ◌%◌, ◌^◌, Option, none, some, List, [], ◌∷◌, map, Text, text_discrete, ℤ, pos,
  negsuc, int_discrete, atoi, lookup, insert, if◌then◌else◌, has, to_bits,
}
use l_3_4_gateway_api_poc.Net.{Addresses}
use l_3_4_gateway_api_poc.Endpoints.{
  Endpoint, EndpointSlice, ipv4, ipv6, get_identifier, set_identifier,
}
use l_3_4_gateway_api_poc.Endpoints.Merge.{Endpoints, merge_endpoint_slices, split_endpoints}

-- `getIdentifier`: the loop from `i` on, for `n` more rounds; -1 if no identifier is free.
unfoldable pub free_from : ℕ → ℕ → List ℤ → ℤ
free_from zero i used = negsuc 0
free_from (suc n) i used = if has int_discrete (pos i) used then free_from n (suc i) used else pos i

unfoldable pub free_identifier : List ℤ → ℕ → ℤ
unfolding free_from
free_identifier used max_endpoints = free_from max_endpoints 0 used

-- The identifiers by UID, and those in use.
abbrev pub Taken : Type 0
Taken = List (Text × ℤ) × List ℤ

-- The loop over the old endpoints.
unfoldable pub keep_identifiers : List Text → List Endpoint → Taken → Taken
unfolding get_identifier
keep_identifiers new [] taken = taken
keep_identifiers new (e ∷ es) (by_uid, used) = elim (get_identifier e) [
  | none ↦ keep_identifiers new es (by_uid, used)
  | some id ↦
      let kept = keep_identifiers new es (insert text_discrete e.uid id by_uid, id ∷ used) in
      let skipped = keep_identifiers new es (by_uid, used) in
      if has text_discrete e.uid new then kept else skipped
]

-- The loop over the new endpoints.
unfoldable pub give_identifiers : List (Text × ℤ) → ℕ → List Endpoint → List ℤ → List Endpoint
unfolding free_identifier set_identifier
give_identifiers by_uid max_endpoints [] used = []
give_identifiers by_uid max_endpoints (e ∷ es) used = elim (lookup text_discrete e.uid by_uid) [
  | some id ↦ set_identifier e id ∷ give_identifiers by_uid max_endpoints es used
  | none ↦ elim (free_identifier used max_endpoints) [
    | negsuc k ↦ give_identifiers by_uid max_endpoints es used
    | pos id ↦ set_identifier e (pos id) ∷ give_identifiers by_uid max_endpoints es (pos id ∷ used)
  ]
]

abbrev pub uids : List Endpoint → List Text
uids = map (λ e. e.uid)

-- The endpoints with identifiers, from the merged old and the merged new ones.
unfoldable pub assign_identifiers : List Endpoint → List Endpoint → ℕ → List Endpoint
unfolding keep_identifiers give_identifiers
assign_identifiers old new max_endpoints =
    let (by_uid, used) = keep_identifiers (uids new) old ([], []) in
    give_identifiers by_uid max_endpoints new used

-- `maxEndpoints` from the label of a service.
unfoldable pub max_endpoints_of : Option Text → ℕ
max_endpoints_of none = 100
max_endpoints_of (some label) = elim (atoi label) [ none ↦ 100 | some n ↦ to_bits n % 2 ^ 32 ]

unfoldable pub get_endpoint_slices_with_identifiers :
    Addresses
    → (Endpoints → Endpoints)
    → EndpointSlice
    → EndpointSlice
    → EndpointSlice
    → EndpointSlice
    → ℕ
    → EndpointSlice × EndpointSlice
unfolding merge_endpoint_slices split_endpoints assign_identifiers
get_endpoint_slices_with_identifiers addresses order old4 old6 new4 new6 max_endpoints =
    let old = merge_endpoint_slices order old4 old6 in
    let new = merge_endpoint_slices order new4 new6 in
    let final = assign_identifiers old.endpoints new.endpoints max_endpoints in
    let (four, six) = split_endpoints addresses final in
    (
      record { object_meta = new4.object_meta; endpoints = four; address_type = ipv4 },
      record { object_meta = new6.object_meta; endpoints = six; address_type = ipv6 },
    )
