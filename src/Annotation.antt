-- ===== src/Annotation.antt =====
-- pkg/controllers/statelessloadbalancer/podinjector/network/networkattachmentannotation.go: the
-- network attachments of a pod for the addresses and gateways of a load balancer.
pub mod Tables
pub mod Sets
pub mod Unmanaged
pub mod Tests
use l_3_4_gateway_api_poc.Base.{
  ℕ, zero, suc, ◌+◌, Bool, true, false, ◌&&◌, Option, none, some, List, [], ◌∷◌, ◌++◌, map, Text,
  codes, text_discrete, ℤ, pos, int_discrete, lookup, length, has, ite, ltb, ◌==◌, if◌then◌else◌,
}

abbrev pub vip_nad_name : Text
vip_nad_name = codes "vip"

abbrev pub policy_route_nad_name : Text
policy_route_nad_name = codes "policy-route"

-- A value of `CNIArgs`: what the JSON decoder gives, and what this code puts in. A `float` is a
-- float64 by the `int` that it converts to, `anys` is a `[]any` with `none` for what is no string,
-- and `policy_routes` is a `[]cni.PolicyRoute` by its source prefixes.
pub data Value : Type 0 where
  text : Text → Value
  float : ℤ → Value
  whole : ℤ → Value
  anys : List (Option Text) → Value
  texts : List Text → Value
  policy_routes : List Text → Value
  other : Value

abbrev pub CniArgs : Type 0
CniArgs = List (Text × Value)

-- `netdefv1.NetworkSelectionElement`; `none` is a nil `CNIArgs`.
pub record NetworkSelectionElement : Type 0 where
  pub name : Text
  pub interface_request : Text
  pub cni_args : Option CniArgs

-- A map with empty values, by its keys.
unfoldable pub put : {A : Type 0} → Discrete A → A → List A → List A
put dec x xs = if has dec x xs then xs else x ∷ xs

abbrev pub argument : Text → NetworkSelectionElement → Option Value
argument key e = elim (e.cni_args) [ none ↦ none | some args ↦ lookup text_discrete key args ]

abbrev pub put_table_id : Option Value → List ℤ → List ℤ
put_table_id (some (float n)) used = put int_discrete n used
put_table_id _ used = used

unfoldable pub used_table_ids : List NetworkSelectionElement → List ℤ → List ℤ
unfolding put
used_table_ids [] used = used
used_table_ids (e ∷ es) used =
    let next = used_table_ids es (put_table_id (argument (codes "tableId") e) used) in
    let skipped = used_table_ids es used in
    elim (text_discrete e.name policy_route_nad_name) [ yes _ ↦ next | no _ ↦ skipped ]

-- The loop from `table_id` on, for `n` more rounds.
unfoldable pub free_table_id_from : ℕ → ℕ → List ℤ → ℕ
free_table_id_from zero table_id used = table_id
free_table_id_from (suc n) table_id used =
    let rest = free_table_id_from n (suc table_id) used in
    if has int_discrete (pos table_id) used then rest else table_id

unfoldable pub get_free_table_id : List NetworkSelectionElement → ℕ
unfolding used_table_ids free_table_id_from
get_free_table_id es = let used = used_table_ids es [] in free_table_id_from (length used) 5000 used

-- The loop of `equalMapSlice`: `none` where it returns false.
unfoldable pub slice_map : List Text → List Text → List Text → Option (List Text)
unfolding put
slice_map compared [] seen = some seen
slice_map compared (x ∷ xs) seen =
    let rest = slice_map compared xs (put text_discrete x seen) in
    if has text_discrete x compared then rest else none

unfoldable pub equal_map_slice : List Text → List Text → Bool
unfolding slice_map
equal_map_slice compared slice = elim (slice_map compared slice []) [
  | none ↦ false
  | some seen ↦ length seen == length compared
]

abbrev pub put_vip : Option Value → List Text → List Text
put_vip (some (text vip)) vips = put text_discrete vip vips
put_vip _ vips = vips

abbrev pub put_texts : List (Option Text) → List Text → List Text
put_texts [] gateways = gateways
put_texts (none ∷ xs) gateways = put_texts xs gateways
put_texts (some gw ∷ xs) gateways = put_texts xs (put text_discrete gw gateways)

abbrev pub put_gateways : Option Value → List Text → List Text
put_gateways (some (anys xs)) gateways = put_texts xs gateways
put_gateways _ gateways = gateways

-- `getVIPsGatewaysFromNetworkSelectionElements`
unfoldable pub get_vips_gateways :
    List NetworkSelectionElement → List Text → List Text → List Text × List Text
unfolding put
get_vips_gateways [] vips gateways = (vips, gateways)
get_vips_gateways (e ∷ es) vips gateways =
    let vip = get_vips_gateways es (put_vip (argument (codes "vip") e) vips) gateways in
    let gateway =
      get_vips_gateways es vips (put_gateways (argument (codes "gateways") e) gateways) in
    let neither = get_vips_gateways es vips gateways in
    elim (text_discrete e.name vip_nad_name) [
      | yes _ ↦ vip
      | no _ ↦ elim (text_discrete e.name policy_route_nad_name) [
        | yes _ ↦ gateway
        | no _ ↦ neither
      ]
    ]

unfoldable pub equal_vips_gateways :
    List NetworkSelectionElement → List Text → List Text → List Text → List Text → Bool
unfolding get_vips_gateways equal_map_slice
equal_vips_gateways es vip4 vip6 gateways4 gateways6 =
    let (vips, gateways) = get_vips_gateways es [] [] in
    if length vips == length vip4 + length vip6
      && length gateways == length gateways4 + length gateways6
    then equal_map_slice vips (vip4 ++ vip6) && equal_map_slice gateways (gateways4 ++ gateways6)
    else false

-- Whether the arguments name the service proxy; a value that is no string is not equal to one.
abbrev pub is_proxy : Text → Option Value → Bool
is_proxy proxy (some (text t)) = ite (text_discrete t proxy) true false
is_proxy proxy _ = false

-- `label` is `apis.LabelServiceProxyName`.
abbrev pub is_managed : Text → Text → NetworkSelectionElement → Bool
is_managed label proxy e = is_proxy proxy (argument label e)

-- The elements for which the test has a given answer.
unfoldable pub select :
    Text → Text → Bool → List NetworkSelectionElement → List NetworkSelectionElement
select label proxy managed [] = []
select label proxy managed (e ∷ es) =
    let rest = select label proxy managed es in
    if is_managed label proxy e
    then (if managed then e ∷ rest else rest)
    else (if managed then rest else e ∷ rest)

-- `hash` is `getHashedInterfaceName`.
module _ (hash : CniArgs → Text) (label proxy : Text) where
  unfoldable pub vip_elements : List Text → List NetworkSelectionElement
  vip_elements [] = []
  vip_elements (vip ∷ vips) =
      let args : CniArgs = (label, text proxy) ∷ (codes "vip", text vip) ∷ [] in
      record { name = vip_nad_name; interface_request = hash args; cni_args = some args }
      ∷ vip_elements vips

  unfoldable pub policy_route_elements : ℕ → List Text → List Text → List NetworkSelectionElement
  policy_route_elements table_id gateways vips =
      let args : CniArgs =
        (label, text proxy)
        ∷ (codes "tableId", whole (pos table_id))
        ∷ (codes "gateways", texts gateways)
        ∷ (codes "policyRoutes", policy_routes vips)
        ∷ [] in
      if ltb 0 (length gateways) && ltb 0 (length vips)
      then record {
        name = policy_route_nad_name;
        interface_request = hash args;
        cni_args = some args;
      }
        ∷ []
      else []

  unfoldable pub get_network_attachment_annotation :
      List NetworkSelectionElement
      → List Text
      → List Text
      → List Text
      → List Text
      → List NetworkSelectionElement
  unfolding select equal_vips_gateways get_free_table_id vip_elements policy_route_elements
  get_network_attachment_annotation es vip4 vip6 gateways4 gateways6 =
      let table_id = get_free_table_id es in
      if equal_vips_gateways (select label proxy true es) vip4 vip6 gateways4 gateways6
      then es
      else select label proxy false es
        ++ vip_elements vip4
        ++ vip_elements vip6
        ++ policy_route_elements table_id gateways4 vip4
        ++ policy_route_elements table_id gateways6 vip6
