-- ===== src/Endpoints/Merge.antt =====
-- pkg/endpointslice: the endpoints of pods, and the slices of both families merged and split.
use l_3_4_gateway_api_poc.Base.{
  Bool, true, false, none, some, List, [], ◌∷◌, ◌++◌, map, Text, text_discrete, lookup, insert,
  if◌then◌else◌,
}
use l_3_4_gateway_api_poc.Net.{Addresses, is_v4}
use l_3_4_gateway_api_poc.Endpoints.{
  AddressType, ipv4, ipv6, untyped, TargetRef, Endpoint, EndpointSlice,
}

abbrev pub Endpoints : Type 0
Endpoints = List (Text × Endpoint)

-- `for _, endpnt := range endpoints { m[string(endpnt.TargetRef.UID)] = &endpnt }`
unfoldable pub by_uid : List Endpoint → Endpoints → Endpoints
by_uid [] m = m
by_uid (e ∷ es) m = by_uid es (insert text_discrete e.uid e m)

-- What becomes of an endpoint of the first slice that is in the second one too.
abbrev pub merge_endpoint : Endpoint → Endpoint → Endpoint
merge_endpoint existing current = record existing {
  addresses = existing.addresses ++ current.addresses;
  zone = elim (existing.zone) [ none ↦ current.zone | some zone ↦ some zone ];
}

unfoldable pub merge_into : List Endpoint → Endpoints → Endpoints
merge_into [] m = m
merge_into (e ∷ es) m = elim (lookup text_discrete e.uid m) [
  | none ↦ merge_into es (insert text_discrete e.uid e m)
  | some existing ↦ merge_into es (insert text_discrete e.uid (merge_endpoint existing e) m)
]

abbrev pub values {ℓ} : {K V : Type ℓ} → List (K × V) → List V
values = map (λ e. e.1)

-- `MergeEndpointSlices` on slices that are not nil; `order` is the order of the iteration over
-- the map.
unfoldable pub merge_endpoint_slices :
    (Endpoints → Endpoints) → EndpointSlice → EndpointSlice → EndpointSlice
unfolding by_uid merge_into
merge_endpoint_slices order a b = record {
  object_meta = a.object_meta;
  endpoints = values (order (merge_into b.endpoints (by_uid a.endpoints [])));
  address_type = untyped;
}

unfoldable pub pod_ready : List Bool → Bool → Bool
pod_ready [] running = running
pod_ready (ready ∷ containers) running = if ready then pod_ready containers running else false

-- What is read of `v1.Pod`: the reference to it, whether each container is ready, and whether the
-- phase is `PodRunning`.
pub record Pod : Type 0 where
  pub pod_ref : TargetRef
  pub containers : List Bool
  pub running : Bool

module _ (addresses : Addresses) where
  open addresses use {parse_ip, ip_string}

  -- The addresses of a family, as `SplitEndpointSlices` writes them: IPv4, then IPv6.
  unfoldable pub split_addresses : List Text → List Text × List Text
  split_addresses [] = ([], [])
  split_addresses (address ∷ rest) =
      let (four, six) = split_addresses rest in
      elim (parse_ip address) [
        | none ↦ (four, six)
        | some ip ↦ if is_v4 ip then (ip_string ip ∷ four, six) else (four, ip_string ip ∷ six)
      ]

  -- An endpoint is kept where it has an address.
  abbrev pub keep_endpoint : Endpoint → List Text → List Endpoint → List Endpoint
  keep_endpoint e [] es = es
  keep_endpoint e (a ∷ as') es = record e { addresses = a ∷ as' } ∷ es

  unfoldable pub split_endpoints : List Endpoint → List Endpoint × List Endpoint
  unfolding split_addresses
  split_endpoints [] = ([], [])
  split_endpoints (e ∷ es) =
      let (four, six) = split_addresses e.addresses in
      let (fours, sixes) = split_endpoints es in
      (keep_endpoint e four fours, keep_endpoint e six sixes)

  -- `getIPsFunc` without its error, which is not read, and whether an address is of a family.
  abbrev pub is_of : AddressType → Text → Bool
  is_of family ip = elim (parse_ip ip) [
    | none ↦ false
    | some parsed ↦ elim family [
      | ipv4 ↦ is_v4 parsed
      | ipv6 ↦ if is_v4 parsed then false else true
      | untyped ↦ false
    ]
  ]

  unfoldable pub of_family : AddressType → List Text → List Text
  of_family family [] = []
  of_family family (ip ∷ ips) =
      let rest = of_family family ips in if is_of family ip then ip ∷ rest else rest

  unfoldable pub get_endpoints : (Pod → List Text) → AddressType → List Pod → List Endpoint
  unfolding of_family pod_ready
  get_endpoints get_ips family [] = []
  get_endpoints get_ips family (pod ∷ pods) =
      let endpoint : Endpoint = record {
        target_ref = pod.pod_ref;
        ready = some (pod_ready pod.containers pod.running);
        addresses = [];
        zone = none;
      } in
      keep_endpoint endpoint (of_family family (get_ips pod)) (get_endpoints get_ips family pods)
