-- ===== src/Manager/Tests.antt =====
-- Runs of the manager on a load balancer on which every call succeeds.
use l_3_4_gateway_api_poc.Base.{
  ◌↔◌, exists, delete, insert, ◌≡◌, refl, true, false, some, [], ◌∷◌, Text, codes, text_discrete,
  lookup, has, pos, arith,
}
use l_3_4_gateway_api_poc.Endpoints.{Endpoint}
use l_3_4_gateway_api_poc.Manager.{Manager, L34Route, LoadBalancerInstance, KeepsNames}
use l_3_4_gateway_api_poc.Manager.Flows.{set_flows}
use l_3_4_gateway_api_poc.Manager.Flows.Given.{last_flow, set_flows-last_flow}
use l_3_4_gateway_api_poc.Manager.Services.{set_services}
use l_3_4_gateway_api_poc.Manager.Services.Consistent.{IsConsistent, set_services-IsConsistent}
use l_3_4_gateway_api_poc.Manager.Services.Names.{set_services-exists}
use l_3_4_gateway_api_poc.Manager.Slices.{same_string_slice}
use l_3_4_gateway_api_poc.Manager.Slices.Counts.{count, same_string_slice-counts}
use l_3_4_gateway_api_poc.Manager.Targets.{set_endpoints}
use l_3_4_gateway_api_poc.Manager.Targets.Again.{set_endpoints_again}

abbrev obedient : LoadBalancerInstance
obedient = record {
  World = Unit;
  ServiceInstance = Text;
  get_name = λ s. s;
  add_service = λ name w. (some name, w);
  delete_service = λ name w. (true, w);
  add_flow = λ s f w. (true, w);
  delete_flow = λ s f w. (true, w);
  add_target = λ s ips i w. (false, w);
  delete_target = λ s ips i w. (true, w);
}

obedient-KeepsNames : KeepsNames obedient
obedient-KeepsNames name w s e = cc

abbrev managing_a : Manager Text
managing_a = record {
  services = (codes "a", codes "a") ∷ [];
  flows = [];
  endpoints = (codes "a", []) ∷ [];
}

abbrev route_a : L34Route
route_a = record {
  name = codes "r";
  backend_refs = codes "a" ∷ [];
  source_cidrs = [];
  destination_cidrs = [];
  source_ports = [];
  destination_ports = [];
  protocols = [];
  priority = pos 1;
  byte_matches = [];
}

abbrev endpoint_a : Endpoint
endpoint_a = record {
  target_ref = record {
    kind = codes "Pod";
    name = codes "a";
    namespace = codes "default";
    uid = codes "1";
  };
  ready = some true;
  addresses = codes "10.0.0.1" ∷ [];
  zone = some (codes "4");
}

same_names : same_string_slice (codes "a" ∷ codes "b" ∷ []) (codes "b" ∷ codes "a" ∷ []) ≡ true
unfolding same_string_slice lookup insert text_discrete delete
same_names = refl

other_counts :
    same_string_slice
      (codes "a" ∷ codes "a" ∷ codes "b" ∷ [])
      (codes "b" ∷ codes "a" ∷ codes "b" ∷ [])
    ≡ false
unfolding same_string_slice lookup insert text_discrete delete
other_counts = refl

same_string_slice-counts_example :
    (same_string_slice (codes "a" ∷ codes "b" ∷ []) (codes "b" ∷ codes "a" ∷ []) ≡ true)
    ↔ ((x : Text) → count x (codes "a" ∷ codes "b" ∷ []) ≡ count x (codes "b" ∷ codes "a" ∷ []))
same_string_slice-counts_example =
    same_string_slice-counts (codes "a" ∷ codes "b" ∷ []) (codes "b" ∷ codes "a" ∷ [])

set_without_error : (set_services obedient (codes "b" ∷ []) managing_a tt).1 ≡ []
unfolding set_services insert lookup exists text_discrete delete
set_without_error = refl

set_services-exists_example :
    exists (codes "a") (set_services obedient (codes "b" ∷ []) managing_a tt).0.services
    ≡ has text_discrete (codes "a") (codes "b" ∷ [])
set_services-exists_example =
    set_services-exists obedient (codes "b" ∷ []) managing_a tt (codes "a") (refl, tt)
      set_without_error

managing_a-IsConsistent : IsConsistent obedient managing_a
unfolding exists lookup
managing_a-IsConsistent = ((refl, tt), λ x. ground arith)

set_services-IsConsistent_example :
    IsConsistent obedient (set_services obedient (codes "b" ∷ []) managing_a tt).0
set_services-IsConsistent_example =
    set_services-IsConsistent obedient (codes "b" ∷ []) managing_a tt obedient-KeepsNames
      managing_a-IsConsistent

set_flows-last_flow_example :
    lookup text_discrete (codes "r.a") (set_flows obedient (route_a ∷ []) managing_a tt).0.flows
    ≡ last_flow obedient managing_a.services (codes "r.a") (route_a ∷ [])
set_flows-last_flow_example =
    set_flows-last_flow obedient (route_a ∷ []) managing_a tt (codes "r.a") tt

set_endpoints_again_example :
    let first = (set_endpoints obedient (codes "a") (endpoint_a ∷ []) managing_a tt).0 in
    set_endpoints obedient (codes "a") (endpoint_a ∷ []) first tt ≡ (first, [], tt)
unfolding lookup text_discrete
set_endpoints_again_example =
    set_endpoints_again obedient (codes "a") (endpoint_a ∷ []) [] managing_a (codes "a") tt tt refl
      refl
