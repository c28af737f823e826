-- ===== src/Manager/Targets/Again.antt =====
-- A second `SetEndpoints` with the same endpoints calls nothing.
use l_3_4_gateway_api_poc.Base.{
  ◌≡◌, refl, ◌∙◌, some, List, [], ◌++◌, append-nil, Text, text_discrete, lookup, lookup-insert,
  insert_twice, if_pos,
}
use l_3_4_gateway_api_poc.Endpoints.{Endpoint}
use l_3_4_gateway_api_poc.Endpoints.Merge.{by_uid}
use l_3_4_gateway_api_poc.Manager.{Manager, LoadBalancerInstance}
use l_3_4_gateway_api_poc.Manager.Targets.{
  remove_endpoints, add_endpoints, set_endpoints, set_endpoints_of,
}
use l_3_4_gateway_api_poc.Manager.Targets.Rounds.{
  by_uid-AreByUid, add_endpoints-idle, remove_endpoints_again,
}

module _ (lb : LoadBalancerInstance) where
  open lb use {World, ServiceInstance}

  set_endpoints_found :
      (name : Text) (es previous : List Endpoint) (m : Manager ServiceInstance)
      (service : ServiceInstance) (w : World)
      → lookup text_discrete name m.services ≡ some service
      → lookup text_discrete name m.endpoints ≡ some previous
      → set_endpoints lb name es m w ≡ set_endpoints_of lb service name previous es m w
  unfolding set_endpoints
  set_endpoints_found name es previous m service w there old =
      rw (there, set_endpoints) (rw (old, set_endpoints) refl)

  set_endpoints_of_again :
      (name : Text) (es previous : List Endpoint) (m : Manager ServiceInstance)
      (service : ServiceInstance) (w w2 : World)
      → let new = by_uid es [] in
        let first = remove_endpoints lb service previous new w in
        let stored = first.0 ++ (add_endpoints lb service first.1 first.3).0 in
        let m1 = (set_endpoints_of lb service name previous es m w).0 in
        (set_endpoints_of lb service name stored es m1 w2 ≡ (m1, [], w2))
        × (lookup text_discrete name m1.endpoints ≡ some stored)
  unfolding set_endpoints_of
  set_endpoints_of_again name es previous m service w w2 =
      let new = by_uid es [] in
      let first = remove_endpoints lb service previous new w in
      let stored = first.0 ++ (add_endpoints lb service first.1 first.3).0 in
      let again =
        remove_endpoints_again lb service previous new w w2 (by_uid-AreByUid es [] (tt, tt)) in
      let nothing = add_endpoints-idle lb service first.1 w2 in
      (
        rw again (
            rw nothing (
              rw (append-nil stored)
                (rw (insert_twice text_discrete name stored m.endpoints) refl))),
        lookup-insert text_discrete name name stored m.endpoints
            ∙ if_pos (text_discrete name name) refl (some stored)
                (lookup text_discrete name m.endpoints),
      )

  -- For a name with a service and a list of endpoints, a second SetEndpoints with the same
  -- endpoints makes no call, changes nothing and reports no error, also where the first one had
  -- errors: a target that could not be added is not tried again.
  pub set_endpoints_again :
      (name : Text) (es previous : List Endpoint) (m : Manager ServiceInstance)
      (service : ServiceInstance) (w w2 : World)
      → lookup text_discrete name m.services ≡ some service
      → lookup text_discrete name m.endpoints ≡ some previous
      → let first = (set_endpoints lb name es m w).0 in
        set_endpoints lb name es first w2 ≡ (first, [], w2)
  unfolding set_endpoints_of
  set_endpoints_again name es previous m service w w2 there old =
      let (same, listed) = set_endpoints_of_again name es previous m service w w2 in
      let m1 = (set_endpoints_of lb service name previous es m w).0 in
      rw (set_endpoints_found name es previous m service w there old)
        (set_endpoints_found name es _ m1 service w2 there listed ∙ same)
