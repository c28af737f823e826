-- ===== src/Manager/Flows/Given.antt =====
-- The flows that `SetFlows` is asked for, and that it leaves no others.
use l_3_4_gateway_api_poc.Base.{
  ◌≡◌, refl, ap, sym, ◌∙◌, Option, none, some, List, [], ◌∷◌, ◌++◌, codes, Text, text_discrete,
  lookup, insert, lookup-insert, All, ite, Option-cases, inl, inr,
}
use l_3_4_gateway_api_poc.Manager.{Manager, FlowImpl, L34Route, LoadBalancerInstance, flow_name}
use l_3_4_gateway_api_poc.Manager.Flows.{
  Flows, head_or_none, get_service_for_l34_route, new_flows, set_flows,
}
use l_3_4_gateway_api_poc.Manager.Flows.Exact.{or_else, IsFlowNamed, set_flows-new_flows}

or_else-ite :
    {A P : Type 0} (o : Option A) (d : Dec P) (a : A) (b : Option A)
    → or_else o (ite d (some a) b) ≡ or_else (or_else o (ite d (some a) none)) b
or_else-ite none (yes p) a b = refl
or_else-ite none (no np) a b = refl
or_else-ite (some x) d a b = refl

module _ (lb : LoadBalancerInstance) where
  open lb use {World, ServiceInstance, get_name}

  -- The flow of a name that a route gives: the first backend is a service, and the name is the
  -- route's, a dot and the service's.
  abbrev pub flow_from :
      List (Text × ServiceInstance) → Text → L34Route → Option (FlowImpl ServiceInstance)
  flow_from services x route = elim (route.backend_refs) [
    | [] ↦ none
    | backend ∷ others ↦ elim (lookup text_discrete backend services) [
      | none ↦ none
      | some service ↦
          ite (text_discrete x (route.name ++ codes "." ++ get_name service))
            (some (record { l34_route = route; service = service })) none
    ]
  ]

  -- The one of the last route that gives one.
  abbrev pub last_flow :
      List (Text × ServiceInstance) → Text → List L34Route → Option (FlowImpl ServiceInstance)
  last_flow services x [] = none
  last_flow services x (route ∷ routes) =
      or_else (last_flow services x routes) (flow_from services x route)

  -- The same from the service that the code finds.
  abbrev flow_with : Text → L34Route → Option ServiceInstance → Option (FlowImpl ServiceInstance)
  flow_with x route none = none
  flow_with x route (some service) =
      ite (text_discrete x (flow_name lb (record { l34_route = route; service = service })))
        (some (record { l34_route = route; service = service })) none

  flow_from-refs :
      (services : List (Text × ServiceInstance)) (x : Text) (route : L34Route) (refs : List Text)
      → elim refs [
        | [] ↦ none
        | backend ∷ others ↦ elim (lookup text_discrete backend services) [
          | none ↦ none
          | some service ↦
              ite
                (text_discrete x (route.name ++ codes "." ++ get_name service))
                (some (record { l34_route = route; service = service }))
                none
        ]
      ]
        ≡ flow_with x route (elim (head_or_none refs) [
          | none ↦ none
          | some name ↦ lookup text_discrete name services
        ])
  unfolding flow_name
  flow_from-refs services x route [] = refl
  flow_from-refs services x route (backend ∷ others) =
      elim (Option-cases (lookup text_discrete backend services)) [
        | inl n ↦ rw (n) refl
        | inr (service, t) ↦ rw (t) refl
      ]

  flow_from-service :
      (services : List (Text × ServiceInstance)) (x : Text) (route : L34Route)
      → flow_from services x route ≡ flow_with x route (get_service_for_l34_route lb services route)
  unfolding get_service_for_l34_route
  flow_from-service services x route = flow_from-refs services x route route.backend_refs

  or_else-none : (o : Option (FlowImpl ServiceInstance)) → or_else o none ≡ o
  or_else-none none = refl
  or_else-none (some f) = refl

  new_flows-last_flow :
      (services : List (Text × ServiceInstance)) (x : Text) (routes : List L34Route)
      (flows : Flows lb)
      → lookup text_discrete x (new_flows lb services routes flows)
        ≡ or_else (last_flow services x routes) (lookup text_discrete x flows)
  unfolding new_flows
  new_flows-last_flow services x [] flows = refl
  new_flows-last_flow services x (route ∷ routes) flows =
      let given = flow_from-service services x route in
      let last = last_flow services x routes in
      elim (Option-cases (get_service_for_l34_route lb services route)) [
        | inl e ↦
            let nothing : flow_from services x route ≡ none = given ∙ rw (e) refl in
            rw (e, new_flows)
              (new_flows-last_flow services x routes flows
                ∙ ap (λ o. or_else o (lookup text_discrete x flows))
                    (sym (ap (or_else last) nothing ∙ or_else-none last)))
        | inr (service, e) ↦
            let flow : FlowImpl ServiceInstance = record { l34_route = route; service = service } in
            let put = lookup-insert text_discrete (flow_name lb flow) x flow flows in
            let ih =
              new_flows-last_flow services x routes
                (insert text_discrete (flow_name lb flow) flow flows) in
            let one : flow_from services x route
                ≡ ite (text_discrete x (flow_name lb flow)) (some flow) none =
              given ∙ rw (e) refl in
            rw (e, new_flows)
              (ih
                ∙ ap (or_else last) put
                ∙ or_else-ite last (text_discrete x (flow_name lb flow)) flow
                    (lookup text_discrete x flows)
                ∙ ap (λ o. or_else (or_else last o) (lookup text_discrete x flows)) (sym one))
      ]

  -- After SetFlows, whatever failed, the flow under a name is the one of the last given route whose
  -- first backend is a service of the manager and whose name, a dot and the service's name make
  -- that name, and there is none where there is no such route, if the flows stood under their own
  -- names before.
  pub set_flows-last_flow :
      (routes : List L34Route) (m : Manager ServiceInstance) (w : World) (x : Text)
      → All (IsFlowNamed lb) m.flows
      → lookup text_discrete x (set_flows lb routes m w).0.flows ≡ last_flow m.services x routes
  unfolding lookup
  set_flows-last_flow routes m w x own =
      set_flows-new_flows lb routes m w x own
      ∙ new_flows-last_flow m.services x routes []
      ∙ or_else-none (last_flow m.services x routes)
