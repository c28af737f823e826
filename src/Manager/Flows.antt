-- ===== src/Manager/Flows.antt =====
-- `SetFlows`.
pub mod Exact
pub mod Given
use l_3_4_gateway_api_poc.Base.{
  exists, Bool, true, false, Option, none, some, List, [], ◌∷◌, Text, text_discrete, lookup, insert,
  delete, if◌then◌else◌, map,
}
use l_3_4_gateway_api_poc.Manager.{
  Manager, FlowImpl, L34Route, LoadBalancerInstance, ManagerError, add_flow_failed,
  delete_flow_failed, flow_name,
}

abbrev pub head_or_none {ℓ} : {A : Type ℓ} → List A → Option A
head_or_none [] = none
head_or_none (x ∷ xs) = some x

module _ (lb : LoadBalancerInstance) where
  open lb use {World, ServiceInstance, add_flow, delete_flow}

  abbrev Errors : Type 0
  Errors = List ManagerError

  abbrev pub Flows : Type 0
  Flows = List (Text × FlowImpl ServiceInstance)

  -- `getServiceForL34Route`
  unfoldable pub get_service_for_l34_route :
      List (Text × ServiceInstance) → L34Route → Option ServiceInstance
  get_service_for_l34_route services route = elim (head_or_none route.backend_refs) [
    | none ↦ none
    | some name ↦ lookup text_discrete name services
  ]

  -- The flows of the routes that have a service, by their names.
  unfoldable pub new_flows : List (Text × ServiceInstance) → List L34Route → Flows → Flows
  unfolding get_service_for_l34_route flow_name
  new_flows services [] flows = flows
  new_flows services (route ∷ routes) flows = elim (get_service_for_l34_route services route) [
    | none ↦ new_flows services routes flows
    | some service ↦
        let flow : FlowImpl ServiceInstance = record { l34_route = route; service = service } in
        new_flows services routes (insert text_discrete (flow_name lb flow) flow flows)
  ]

  -- The loop over `m.flows`, which deletes from it: the first list is what the loop has still to
  -- see.
  unfoldable pub delete_flows : Flows → Flows → Flows → Errors → World → Flows × Errors × World
  unfolding flow_name
  delete_flows new [] flows errors w = (flows, errors, w)
  delete_flows new ((_, flow) ∷ old) flows errors w =
      let name = flow_name lb flow in
      let (deleted, w1) = delete_flow flow.service flow w in
      let errors1 = if deleted then errors else delete_flow_failed ∷ errors in
      let skipped = delete_flows new old flows errors w in
      let removed = delete_flows new old (delete text_discrete name flows) errors1 w1 in
      if exists name new then skipped else removed

  -- The loop over `newFlows`.
  unfoldable pub add_flows : Flows → Flows → Errors → World → Flows × Errors × World
  unfolding flow_name
  add_flows [] flows errors w = (flows, errors, w)
  add_flows ((_, flow) ∷ new) flows errors w =
      let (added, w1) = add_flow flow.service flow w in
      let errors1 = if added then errors else add_flow_failed ∷ errors in
      add_flows new (insert text_discrete (flow_name lb flow) flow flows) errors1 w1

  unfoldable pub set_flows :
      List L34Route → Manager ServiceInstance → World → Manager ServiceInstance × Errors × World
  unfolding new_flows delete_flows add_flows
  set_flows routes m w =
      let new = new_flows m.services routes [] in
      let (flows1, errors1, w1) = delete_flows new m.flows m.flows [] w in
      let (flows2, errors2, w2) = add_flows new flows1 errors1 w1 in
      (record m { flows = flows2 }, errors2, w2)
