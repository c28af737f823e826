-- ===== src/Manager/Services.antt =====
-- `SetServices`.
pub mod Names
pub mod Consistent
use l_3_4_gateway_api_poc.Base.{
  exists, Bool, true, false, Option, none, some, List, [], ◌∷◌, Text, text_discrete, lookup, insert,
  delete, if◌then◌else◌, has,
}
use l_3_4_gateway_api_poc.Manager.{
  Manager, FlowImpl, LoadBalancerInstance, ManagerError, delete_service_failed, add_service_failed,
}

-- The keys of `newServices`; a service is given by its name, and nothing else of it is read.
unfoldable pub new_services : List Text → List (Text × Text) → List (Text × Text)
new_services [] m = m
new_services (name ∷ names) m = new_services names (insert text_discrete name name m)

module _ (lb : LoadBalancerInstance) where
  open lb use {World, ServiceInstance, get_name, add_service, delete_service}

  abbrev pub Errors : Type 0
  Errors = List ManagerError

  -- The loop over `m.services`, which deletes from it: `services` are those that the loop has
  -- still to see.
  unfoldable pub delete_services :
      List (Text × Text)
      → List (Text × ServiceInstance)
      → Manager ServiceInstance
      → Errors
      → World
      → Manager ServiceInstance × Errors × World
  delete_services new [] m errors w = (m, errors, w)
  delete_services new ((_, service) ∷ services) m errors w =
      let name = get_name service in
      let (deleted, w1) = delete_service name w in
      let gone : Manager ServiceInstance = record m {
        services = delete text_discrete name m.services;
        endpoints = delete text_discrete name m.endpoints;
      } in
      let skipped = delete_services new services m errors w in
      let kept = delete_services new services m (delete_service_failed ∷ errors) w1 in
      let removed = delete_services new services gone errors w1 in
      if exists name new then skipped else if deleted then removed else kept

  -- The loop over `newServices`; the Boolean is false where it returns early.
  unfoldable pub add_services :
      List (Text × Text) → Manager ServiceInstance → World → Bool × Manager ServiceInstance × World
  add_services [] m w = (true, m, w)
  add_services ((_, name) ∷ new) m w = elim (lookup text_discrete name m.services) [
    | some _ ↦ add_services new m w
    | none ↦
        let (result, w1) = add_service name w in
        elim result [
          | none ↦ (false, m, w1)
          | some service ↦
              add_services new
                (record m {
                  services = insert text_discrete name service m.services;
                  endpoints = insert text_discrete name [] m.endpoints;
                })
                w1
        ]
  ]

  -- The loop over `m.flows`.
  unfoldable pub cleanup_flows :
      List (Text × ServiceInstance)
      → List (Text × FlowImpl ServiceInstance)
      → List (Text × FlowImpl ServiceInstance)
  cleanup_flows services [] = []
  cleanup_flows services ((name, flow) ∷ flows) =
      let rest = cleanup_flows services flows in
      if exists (get_name flow.service) services then (name, flow) ∷ rest else rest

  unfoldable pub set_services :
      List Text → Manager ServiceInstance → World → Manager ServiceInstance × Errors × World
  unfolding new_services delete_services add_services cleanup_flows
  set_services names m w =
      let new = new_services names [] in
      let (m1, errors, w1) = delete_services new m.services m [] w in
      let (added, m2, w2) = add_services new m1 w1 in
      if added
      then (record m2 { flows = cleanup_flows m2.services m2.flows }, errors, w2)
      else (m2, add_service_failed ∷ [], w2)
