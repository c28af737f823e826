-- ===== src/Manager/Targets.antt =====
-- `SetEndpoints`. Every endpoint has a `TargetRef`.
pub mod Rounds
pub mod Again
use l_3_4_gateway_api_poc.Base.{
  Bool, true, false, ◌&&◌, Option, none, some, List, [], ◌∷◌, ◌++◌, Text, text_discrete, lookup,
  insert, delete, if◌then◌else◌, ℤ, int_discrete, ite,
}
use l_3_4_gateway_api_poc.Endpoints.{Endpoint, get_identifier}
use l_3_4_gateway_api_poc.Endpoints.Merge.{by_uid}
use l_3_4_gateway_api_poc.Manager.{
  Manager, LoadBalancerInstance, ManagerError, add_target_failed, delete_target_failed,
  service_not_existing,
}
use l_3_4_gateway_api_poc.Manager.Slices.{same_string_slice}

-- `Conditions.Ready != nil && *Conditions.Ready`
abbrev pub is_ready : Endpoint → Bool
is_ready e = elim (e.ready) [ none ↦ false | some ready ↦ ready ]

abbrev pub same_identifier : ℤ → Option ℤ → Bool
same_identifier id none = false
same_identifier id (some new_id) = ite (int_discrete new_id id) true false

-- "has not changed and is still ready"
unfoldable pub is_unchanged : Endpoint → ℤ → Endpoint → Bool
unfolding get_identifier same_string_slice
is_unchanged e id new =
    same_identifier id (get_identifier new)
    && same_string_slice e.addresses new.addresses
    && is_ready new

module _ (lb : LoadBalancerInstance) (service : lb.ServiceInstance) where
  open lb use {World, add_target, delete_target}

  abbrev Errors : Type 0
  Errors = List ManagerError

  -- `removeEndpoints`: the endpoints that stay, those of the map that are still to be added, and
  -- the errors.
  unfoldable pub remove_endpoints :
      List Endpoint
      → List (Text × Endpoint)
      → World
      → List Endpoint × List (Text × Endpoint) × Errors × World
  unfolding is_unchanged
  remove_endpoints [] m w = ([], m, [], w)
  remove_endpoints (e ∷ es) m w = elim (get_identifier e) [
    | none ↦ remove_endpoints es m w
    | some id ↦
        let (deleted, w1) = delete_target service e.addresses id w in
        let (kept, m1, errors, w2) = remove_endpoints es m w1 in
        let errors1 = if deleted then errors else errors ++ delete_target_failed ∷ [] in
        let (kept2, m2, errors2, w3) = remove_endpoints es (delete text_discrete e.uid m) w in
        elim (lookup text_discrete e.uid m) [
          | none ↦ (kept, m1, errors1, w2)
          | some new ↦
              if is_unchanged e id new
              then (e ∷ kept2, m2, errors2, w3)
              else (kept, m1, errors1, w2)
        ]
  ]

  -- `addEndpoints`; an endpoint whose target could not be added is among those that it returns.
  unfoldable pub add_endpoints : List (Text × Endpoint) → World → List Endpoint × Errors × World
  unfolding get_identifier
  add_endpoints [] w = ([], [], w)
  add_endpoints ((_, e) ∷ m) w = elim (get_identifier e) [
    | none ↦ add_endpoints m w
    | some id ↦
        let (added, w1) = add_target service e.addresses id w in
        let (endpoints, errors, w2) = add_endpoints m w1 in
        let errors1 = if added then errors else errors ++ add_target_failed ∷ [] in
        let skipped = add_endpoints m w in
        if is_ready e then (e ∷ endpoints, errors1, w2) else skipped
  ]

module _ (lb : LoadBalancerInstance) where
  open lb use {World, ServiceInstance}

  -- The errors of the additions stand before those of the removals.
  unfoldable pub set_endpoints_of :
      ServiceInstance
      → Text
      → List Endpoint
      → List Endpoint
      → Manager ServiceInstance
      → World
      → Manager ServiceInstance × List ManagerError × World
  unfolding remove_endpoints add_endpoints by_uid
  set_endpoints_of service name previous endpoints m w =
      let (kept, new, errors, w1) = remove_endpoints lb service previous (by_uid endpoints []) w in
      let (added, errors1, w2) = add_endpoints lb service new w1 in
      (
        record m { endpoints = insert text_discrete name (kept ++ added) m.endpoints },
        errors1 ++ errors,
        w2,
      )

  unfoldable pub set_endpoints :
      Text
      → List Endpoint
      → Manager ServiceInstance
      → World
      → Manager ServiceInstance × List ManagerError × World
  unfolding set_endpoints_of
  set_endpoints name endpoints m w = elim (lookup text_discrete name m.services) [
    | none ↦ (m, service_not_existing ∷ [], w)
    | some service ↦ elim (lookup text_discrete name m.endpoints) [
      | none ↦ (m, service_not_existing ∷ [], w)
      | some previous ↦ set_endpoints_of service name previous endpoints m w
    ]
  ]
