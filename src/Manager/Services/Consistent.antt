-- ===== src/Manager/Services/Consistent.antt =====
-- The services stand under their names, and have a list of endpoints each.
use l_3_4_gateway_api_poc.Base.{
  exists, exists-delete, exists-insert, ◌≡◌, List, [], ◌∷◌, Text, text_discrete, lookup, insert,
  delete, All, insert-All, delete-All, arith, Bool-cases, Option-cases, inl, inr,
}
use l_3_4_gateway_api_poc.Manager.{
  Manager, LoadBalancerInstance, KeepsNames, ManagerError, delete_service_failed,
}
use l_3_4_gateway_api_poc.Manager.Services.{
  new_services, delete_services, add_services, set_services,
}
use l_3_4_gateway_api_poc.Manager.Services.Names.{IsNamed}

module _ (lb : LoadBalancerInstance) where
  open lb use {World, ServiceInstance, get_name, add_service, delete_service}

  abbrev pub IsConsistent : Manager ServiceInstance → Type 0
  IsConsistent m =
      All (IsNamed lb) m.services × ((x : Text) → exists x m.endpoints ≡ exists x m.services)

  delete_services-IsConsistent :
      (new : List (Text × Text)) (old : List (Text × ServiceInstance)) (m : Manager ServiceInstance)
      (errors : List ManagerError) (w : World)
      → IsConsistent m
      → IsConsistent (delete_services lb new old m errors w).0
  unfolding delete_services
  delete_services-IsConsistent new [] m errors w h = h
  delete_services-IsConsistent new ((k, s) ∷ old) m errors w (n, e) =
      let w1 = (delete_service (get_name s) w).1 in
      let less = record m {
        services = delete text_discrete (get_name s) m.services;
        endpoints = delete text_discrete (get_name s) m.endpoints;
      } in
      let removed = delete_services-IsConsistent new old less errors w1 (
        delete-All text_discrete (IsNamed lb) (get_name s) m.services n,
        λ x.
            let both = e x in
            let left = exists-delete x (get_name s) m.services in
            let right = exists-delete x (get_name s) m.endpoints in ground arith,
      ) in
      elim (Bool-cases (exists (get_name s) new)) [
        | inl there ↦
            rw (there, delete_services) (delete_services-IsConsistent new old m errors w (n, e))
        | inr gone ↦ elim (Bool-cases (delete_service (get_name s) w).0) [
          | inl deleted ↦ rw (gone, delete_services) (rw (deleted, delete_services) removed)
          | inr failed ↦
              rw (gone, delete_services)
                (rw (failed, delete_services)
                  (delete_services-IsConsistent new old m (delete_service_failed ∷ errors) w1
                    (n, e)))
        ]
      ]

  add_services-IsConsistent :
      (new : List (Text × Text)) (m : Manager ServiceInstance) (w : World)
      → KeepsNames lb
      → IsConsistent m
      → IsConsistent (add_services lb new m w).1
  unfolding add_services
  add_services-IsConsistent [] m w keeps h = h
  add_services-IsConsistent ((k, name) ∷ new) m w keeps (n, e) =
      elim (Option-cases (lookup text_discrete name m.services)) [
        | inr (s, there) ↦ rw (there, add_services) (add_services-IsConsistent new m w keeps (n, e))
        | inl gone ↦ elim (Option-cases (add_service name w).0) [
          | inl failed ↦ rw (gone, add_services) (rw (failed, add_services) (n, e))
          | inr (s, added) ↦
              let more = record m {
                services = insert text_discrete name s m.services;
                endpoints = insert text_discrete name [] m.endpoints;
              } in
              rw (gone, add_services)
                (rw (added, add_services)
                  (add_services-IsConsistent new more (add_service name w).1 keeps (
                    insert-All text_discrete (IsNamed lb) name s m.services (keeps name w s added)
                        n,
                    λ x.
                        let both = e x in
                        let left = exists-insert x name s m.services in
                        let right = exists-insert x name [] m.endpoints in ground arith,
                  )))
        ]
      ]

  -- SetServices keeps, with errors or without, that every service stands under its own name and
  -- that a name has a list of endpoints exactly if it has a service, if the load balancer gives a
  -- service the name that it is added with.
  pub set_services-IsConsistent :
      (names : List Text) (m : Manager ServiceInstance) (w : World)
      → KeepsNames lb
      → IsConsistent m
      → IsConsistent (set_services lb names m w).0
  unfolding set_services
  set_services-IsConsistent names m w keeps h =
      let new = new_services names [] in
      let old = delete_services lb new m.services m [] w in
      let kept = delete_services-IsConsistent new m.services m [] w h in
      let all = add_services-IsConsistent new old.0 old.2 keeps kept in
      elim (Bool-cases (add_services lb new old.0 old.2).0) [
        | inl added ↦ rw (added, set_services) all
        | inr failed ↦ rw (failed, set_services) all
      ]
