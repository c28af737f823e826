-- ===== src/Nfqlb/LoadBalancer/Deletion.antt =====
-- What adding and deleting a service do to the map of services.
use l_3_4_gateway_api_poc.Base.{
  ◌≡◌, false, Option, none, some, List, [], Text, text_discrete, lookup, lookup-insert,
  lookup-delete, ite, arith, Bool-cases, Option-cases, inl, inr,
}
use l_3_4_gateway_api_poc.Nfqlb.Config.{ServiceConfig, new_nfqlb_service_config, apply_options}
use l_3_4_gateway_api_poc.Nfqlb.Offset.{get_offset}
use l_3_4_gateway_api_poc.Nfqlb.Offset.Cases.{Search-cases}
use l_3_4_gateway_api_poc.Nfqlb.Errors.{Errors}
use l_3_4_gateway_api_poc.Nfqlb.Platform.{Platform}
use l_3_4_gateway_api_poc.Nfqlb.Service.{Service}
use l_3_4_gateway_api_poc.Nfqlb.LoadBalancer.{
  values, LoadBalancer, Call, returned, panicked, blocked, Added, added, refused, init_service,
  new_service, add_service, delete_service, finish, tear_down,
}

module _ (p : Platform) where
  open p use {World}

  -- What a call that adds leaves, if it hands out a service.
  abbrev pub AddedLeaves : (LoadBalancer → Service → Type 0) → LoadBalancer × Added × World → Type 0
  AddedLeaves P (lb, added s, w) = P lb s
  AddedLeaves P (lb, refused e, w) = Unit

  Holds : Text → LoadBalancer → Service → Type 0
  Holds name lb s = (lookup text_discrete name lb.services ≡ some s) × (lb.mu ≡ false)

  init_service-Holds :
      (lb : LoadBalancer) (name : Text) (c : ServiceConfig) (o : _) (w : World)
      → lb.mu ≡ false
      → AddedLeaves (Holds name) (init_service p lb name c o w)
  unfolding init_service Holds
  init_service-Holds lb name c o w h = ground (
    arith,
    lookup-insert text_discrete name name
        (record { config = c; name = name; targets = []; offset = o }) lb.services,
  )

  new_service-Holds :
      (lb : LoadBalancer) (name : Text) (c : ServiceConfig) (w : World)
      → lb.mu ≡ false
      → AddedLeaves (Holds name) (new_service p lb name c w)
  unfolding new_service
  new_service-Holds lb name c w h =
      elim (Search-cases (get_offset lb.starting_offset (values lb.services) c.max_targets)) [
        | inl (o, e) ↦ rw (e, new_service) (init_service-Holds lb name c o w h)
        | inr (inl e) ↦ rw (e, new_service) tt
        | inr (inr e) ↦ rw (e, new_service) tt
      ]

  abbrev CallLeaves :
      (LoadBalancer → Service → Type 0) → Call (LoadBalancer × Added × World) → Type 0
  CallLeaves P (returned r) = AddedLeaves P r
  CallLeaves P panicked = ⊥
  CallLeaves P blocked = ⊥

  add_service-Holds :
      (lb : LoadBalancer) (name : Text) (options : List (ServiceConfig → ServiceConfig)) (w : World)
      → lb.mu ≡ false
      → CallLeaves (Holds name) (add_service p lb name options w)
  unfolding add_service Holds
  add_service-Holds lb name options w h =
      elim (Option-cases (lookup text_discrete name lb.services)) [
        | inl e ↦
            rw (h, add_service)
              (rw (e, add_service)
                (new_service-Holds lb name (apply_options options new_nfqlb_service_config) w h))
        | inr (s, e) ↦ rw (h, add_service) (rw (e, add_service) (e, h))
      ]

  -- Once AddService, called with its mutex free, has handed out a service for a name, a second call
  -- for that name hands out the same service, whatever its options, and changes nothing.
  pub add_service_twice :
      (lb lb1 : LoadBalancer) (name : Text) (options others : List (ServiceConfig → ServiceConfig))
      (w w1 w2 : World) (s : Service)
      → lb.mu ≡ false
      → add_service p lb name options w ≡ returned (lb1, added s, w1)
      → add_service p lb1 name others w2 ≡ returned (lb1, added s, w2)
  unfolding add_service Holds
  add_service_twice lb lb1 name options others w w1 w2 s h e =
      let (there, free) : Holds name lb1 s = rw e at (add_service-Holds lb name options w h) in
      ground arith

  abbrev DeleteLeaves : (LoadBalancer → Type 0) → Call (LoadBalancer × Errors × World) → Type 0
  DeleteLeaves P (returned (lb, errors, w)) = P lb
  DeleteLeaves P panicked = Unit
  DeleteLeaves P blocked = Unit

  DeleteLeaves-finish :
      (P : LoadBalancer → Type 0) (lb : LoadBalancer) (r : Option (Errors × World))
      → P lb
      → DeleteLeaves P (finish p lb r)
  DeleteLeaves-finish P lb none h = tt
  DeleteLeaves-finish P lb (some x) h = h

  abbrev Without : LoadBalancer → Text → Text → LoadBalancer → Type 0
  Without lb name j lb1 =
      lookup text_discrete j lb1.services
      ≡ ite (text_discrete j name) none (lookup text_discrete j lb.services)

  delete_service-Without :
      (lb : LoadBalancer) (name j : Text) (w : World)
      → DeleteLeaves (Without lb name j) (delete_service p lb name w)
  unfolding delete_service
  delete_service-Without lb name j w = elim (Bool-cases lb.mu) [
    | inl held ↦ rw (held, delete_service) tt
    | inr free ↦ elim (Option-cases (lookup text_discrete name lb.services)) [
      | inl e ↦ rw (free, delete_service) (rw (e, delete_service) (ground arith))
      | inr (s, e) ↦
          rw (free, delete_service)
            (rw (e, delete_service)
              (DeleteLeaves-finish (Without lb name j) _ (tear_down p lb.nfqlb_path name s w)
                (lookup-delete text_discrete name j lb.services)))
    ]
  ]

  -- When DeleteService returns, with errors or without, its name has no service any more, and every
  -- other name has the service that it had.
  pub delete_service-lookup :
      (lb lb1 : LoadBalancer) (name j : Text) (errors : Errors) (w w1 : World)
      → delete_service p lb name w ≡ returned (lb1, errors, w1)
      → lookup text_discrete j lb1.services
        ≡ ite (text_discrete j name) none (lookup text_discrete j lb.services)
  delete_service-lookup lb lb1 name j errors w w1 e = rw e at (delete_service-Without lb name j w)
