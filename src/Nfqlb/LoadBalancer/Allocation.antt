-- ===== src/Nfqlb/LoadBalancer/Allocation.antt =====
-- The ranges of fwmarks of the services never meet, whatever the calls.
use l_3_4_gateway_api_poc.Base.{
  ℕ, ◌+◌, ◌≤◌, ◌<◌, ◌≡◌, ◌≢◌, refl, Option, none, some, List, [], ◌∷◌, Text, ℤ, pos, text_discrete,
  lookup, arith, max_int, All, Bool-cases, Option-cases, inl, inr,
}
use l_3_4_gateway_api_poc.Nfqlb.Config.{
  Config, ServiceConfig, new_nfqlb_service_config, apply_options,
}
use l_3_4_gateway_api_poc.Nfqlb.Errors.{Errors}
use l_3_4_gateway_api_poc.Nfqlb.Flows.{add_flow, delete_flow}
use l_3_4_gateway_api_poc.Nfqlb.Offset.{found, get_offset}
use l_3_4_gateway_api_poc.Nfqlb.Offset.Cases.{Search-cases}
use l_3_4_gateway_api_poc.Nfqlb.Offset.Minimal.{get_offset-minimal}
use l_3_4_gateway_api_poc.Nfqlb.Platform.{Platform}
use l_3_4_gateway_api_poc.Nfqlb.Service.{Service, fwmark_of}
use l_3_4_gateway_api_poc.Nfqlb.Targets.{add_target, delete_target, activate_target}
use l_3_4_gateway_api_poc.Nfqlb.LoadBalancer.{
  Services, LoadBalancer, Call, returned, panicked, blocked, values, fresh, init_service,
  new_service, add_service, delete_service, heal_round, Op, adds, deletes, adds_target,
  deletes_target, adds_flow, deletes_flow, heals, perform, run, finish, keep_flow, tear_down,
  on_service, drop_result, and_then,
}
use l_3_4_gateway_api_poc.Nfqlb.LoadBalancer.Ranges.{
  Allocated, SameRange, insert_new-Allocated, delete-Allocated, update-Allocated, lookup-Apart,
  fwmark_of-pos,
}

abbrev pub IsAllocated : LoadBalancer → Type 0
IsAllocated lb = Allocated lb.starting_offset lb.services

module _ (p : Platform) where
  open p use {World, run_command}

  -- The numbers of targets that a call asks for are of Go's type `int`.
  abbrev pub InRange : Op p → Type 0
  InRange (adds name options) =
      (apply_options options new_nfqlb_service_config).max_targets ≤ max_int
  InRange _ = Unit

  -- The load balancer that a call leaves, if it returns.
  abbrev pub Leaves : (LoadBalancer → Type 0) → Call (LoadBalancer × World) → Type 0
  Leaves P (returned (lb, w)) = P lb
  Leaves P panicked = Unit
  Leaves P blocked = Unit

  init_service-Allocated :
      (lb : LoadBalancer) (name : Text) (c : ServiceConfig) (o : ℕ) (w : World)
      → c.max_targets ≤ max_int
      → get_offset lb.starting_offset (values lb.services) c.max_targets ≡ found o
      → IsAllocated lb
      → IsAllocated (init_service p lb name c o w).0
  unfolding init_service
  init_service-Allocated lb name c o w small e h =
      let service : Service = record { config = c; name = name; targets = []; offset = o } in
      let (l, u, a, _) =
        get_offset-minimal lb.starting_offset (values lb.services) c.max_targets o small e in
      let kept = insert_new-Allocated lb.starting_offset service name lb.services h l u a in
      ground (arith, kept)

  new_service-Allocated :
      (lb : LoadBalancer) (name : Text) (c : ServiceConfig) (w : World)
      → c.max_targets ≤ max_int
      → IsAllocated lb
      → IsAllocated (new_service p lb name c w).0
  unfolding new_service
  new_service-Allocated lb name c w small h =
      elim (Search-cases (get_offset lb.starting_offset (values lb.services) c.max_targets)) [
        | inl (o, e) ↦ rw (e, new_service) (init_service-Allocated lb name c o w small e h)
        | inr (inl e) ↦ rw (e, new_service) h
        | inr (inr e) ↦ rw (e, new_service) h
      ]

  add_target-SameRange :
      (path : Text) (s : Service) (ips : List Text) (i : ℤ) (w : World)
      → SameRange s (add_target p path s ips i w).0
  unfolding add_target activate_target
  add_target-SameRange path s ips i w = ground arith

  delete_target-SameRange :
      (path : Text) (s : Service) (ips : List Text) (i : ℤ) (w : World)
      → SameRange s (delete_target p path s ips i w).0
  unfolding delete_target
  delete_target-SameRange path s ips i w = ground arith

  new_service-config :
      (lb : LoadBalancer) (name : Text) (c : ServiceConfig) (w : World)
      → (new_service p lb name c w).0.config ≡ lb.config
  unfolding new_service
  new_service-config lb name c w = ground arith

  -- The configuration stays, and so do ranges that do not meet.
  abbrev Stays : LoadBalancer → LoadBalancer → Type 0
  Stays lb lb1 = (lb1.config ≡ lb.config) × IsAllocated lb1

  Leaves-on_service :
      (lb : LoadBalancer) (name : Text) (w : World)
      → (f : Service → Call (LoadBalancer × World)) → IsAllocated lb
      → ((s : Service) → lookup text_discrete name lb.services ≡ some s → Leaves (Stays lb) (f s))
      → Leaves (Stays lb) (on_service p lb name w f)
  Leaves-on_service lb name w f h k = elim (Option-cases (lookup text_discrete name lb.services)) [
    | inl e ↦ rw (e, on_service, Leaves) (refl, h)
    | inr (s, e) ↦ rw (e, on_service, Leaves) (k s e)
  ]

  Leaves-keep_flow :
      (lb : LoadBalancer) (r : Option (Errors × World))
      → IsAllocated lb
      → Leaves (Stays lb) (keep_flow p lb r)
  Leaves-keep_flow lb none h = tt
  Leaves-keep_flow lb (some x) h = (refl, h)

  Leaves-finish :
      (lb : LoadBalancer) (r : Option (Errors × World)) (m : Services)
      → Allocated lb.starting_offset m
      → Leaves (Stays lb) (drop_result p (finish p (record lb { services = m }) r))
  Leaves-finish lb none m h = tt
  Leaves-finish lb (some x) m h = (refl, h)

  add_service-Allocated :
      (lb : LoadBalancer) (name : Text) (options : List (ServiceConfig → ServiceConfig)) (w : World)
      → (apply_options options new_nfqlb_service_config).max_targets ≤ max_int
      → IsAllocated lb
      → Leaves (Stays lb) (drop_result p (add_service p lb name options w))
  unfolding add_service
  add_service-Allocated lb name options w small h =
      let c = apply_options options new_nfqlb_service_config in
      elim (Bool-cases lb.mu) [
        | inl held ↦ rw (held, add_service) tt
        | inr free ↦ elim (Option-cases (lookup text_discrete name lb.services)) [
          | inl e ↦
              rw (free, add_service)
                (rw (e, add_service)
                  (new_service-config lb name c w, new_service-Allocated lb name c w small h))
          | inr (s, e) ↦ rw (free, add_service) (rw (e, add_service) (refl, h))
        ]
      ]

  delete_service-Allocated :
      (lb : LoadBalancer) (name : Text) (w : World)
      → IsAllocated lb
      → Leaves (Stays lb) (drop_result p (delete_service p lb name w))
  unfolding delete_service
  delete_service-Allocated lb name w h = elim (Bool-cases lb.mu) [
    | inl held ↦ rw (held, delete_service) tt
    | inr free ↦ elim (Option-cases (lookup text_discrete name lb.services)) [
      | inl e ↦ rw (free, delete_service) (rw (e, delete_service) (refl, h))
      | inr (s, e) ↦
          rw (free, delete_service)
            (rw (e, delete_service)
              (Leaves-finish lb (tear_down p lb.nfqlb_path name s w) _
                (delete-Allocated lb.starting_offset name lb.services h)))
    ]
  ]

  perform-Allocated :
      (op : Op p) (lb : LoadBalancer) (w : World)
      → InRange op
      → IsAllocated lb
      → Leaves (Stays lb) (perform p op lb w)
  unfolding perform
  perform-Allocated (adds name options) lb w small h =
      add_service-Allocated lb name options w small h
  perform-Allocated (deletes name) lb w small h = delete_service-Allocated lb name w h
  perform-Allocated (adds_target name ips i) lb w small h = Leaves-on_service lb name w _ h λ s e. (
    refl,
    update-Allocated lb.starting_offset s _ name lb.services e
        (add_target-SameRange lb.nfqlb_path s ips i w) h,
  )
  perform-Allocated (deletes_target name ips i) lb w small h =
      Leaves-on_service lb name w _ h λ s e. (
        refl,
        update-Allocated lb.starting_offset s _ name lb.services e
            (delete_target-SameRange lb.nfqlb_path s ips i w) h,
      )
  perform-Allocated (adds_flow name flow) lb w small h =
      Leaves-on_service lb name w _ h
        λ s e. Leaves-keep_flow lb (add_flow p lb.nfqlb_path s flow w) h
  perform-Allocated (deletes_flow name flow) lb w small h =
      Leaves-on_service lb name w _ h
        λ s e. Leaves-keep_flow lb (delete_flow p lb.nfqlb_path s flow w) h
  perform-Allocated heals lb w small h = elim (Bool-cases lb.mu) [
    | inl held ↦ rw (held, heal_round) tt
    | inr free ↦ rw (free, heal_round) (refl, h)
  ]

  Leaves-and_then :
      (P Q : LoadBalancer → Type 0) (c : Call (LoadBalancer × World))
      (f : LoadBalancer → World → Call (LoadBalancer × World))
      → Leaves P c
      → ((lb : LoadBalancer) (w : World) → P lb → Leaves Q (f lb w))
      → Leaves Q (and_then p c f)
  Leaves-and_then P Q (returned (lb, w)) f h k = k lb w h
  Leaves-and_then P Q panicked f h k = tt
  Leaves-and_then P Q blocked f h k = tt

  run-Allocated :
      (ops : List (Op p)) (lb : LoadBalancer) (w : World)
      → All InRange ops
      → IsAllocated lb
      → Leaves IsAllocated (run p ops lb w)
  unfolding run
  run-Allocated [] lb w small h = h
  run-Allocated (op ∷ ops) lb w small h =
      Leaves-and_then (Stays lb) IsAllocated (perform p op lb w) _
        (perform-Allocated op lb w small.0 h) λ lb1 w1 kept. run-Allocated ops lb1 w1 small.1 kept.1

module _ (p : Platform) where
  open p use {World}

  -- After any calls on a load balancer that starts without services, two services of different
  -- names never give the same fwmark to two identifiers that are below their numbers of targets, if
  -- every number of targets that a call asks for is of Go's type int.
  pub run-fwmark_of :
      (c : Config) (ops : List (Op p)) (w w1 : World) (lb : LoadBalancer) (a b : Text)
      (s t : Service) (i j : ℕ)
      → All (InRange p) ops
      → run p ops (fresh c) w ≡ returned (lb, w1)
      → lookup text_discrete a lb.services ≡ some s
      → lookup text_discrete b lb.services ≡ some t
      → a ≢ b
      → i < s.max_targets
      → j < t.max_targets
      → fwmark_of s (pos i) ≢ fwmark_of t (pos j)
  unfolding fresh
  run-fwmark_of c ops w w1 lb a b s t i j small e f g ne li lj same =
      let h : IsAllocated lb = rw e at (run-Allocated p ops (fresh c) w small tt) in
      let start = lb.starting_offset in
      let left = fwmark_of-pos start s a lb.services i h f li in
      let right = fwmark_of-pos start t b lb.services j h g lj in
      let meet : i + s.offset ≡ j + t.offset = cc in
      lookup-Apart start s t a b lb.services h f g ne (i + s.offset) (omega arith) (omega arith)
        (omega arith) (omega arith)
