-- ===== src/Nfqlb/LoadBalancer.antt =====
-- `NFQueueLoadBalancer` of pkg/nfqlb/nfqlb.go: its services, and the calls on them. A call runs to
-- its end before the next one starts. The mutex `mu` is kept, since one path returns with it held.
pub mod Ranges
pub mod Allocation
pub mod Locking
pub mod Deletion
use l_3_4_gateway_api_poc.Base.{
  ℕ, zero, suc, Bool, true, false, Option, none, some, List, [], ◌∷◌, ◌++◌, map, Text, codes, ℤ,
  pos, text_discrete, itoa, lookup, insert, delete, if◌then◌else◌,
}
use l_3_4_gateway_api_poc.Nfqlb.Config.{
  Config, ServiceConfig, ownfw, get_m, new_nfqlb_service_config, apply_options,
}
use l_3_4_gateway_api_poc.Nfqlb.Errors.{
  Error, Errors, identifier_offset, init_failed, delete_service_failed, delete_target_failed,
  delete_flows_failed,
}
use l_3_4_gateway_api_poc.Nfqlb.Flows.{Listing, listed, unlisted, flow_list, add_flow, delete_flow}
use l_3_4_gateway_api_poc.Nfqlb.Offset.{Search, found, exhausted, unfinished, get_offset}
use l_3_4_gateway_api_poc.Nfqlb.Platform.{Platform, Flow}
use l_3_4_gateway_api_poc.Nfqlb.Routing.{create_policy_routes}
use l_3_4_gateway_api_poc.Nfqlb.Service.{Service, fwmark_of}
use l_3_4_gateway_api_poc.Nfqlb.Targets.{add_target, delete_target, delete_target_no_lock}

abbrev pub Services : Type 0
Services = List (Text × Service)

pub record LoadBalancer : Type 0 where
  pub config : Config
  pub open config use *
  -- key: name
  pub services : Services
  pub mu : Bool

-- What `New` returns once the netfilter queue is configured.
unfoldable pub fresh : Config → LoadBalancer
fresh config = record { config = config; services = []; mu = false }

-- A call returns, panics, or waits for a mutex that nobody will release.
pub data Call {ℓ} (A : Type ℓ) : Type ℓ where
  returned : A → Call A
  panicked : Call A
  blocked : Call A

-- A service or an error.
pub data Added : Type 0 where
  added : Service → Added
  refused : Error → Added

unfoldable pub init_args : Service → List Text
init_args s =
    codes "init"
    ∷ (codes "--ownfw=" ++ itoa (pos ownfw))
    ∷ (codes "--shm=" ++ s.name)
    ∷ (codes "--M=" ++ itoa (pos (get_m s.config)))
    ∷ (codes "--N=" ++ itoa (pos s.max_targets))
    ∷ []

unfoldable pub delete_args : Text → List Text
delete_args name = codes "delete" ∷ (codes "--shm=" ++ name) ∷ []

abbrev pub values : Services → List Service
values = map (λ e. e.1)

module _ (p : Platform) where
  open p use {World, run_command}

  -- What `AddService` does with a new service once it has an offset.
  unfoldable pub init_service :
      LoadBalancer → Text → ServiceConfig → ℕ → World → LoadBalancer × Added × World
  unfolding init_args
  init_service lb name config offset w =
      let service : Service = record {
        config = config;
        name = name;
        targets = [];
        offset = offset;
      } in
      let (result, w1) = run_command lb.nfqlb_path (init_args service) w in
      elim result [
        | none ↦ (lb, refused init_failed, w1)
        | some _ ↦ (
          record lb { services = insert text_discrete name service lb.services },
          added service,
          w1,
        )
      ]

  unfoldable pub new_service :
      LoadBalancer → Text → ServiceConfig → World → LoadBalancer × Added × World
  unfolding init_service
  new_service lb name config w =
      elim (get_offset lb.starting_offset (values lb.services) config.max_targets) [
        | found offset ↦ init_service lb name config offset w
        | exhausted ↦ (lb, refused identifier_offset, w)
        | unfinished ↦ (lb, refused identifier_offset, w)
      ]

  unfoldable pub add_service :
      LoadBalancer
      → Text
      → List (ServiceConfig → ServiceConfig)
      → World
      → Call (LoadBalancer × Added × World)
  unfolding new_service
  add_service lb name options w =
      if lb.mu then blocked else elim (lookup text_discrete name lb.services) [
        | some service ↦ returned (lb, added service, w)
        | none ↦ returned (new_service lb name (apply_options options new_nfqlb_service_config) w)
      ]

  -- The loop over the targets; each round deletes its own target.
  unfoldable pub delete_targets :
      Text → List (ℤ × List Text) → Service → Errors → World → Errors × World
  delete_targets path [] s errors w = (errors, w)
  delete_targets path ((identifier, ips) ∷ targets) s errors w =
      let (s1, failed, w1) = delete_target_no_lock p path s ips identifier w in
      let after : Errors = elim failed [
        | [] ↦ errors
        | e ∷ es ↦ delete_target_failed ∷ (e ∷ es) ++ errors
      ] in
      delete_targets path targets s1 after w1

  -- One round of the loop over the flows; the errors of a flow are added to those before.
  abbrev pub after_flow : Errors → Option (Errors × World) → Option (Errors × World)
  after_flow errors none = none
  after_flow errors (some ([], w)) = some (errors, w)
  after_flow errors (some (e ∷ es, w)) = some (delete_flows_failed ∷ (e ∷ es) ++ errors, w)

  unfoldable pub delete_flow_if :
      Text → Text → Service → Flow → Errors → World → Option (Errors × World)
  delete_flow_if path name s flow errors w = elim (text_discrete flow.server_name name) [
    | yes _ ↦ after_flow errors (delete_flow p path s flow w)
    | no _ ↦ some (errors, w)
  ]

  unfoldable pub delete_flows :
      Text → Text → Service → List Flow → Errors → World → Option (Errors × World)
  unfolding delete_flow_if
  delete_flows path name s [] errors w = some (errors, w)
  delete_flows path name s (flow ∷ flows) errors w =
      elim (delete_flow_if path name s flow errors w) [
        | none ↦ none
        | some (errors1, w1) ↦ delete_flows path name s flows errors1 w1
      ]

  -- What `DeleteService` does behind the removal from the map.
  unfoldable pub tear_down : Text → Text → Service → World → Option (Errors × World)
  unfolding delete_args delete_targets delete_flows
  tear_down path name s w =
      let (result, w1) = run_command path (delete_args name) w in
      let (errors, w2) = delete_targets path s.targets s [] w1 in
      let (listing, w3) = flow_list p path w2 in
      elim result [
        | none ↦ some (delete_service_failed ∷ [], w1)
        | some _ ↦ elim listing [
          | unlisted failed ↦ some (delete_flows_failed ∷ failed ++ errors, w3)
          | listed flows ↦ delete_flows path name s flows errors w3
        ]
      ]

  abbrev pub finish : LoadBalancer → Option (Errors × World) → Call (LoadBalancer × Errors × World)
  finish lb none = panicked
  finish lb (some (errors, w)) = returned (lb, errors, w)

  -- A missing name returns with `mu` locked.
  unfoldable pub delete_service : LoadBalancer → Text → World → Call (LoadBalancer × Errors × World)
  unfolding tear_down
  delete_service lb name w =
      if lb.mu then blocked else elim (lookup text_discrete name lb.services) [
        | none ↦ returned (record lb { mu = true }, [], w)
        | some s ↦
            finish (record lb { services = delete text_discrete name lb.services })
              (tear_down lb.nfqlb_path name s w)
      ]

  -- One expiry of the timer in `heal`.
  unfoldable pub heal_targets : Service → List (ℤ × List Text) → World → World
  heal_targets s [] w = w
  heal_targets s ((identifier, ips) ∷ targets) w =
      heal_targets s targets (create_policy_routes p (fwmark_of s identifier) ips w)

  unfoldable pub heal_services : Services → World → World
  unfolding heal_targets
  heal_services [] w = w
  heal_services ((_, s) ∷ services) w = heal_services services (heal_targets s s.targets w)

  unfoldable pub heal_round : LoadBalancer → World → Call (LoadBalancer × World)
  unfolding heal_services
  heal_round lb w = if lb.mu then blocked else returned (lb, heal_services lb.services w)

  -- What is called on a load balancer and on the services that it handed out.
  pub data Op : Type 0 where
    adds : Text → List (ServiceConfig → ServiceConfig) → Op
    deletes : Text → Op
    adds_target : Text → List Text → ℤ → Op
    deletes_target : Text → List Text → ℤ → Op
    adds_flow : Text → Flow → Op
    deletes_flow : Text → Flow → Op
    heals : Op

  abbrev pub put_service :
      LoadBalancer → Text → Service × Errors × World → Call (LoadBalancer × World)
  put_service lb name (s, errors, w) =
      returned (record lb { services = insert text_discrete name s lb.services }, w)

  abbrev pub keep_flow : LoadBalancer → Option (Errors × World) → Call (LoadBalancer × World)
  keep_flow lb none = panicked
  keep_flow lb (some (errors, w)) = returned (lb, w)

  abbrev pub drop_result {ℓ} :
      {A : Type ℓ} → Call (LoadBalancer × A × World) → Call (LoadBalancer × World)
  drop_result (returned (lb, a, w)) = returned (lb, w)
  drop_result panicked = panicked
  drop_result blocked = blocked

  -- A method of the service of a name; there is none to call for a name that is missing.
  abbrev pub on_service :
      LoadBalancer
      → Text
      → World
      → (Service → Call (LoadBalancer × World))
      → Call (LoadBalancer × World)
  on_service lb name w f = elim (lookup text_discrete name lb.services) [
    | none ↦ returned (lb, w)
    | some s ↦ f s
  ]

  unfoldable pub perform : Op → LoadBalancer → World → Call (LoadBalancer × World)
  unfolding add_service delete_service heal_round
  perform (adds name options) lb w = drop_result (add_service lb name options w)
  perform (deletes name) lb w = drop_result (delete_service lb name w)
  perform (adds_target name ips identifier) lb w =
      on_service lb name w λ s. put_service lb name (add_target p lb.nfqlb_path s ips identifier w)
  perform (deletes_target name ips identifier) lb w =
      on_service lb name w
        λ s. put_service lb name (delete_target p lb.nfqlb_path s ips identifier w)
  perform (adds_flow name flow) lb w =
      on_service lb name w λ s. keep_flow lb (add_flow p lb.nfqlb_path s flow w)
  perform (deletes_flow name flow) lb w =
      on_service lb name w λ s. keep_flow lb (delete_flow p lb.nfqlb_path s flow w)
  perform heals lb w = heal_round lb w

  abbrev pub and_then :
      Call (LoadBalancer × World)
      → (LoadBalancer → World → Call (LoadBalancer × World))
      → Call (LoadBalancer × World)
  and_then (returned (lb, w)) f = f lb w
  and_then panicked f = panicked
  and_then blocked f = blocked

  unfoldable pub run : List Op → LoadBalancer → World → Call (LoadBalancer × World)
  unfolding perform
  run [] lb w = returned (lb, w)
  run (op ∷ ops) lb w = and_then (perform op lb w) (λ lb1 w1. run ops lb1 w1)
