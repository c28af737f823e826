-- ===== src/Nfqlb/LoadBalancer/Locking.antt =====
-- Which calls return with the mutex of the load balancer held, and what that does to later calls.
use l_3_4_gateway_api_poc.Base.{
  ◌≡◌, refl, Bool, true, false, Option, none, some, List, ◌∷◌, Text, text_discrete, lookup, arith,
  Bool-cases, Option-cases, inl, inr,
}
use l_3_4_gateway_api_poc.Nfqlb.Errors.{Errors}
use l_3_4_gateway_api_poc.Nfqlb.Flows.{add_flow, delete_flow}
use l_3_4_gateway_api_poc.Nfqlb.Platform.{Platform}
use l_3_4_gateway_api_poc.Nfqlb.Service.{Service}
use l_3_4_gateway_api_poc.Nfqlb.LoadBalancer.{
  LoadBalancer, Call, returned, panicked, blocked, new_service, add_service, delete_service,
  heal_round, Op, adds, deletes, adds_target, deletes_target, adds_flow, deletes_flow, heals,
  perform, run, finish, keep_flow, tear_down, on_service, drop_result,
}

module _ (p : Platform) where
  open p use {World}

  -- The calls that begin with `nfqlb.mu.Lock()`.
  abbrev pub needs_lock : Op p → Bool
  needs_lock (adds _ _) = true
  needs_lock (deletes _) = true
  needs_lock heals = true
  needs_lock _ = false

  -- A `DeleteService` of a name that is not there.
  abbrev pub misses : Op p → LoadBalancer → Bool
  misses (deletes name) lb = elim (lookup text_discrete name lb.services) [
    | none ↦ true
    | some _ ↦ false
  ]
  misses _ lb = false

  -- The call does not wait, and what it leaves, if it returns, has its mutex held exactly if `b`.
  abbrev pub Unlocks : Bool → Call (LoadBalancer × World) → Type 0
  Unlocks b (returned (lb, w)) = lb.mu ≡ b
  Unlocks b panicked = Unit
  Unlocks b blocked = ⊥

  new_service-mu :
      (lb : LoadBalancer) (name : Text) (c : _) (w : World)
      → (new_service p lb name c w).0.mu ≡ lb.mu
  unfolding new_service
  new_service-mu lb name c w = ground arith

  Unlocks-on_service :
      (lb : LoadBalancer) (name : Text) (w : World) (f : Service → Call (LoadBalancer × World))
      → lb.mu ≡ false
      → ((s : Service) → Unlocks false (f s))
      → Unlocks false (on_service p lb name w f)
  Unlocks-on_service lb name w f h k = elim (Option-cases (lookup text_discrete name lb.services)) [
    | inl e ↦ rw (e, on_service, Unlocks) h
    | inr (s, e) ↦ rw (e, on_service, Unlocks) (k s)
  ]

  Unlocks-keep_flow :
      (lb : LoadBalancer) (r : Option (Errors × World))
      → lb.mu ≡ false
      → Unlocks false (keep_flow p lb r)
  Unlocks-keep_flow lb none h = tt
  Unlocks-keep_flow lb (some x) h = h

  Unlocks-finish :
      (lb : LoadBalancer) (r : Option (Errors × World))
      → lb.mu ≡ false
      → Unlocks false (drop_result p (finish p lb r))
  Unlocks-finish lb none h = tt
  Unlocks-finish lb (some x) h = h

  -- A call on a load balancer whose mutex is free does not wait for it. If it returns, it leaves
  -- the mutex held exactly if it is a DeleteService of a name that is not there.
  pub perform-Unlocks :
      (op : Op p) (lb : LoadBalancer) (w : World)
      → lb.mu ≡ false
      → Unlocks (misses op lb) (perform p op lb w)
  unfolding perform
  perform-Unlocks (adds name options) lb w h =
      elim (Option-cases (lookup text_discrete name lb.services)) [
        | inl e ↦ rw (h, add_service) (rw (e, add_service) (ground (arith, new_service-mu lb name)))
        | inr (s, e) ↦ rw (h, add_service) (rw (e, add_service) h)
      ]
  perform-Unlocks (deletes name) lb w h =
      elim (Option-cases (lookup text_discrete name lb.services)) [
        | inl e ↦ rw (h, delete_service) (rw (e, delete_service, misses) refl)
        | inr (s, e) ↦
            rw (h, delete_service)
              (rw (e, delete_service, misses)
                (Unlocks-finish _ (tear_down p lb.nfqlb_path name s w) h))
      ]
  perform-Unlocks (adds_target name ips i) lb w h = Unlocks-on_service lb name w _ h λ s. h
  perform-Unlocks (deletes_target name ips i) lb w h = Unlocks-on_service lb name w _ h λ s. h
  perform-Unlocks (adds_flow name flow) lb w h =
      Unlocks-on_service lb name w _ h
        λ s. Unlocks-keep_flow lb (add_flow p lb.nfqlb_path s flow w) h
  perform-Unlocks (deletes_flow name flow) lb w h =
      Unlocks-on_service lb name w _ h
        λ s. Unlocks-keep_flow lb (delete_flow p lb.nfqlb_path s flow w) h
  perform-Unlocks heals lb w h = rw (h, heal_round) refl

  perform_held :
      (op : Op p) (lb : LoadBalancer) (w : World)
      → needs_lock op ≡ true
      → lb.mu ≡ true
      → perform p op lb w ≡ blocked
  unfolding perform
  perform_held (adds name options) lb w h m = rw (m, add_service) refl
  perform_held (deletes name) lb w h m = rw (m, delete_service) refl
  perform_held heals lb w h m = rw (m, heal_round) refl
  perform_held (adds_target _ _ _) lb w h m = absurd (cc)
  perform_held (deletes_target _ _ _) lb w h m = absurd (cc)
  perform_held (adds_flow _ _) lb w h m = absurd (cc)
  perform_held (deletes_flow _ _) lb w h m = absurd (cc)

  -- After a DeleteService of a name that is not there, the next call that takes the mutex of the
  -- load balancer waits for ever: adding a service, deleting one, or a round of heal.
  pub run-deletes_missing :
      (name : Text) (op : Op p) (ops : List (Op p)) (lb : LoadBalancer) (w : World)
      → lookup text_discrete name lb.services ≡ none
      → needs_lock op ≡ true
      → run p (deletes name ∷ op ∷ ops) lb w ≡ blocked
  unfolding run delete_service
  run-deletes_missing name op ops lb w e h = elim (Bool-cases lb.mu) [
    | inl held ↦ rw (held, delete_service) refl
    | inr free ↦
        rw (free, delete_service)
          (rw (e, delete_service) (rw (perform_held op (record lb { mu = true }) w h refl) refl))
  ]
