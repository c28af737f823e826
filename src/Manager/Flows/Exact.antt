-- ===== src/Manager/Flows/Exact.antt =====
-- The flows that the code makes of the routes, and what the two loops of `SetFlows` leave.
use l_3_4_gateway_api_poc.Base.{
  exists, exists-delete, ◌≡◌, refl, sym, ◌∙◌, Bool, true, false, not, ◌&&◌, ◌||◌, Option, none,
  some, List, [], ◌∷◌, Text, text_discrete, lookup, insert, delete, lookup-insert, All, insert-All,
  keys, keys-insert-Distinct, Distinct, In, arith, ite, if_pos, if_neg, if◌then◌else◌, Bool-cases,
  Option-cases, inl, inr,
}
use l_3_4_gateway_api_poc.Manager.{
  Manager, FlowImpl, L34Route, LoadBalancerInstance, ManagerError, delete_flow_failed,
  add_flow_failed, flow_name,
}
use l_3_4_gateway_api_poc.Manager.Flows.{
  Flows, get_service_for_l34_route, new_flows, delete_flows, add_flows, set_flows,
}

abbrev pub or_else : {A : Type 0} → Option A → Option A → Option A
or_else none b = b
or_else (some a) b = some a

lookup_absent :
    {V : Type 0} (x : Text) (m : List (Text × V))
    → ¬ In x (keys m)
    → lookup text_discrete x m ≡ none
unfolding lookup
lookup_absent x [] h = refl
lookup_absent x ((k, v) ∷ m) h =
    if_neg (text_discrete x k) (λ e. h (inl e)) _ _ ∙ lookup_absent x m (λ n. h (inr n))

exists-false :
    {V : Type 0} (x : Text) (m : List (Text × V))
    → exists x m ≡ false
    → lookup text_discrete x m ≡ none
unfolding exists
exists-false x m h = ground arith

exists_lookup :
    {V : Type 0} (x : Text) (m : List (Text × V))
    → lookup text_discrete x m ≡ none
    → exists x m ≡ false
unfolding exists
exists_lookup x m h = ground arith

module _ (lb : LoadBalancerInstance) where
  open lb use {World, ServiceInstance, add_flow, delete_flow}

  -- A flow stands under its own name.
  abbrev pub IsFlowNamed : Text × FlowImpl ServiceInstance → Type 0
  IsFlowNamed e = e.0 ≡ flow_name lb e.1

  abbrev AreNewFlows : Flows lb → Type 0
  AreNewFlows flows = All IsFlowNamed flows × Distinct (keys flows)

  new_flows-AreNewFlows :
      (services : List (Text × ServiceInstance)) (routes : List L34Route) (flows : Flows lb)
      → AreNewFlows flows
      → AreNewFlows (new_flows lb services routes flows)
  unfolding new_flows
  new_flows-AreNewFlows services [] flows h = h
  new_flows-AreNewFlows services (route ∷ routes) flows (n, d) =
      elim (Option-cases (get_service_for_l34_route lb services route)) [
        | inl e ↦ rw (e, new_flows) (new_flows-AreNewFlows services routes flows (n, d))
        | inr (service, e) ↦
            let flow : FlowImpl ServiceInstance = record { l34_route = route; service = service } in
            rw (e, new_flows)
              (new_flows-AreNewFlows services routes
                (insert text_discrete (flow_name lb flow) flow flows)
                (
                  insert-All text_discrete IsFlowNamed (flow_name lb flow) flow flows refl n,
                  keys-insert-Distinct text_discrete (flow_name lb flow) flow flows d,
                ))
      ]

  abbrev named : Text → Flows lb → Bool
  named x [] = false
  named x ((_, f) ∷ flows) = ite (text_discrete x (flow_name lb f)) true (named x flows)

  exists_named :
      (x : Text) (flows : Flows lb)
      → All IsFlowNamed flows
      → exists x flows ≡ true
      → named x flows ≡ true
  unfolding lookup exists
  exists_named x [] h e = absurd (ground arith)
  exists_named x ((k, f) ∷ flows) (n, h) e = elim (text_discrete x k) [
    | yes p ↦ ground (arith, n)
    | no np ↦ ground (arith, exists_named x flows h)
  ]

  delete_flows-exists :
      (new old flows : Flows lb) (errors : List ManagerError) (w : World) (x : Text)
      → exists x (delete_flows lb new old flows errors w).0
        ≡ (exists x flows && (not (named x old) || exists x new))
  unfolding delete_flows
  delete_flows-exists new [] flows errors w x = ground arith
  delete_flows-exists new ((k, f) ∷ old) flows errors w x =
      elim (Bool-cases (exists (flow_name lb f) new)) [
        | inl there ↦
            let ih = delete_flows-exists new old flows errors w x in
            rw (there, delete_flows)
              (elim (text_discrete x (flow_name lb f)) [
                | yes e ↦ let new_x : exists x new ≡ true = rw e there in ground (arith, ih, new_x)
                | no ne ↦ ground (arith, ih)
              ])
        | inr gone ↦
            let (deleted, w1) = delete_flow f.service f w in
            let errors1 = if deleted then errors else delete_flow_failed ∷ errors in
            let ih =
              delete_flows-exists new old (delete text_discrete (flow_name lb f) flows) errors1 w1
                x in
            let cut = exists-delete x (flow_name lb f) flows in
            rw (gone, delete_flows)
              (elim (text_discrete x (flow_name lb f)) [
                | yes e ↦
                    let old_x : exists x new ≡ false = rw e gone in ground (arith, ih, cut, old_x)
                | no ne ↦ ground (arith, ih, cut)
              ])
      ]

  add_flows-lookup :
      (new flows : Flows lb) (errors : List ManagerError) (w : World) (x : Text)
      → AreNewFlows new
      → lookup text_discrete x (add_flows lb new flows errors w).0
        ≡ or_else (lookup text_discrete x new) (lookup text_discrete x flows)
  unfolding add_flows lookup
  add_flows-lookup [] flows errors w x h = refl
  add_flows-lookup ((k, f) ∷ new) flows errors w x ((n, h), (alone, d)) =
      let (added, w1) = add_flow f.service f w in
      let errors1 = if added then errors else add_flow_failed ∷ errors in
      let ih =
        add_flows-lookup new (insert text_discrete (flow_name lb f) f flows) errors1 w1 x (h, d) in
      let put = lookup-insert text_discrete (flow_name lb f) x f flows in
      elim (text_discrete x k) [
        | yes e ↦
            let gone = lookup_absent x new (λ m. alone (rw e at m)) in
            let same =
              if_pos (text_discrete x (flow_name lb f)) (e ∙ n) (some f)
                (lookup text_discrete x flows) in
            ground (arith, ih, put, gone, same)
        | no ne ↦
            let other =
              if_neg (text_discrete x (flow_name lb f)) (λ q. ne (q ∙ sym n)) (some f)
                (lookup text_discrete x flows) in
            ground (arith, ih, put, other)
      ]

  -- The flows afterwards are those that the code makes of the routes.
  pub set_flows-new_flows :
      (routes : List L34Route) (m : Manager ServiceInstance) (w : World) (x : Text)
      → All IsFlowNamed m.flows
      → lookup text_discrete x (set_flows lb routes m w).0.flows
        ≡ lookup text_discrete x (new_flows lb m.services routes [])
  unfolding set_flows
  set_flows-new_flows routes m w x own =
      let new = new_flows lb m.services routes [] in
      let (flows1, errors1, w1) = delete_flows lb new m.flows m.flows [] w in
      let added =
        add_flows-lookup new flows1 errors1 w1 x
          (new_flows-AreNewFlows m.services routes [] (tt, tt)) in
      let left = delete_flows-exists new m.flows m.flows [] w x in
      let here = exists_named x m.flows own in
      elim (Option-cases (lookup text_discrete x new)) [
        | inl gone ↦
            let nothing = exists_lookup x new gone in
            let cut : exists x flows1 ≡ false = ground (arith, left, here, nothing) in
            added ∙ rw (gone) (exists-false x flows1 cut)
        | inr (f, there) ↦ added ∙ rw (there) refl
      ]
