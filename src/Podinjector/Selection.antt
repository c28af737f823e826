-- ===== src/Podinjector/Selection.antt =====
-- Which pods a gateway without infrastructure makes the controller panic for.
use l_3_4_gateway_api_poc.Base.{
  ◌≡◌, refl, sym, subst, ◌↔◌, ◌⊎◌, inl, inr, true, false, Bool-cases, Option-cases, Option, none,
  some, List, [], ◌∷◌, Text, text_discrete, lookup, if_pos, if_neg,
}
use l_3_4_gateway_api_poc.Annotation.{get_network_attachment_annotation}
use l_3_4_gateway_api_poc.NetworkAttachment.{
  Network, pod_selected_networks, get_networks_from_gateway,
}
use l_3_4_gateway_api_poc.Podinjector.{
  Pod, Service, Gateway, Cluster, annotation_not_decoded, annotation_not_encoded, failed, panicked,
  label_dummy_service_selector, has_label, selects, filter_services, current_elements,
  set_network_attachment_annotation, get_gateway_ips, inject, reconcile_gateway,
}

-- Each label of a selector but the dummy one is on the pod, with its value.
abbrev pub Matches : List (Text × Text) → List (Text × Text) → Type 0
Matches labels [] = Unit
Matches labels ((key, value) ∷ selector) =
    ((key ≡ label_dummy_service_selector) ⊎ (lookup text_discrete key labels ≡ some value))
    × Matches labels selector

abbrev pub SomeMatches : List (Text × Text) → List Service → Type 0
SomeMatches labels [] = ⊥
SomeMatches labels (service ∷ services) =
    Matches labels service.selector ⊎ SomeMatches labels services

has_label_iff :
    (labels : List (Text × Text)) (key value : Text)
    → (has_label labels key value ≡ true) ↔ (lookup text_discrete key labels ≡ some value)
has_label_iff labels key value = elim (Option-cases (lookup text_discrete key labels)) [
  | inl e ↦ rw (has_label, e) ((λ h. absurd (cc)), λ h. absurd (cc))
  | inr (v, e) ↦ elim (text_discrete v value) [
    | yes same ↦
        rw (has_label, e, if_pos (text_discrete v value) same true false) ((λ h. cc), λ h. refl)
    | no other ↦
        rw (has_label, e, if_neg (text_discrete v value) other true false)
          ((λ h. absurd (cc)), λ h. absurd (other (cc)))
  ]
]

selects-Matches :
    (labels selector : List (Text × Text))
    → (selects labels selector ≡ true) ↔ Matches labels selector
unfolding selects
selects-Matches labels [] = ((λ h. tt), λ h. refl)
selects-Matches labels ((key, value) ∷ selector) =
    let (to, from) = selects-Matches labels selector in
    let (has_to, has_from) = has_label_iff labels key value in
    elim (text_discrete key label_dummy_service_selector) [
      | yes d ↦
          rw
            (
              selects,
              if_pos (text_discrete key label_dummy_service_selector) d true
                  (has_label labels key value),
            )
            ((λ h. (inl d, to h)), λ p. from p.1)
      | no n ↦ elim (Bool-cases (has_label labels key value)) [
        | inl h ↦
            rw
              (
                selects,
                if_neg (text_discrete key label_dummy_service_selector) n true
                    (has_label labels key value),
                h,
              )
              ((λ g. (inr (has_to h), to g)), λ p. from p.1)
        | inr h ↦
            rw
              (
                selects,
                if_neg (text_discrete key label_dummy_service_selector) n true
                    (has_label labels key value),
                h,
              )
              (
                (λ g. absurd (cc)),
                λ p. elim p.0 [ inl d ↦ absurd (n d) | inr l ↦ let g = has_from l in absurd (cc) ],
              )
      ]
    ]

filter_services_cases :
    (pod : Pod) (services : List Service)
    → ((filter_services pod services ≡ []) × (¬ SomeMatches pod.labels services))
      ⊎ ((s : Service) × (rest : List Service) × (filter_services pod services ≡ s ∷ rest)
          × SomeMatches pod.labels services)
unfolding filter_services
filter_services_cases pod [] = inl (refl, λ e. e)
filter_services_cases pod (service ∷ services) =
    let (to, from) = selects-Matches pod.labels service.selector in
    elim (Bool-cases (selects pod.labels service.selector)) [
      | inl h ↦
          inr (service, filter_services pod services, rw (filter_services, h) refl, inl (to h))
      | inr h ↦ elim (filter_services_cases pod services) [
        | inl (e, n) ↦ inl (
          rw (filter_services, h) e,
          elim [ inl m ↦ let g = from m in absurd (cc) | inr m ↦ n m ],
        )
        | inr (s, rest, e, m) ↦ inr (s, rest, rw (filter_services, h) e, inr m)
      ]
    ]

module _ (c : Cluster) where
  open c use {World, list_services, list_pods, netdef, unmarshal, marshal}

  set_annotation_returns :
      (pod : Pod) (proxy : Text) (vips gateways : List Text × List Text)
      → ¬ (set_network_attachment_annotation c pod proxy vips gateways ≡ panicked)
  unfolding set_network_attachment_annotation
  set_annotation_returns pod proxy vips gateways e = elim (Option-cases (current_elements c pod)) [
    | inl n ↦
        let e1 : failed annotation_not_decoded ≡ panicked =
          rw (n, set_network_attachment_annotation) at e in
        absurd (cc)
    | inr (elements, n) ↦
        elim (Option-cases (
          marshal (
            get_network_attachment_annotation c.hash c.label_service_proxy_name proxy elements
              vips.0 vips.1 gateways.0 gateways.1))) [
                | inl m ↦
                    let e1 : failed annotation_not_encoded ≡ panicked =
                      rw (n, set_network_attachment_annotation, m) at e in
                    absurd (cc)
                | inr (json, m) ↦
                    let e1 = rw (n, set_network_attachment_annotation, m) at e in absurd (cc)
              ]
  ]

  networks_some :
      (annotations : List (Text × Text))
      → ¬ (get_networks_from_gateway netdef (some annotations) ≡ none)
  unfolding get_networks_from_gateway
  networks_some annotations h =
      elim (Option-cases (lookup text_discrete pod_selected_networks annotations)) [
        | inl e ↦
            let h1 : Path (Option (List Network)) (some []) none =
              rw (get_networks_from_gateway, e) at h in
            absurd (cc)
        | inr (value, e) ↦ let h1 = rw (get_networks_from_gateway, e) at h in absurd (cc)
      ]

  inject-panicked :
      (gateway : Gateway) (pod : Pod) (w : World)
      → (inject c gateway pod w ≡ panicked) ↔ (gateway.infrastructure ≡ none)
  unfolding inject
  inject-panicked gateway pod w = elim (Option-cases gateway.infrastructure) [
    | inl e ↦ rw (inject, e, get_networks_from_gateway) ((λ h. refl), λ h. refl)
    | inr (annotations, e) ↦
        elim (Option-cases (get_networks_from_gateway netdef (some annotations))) [
          | inl n ↦ absurd (networks_some annotations n)
          | inr (networks, n) ↦ elim (Option-cases (get_gateway_ips c gateway networks w)) [
            | inl p ↦ rw (inject, e, n, p) ((λ h. absurd (cc)), λ h. absurd (cc))
            | inr (gateways, p) ↦
                rw (inject, e, n, p)
                  (
                    (λ h. absurd (set_annotation_returns pod gateway.name _ gateways h)),
                    λ h. absurd (cc),
                  )
          ]
        ]
  ]

  -- Reconciling a pod with a gateway dereferences nil exactly if the services of the gateway are
  -- listed, the labels of the pod have those of the selector of one of them, the dummy label aside,
  -- and the gateway has no infrastructure.
  pub reconcile_gateway-panicked :
      (gateway : Gateway) (pod : Pod) (w : World)
      → (reconcile_gateway c gateway pod w ≡ panicked) ↔ (
          (services : List Service) × (list_services gateway.name pod.namespace w ≡ some services)
          × SomeMatches pod.labels services
          × (gateway.infrastructure ≡ none))
  unfolding reconcile_gateway
  reconcile_gateway-panicked gateway pod w =
      let (to, from) = inject-panicked gateway pod w in
      elim (Option-cases (list_services gateway.name pod.namespace w)) [
        | inl l ↦ rw (reconcile_gateway, l) ((λ h. absurd (cc)), λ (services, e, m, i). absurd (cc))
        | inr (services, l) ↦ elim (filter_services_cases pod services) [
          | inl (f, n) ↦
              rw (reconcile_gateway, l, f)
                (
                  (λ h. absurd (cc)),
                  λ (others, e, m, i).
                      let same : services ≡ others = cc in
                      absurd (n (subst (SomeMatches pod.labels) (sym same) m)),
                )
          | inr (s, rest, f, m) ↦
              rw (reconcile_gateway, l, f)
                ((λ h. (services, refl, m, to h)), λ (others, e, n, i). from i)
        ]
      ]
