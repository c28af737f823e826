-- ===== src/Podinjector.antt =====
-- pkg/controllers/statelessloadbalancer/podinjector: the controller that gives a pod the network
-- attachments for the gateways whose services select it.
pub mod Selection
pub mod Families
mod Tests
use l_3_4_gateway_api_poc.Base.{
  Bool, true, false, not, ◌&&◌, Option, none, some, List, [], ◌∷◌, ◌++◌, Text, text_discrete, codes,
  lookup, insert, has, ite, if◌then◌else◌,
}
use l_3_4_gateway_api_poc.Net.{Addresses, is_v4}
use l_3_4_gateway_api_poc.Annotation.{
  CniArgs, NetworkSelectionElement, get_network_attachment_annotation,
}
use l_3_4_gateway_api_poc.NetworkAttachment.{Network, Netdef, get_networks_from_gateway}

-- A nil map of labels is an empty one; `none` are nil annotations, which are not written to.
pub record Pod : Type 0 where
  pub name : Text
  pub namespace : Text
  pub labels : List (Text × Text)
  pub annotations : Option (List (Text × Text))
  pub phase : Text

pub record Service : Type 0 where
  pub name : Text
  pub selector : List (Text × Text)

-- `infrastructure` has the annotations of `Spec.Infrastructure`, or `none` for a nil pointer.
pub record Gateway : Type 0 where
  pub name : Text
  pub gateway_class_name : Text
  pub infrastructure : Option (List (Text × Text))
  pub addresses : List Text

pub data InjectError : Type 0 where
  pod_not_read gateways_not_listed services_not_listed pods_not_listed : InjectError
  annotation_not_decoded annotation_not_encoded pod_not_updated : InjectError

-- A pod, an error, or a panic.
pub data Injected : Type 0 where
  injected : Pod → Injected
  failed : InjectError → Injected
  panicked : Injected

pub data PodFound : Type 0 where
  pod_found : Pod → PodFound
  pod_not_found pod_error : PodFound

-- The API server, the codec of the annotation, its hash, the labels of package `apis`, and
-- `GetIPsFunc`. `list_services` and `list_pods` list by the value of the proxy's label.
pub record Cluster : Type 1 where
  pub World : Type 0
  pub addresses : Addresses
  pub netdef : Netdef
  pub label_service_proxy_name : Text
  pub get_pod : Text → World → PodFound
  pub list_gateways : World → Option (List Gateway)
  pub list_services : Text → Text → World → Option (List Service)
  pub list_pods : Text → World → Option (List Pod)
  pub update : Pod → World → Bool × World
  pub get_ips_func : Pod → List Network → List Text
  pub hash : CniArgs → Text
  pub unmarshal : Text → Option (List NetworkSelectionElement)
  pub marshal : List NetworkSelectionElement → Option Text

abbrev pub label_dummy_service_selector : Text
label_dummy_service_selector = codes "l-3-4-gateway-api-poc/dummy-service-selector"

-- The value of the label of the pod, if it has the label, is the one of the selector.
abbrev pub has_label : List (Text × Text) → Text → Text → Bool
has_label labels key value = elim (lookup text_discrete key labels) [
  | none ↦ false
  | some v ↦ ite (text_discrete v value) true false
]

-- The loop on a selector, which goes to the next service where a label is missing.
unfoldable pub selects : List (Text × Text) → List (Text × Text) → Bool
unfolding lookup
selects labels [] = true
selects labels ((key, value) ∷ selector) =
    let rest = selects labels selector in
    if ite (text_discrete key label_dummy_service_selector) true (has_label labels key value)
    then rest
    else false

unfoldable pub filter_services : Pod → List Service → List Service
unfolding selects
filter_services pod [] = []
filter_services pod (service ∷ services) =
    let rest = filter_services pod services in
    if selects pod.labels service.selector then service ∷ rest else rest

module _ (a : Addresses) where
  open a use {parse_ip, ip_string}

  -- The loop of `getVIPs`, with the keys of `vipMap`.
  unfoldable pub get_vips_from : List Text → List Text → List Text × List Text
  unfolding has
  get_vips_from [] seen = ([], [])
  get_vips_from (address ∷ addresses) seen =
      let skipped = get_vips_from addresses seen in
      elim (parse_ip address) [
        | none ↦ skipped
        | some ip ↦
            let vip =
              if is_v4 ip then ip_string ip ++ codes "/32" else ip_string ip ++ codes "/128" in
            let (v4, v6) = get_vips_from addresses (vip ∷ seen) in
            if has text_discrete vip seen
            then skipped
            else if is_v4 ip
            then (vip ∷ v4, v6)
            else (v4, vip ∷ v6)
      ]

  unfoldable pub get_vips : List Text → List Text × List Text
  unfolding get_vips_from
  get_vips addresses = get_vips_from addresses []

  -- The inner loop of `getGatewayIPs`
  unfoldable pub split_families : List Text → List Text × List Text
  split_families [] = ([], [])
  split_families (ip ∷ ips) =
      let (v4, v6) = split_families ips in
      elim (parse_ip ip) [
        | none ↦ (v4, v6)
        | some ip_addr ↦ if is_v4 ip_addr then (ip ∷ v4, v6) else (v4, ip ∷ v6)
      ]

abbrev pub annotations_of : Pod → List (Text × Text)
annotations_of pod = elim pod.annotations [ none ↦ [] | some annotations ↦ annotations ]

module _ (c : Cluster) where
  open c use {
    World, addresses, netdef, label_service_proxy_name, get_pod, list_gateways, list_services,
    list_pods, update, get_ips_func, hash, unmarshal, marshal,
  }

  unfoldable pub gateway_ips_of : List Pod → List Network → List Text × List Text
  unfolding split_families
  gateway_ips_of [] networks = ([], [])
  gateway_ips_of (pod ∷ pods) networks =
      let (v4, v6) = split_families addresses (get_ips_func pod networks) in
      let (rest4, rest6) = gateway_ips_of pods networks in (v4 ++ rest4, v6 ++ rest6)

  -- `none` is an error.
  unfoldable pub get_gateway_ips : Gateway → List Network → World → Option (List Text × List Text)
  unfolding gateway_ips_of
  get_gateway_ips gateway networks w = elim (list_pods gateway.name w) [
    | none ↦ none
    | some pods ↦ some (gateway_ips_of pods networks)
  ]

  -- The elements that the annotation has, `none` for an error.
  unfoldable pub current_elements : Pod → Option (List NetworkSelectionElement)
  unfolding lookup
  current_elements pod = elim pod.annotations [
    | none ↦ some []
    | some annotations ↦ elim (lookup text_discrete netdef.network_attachment_annot annotations) [
      | none ↦ some []
      | some networks ↦ unmarshal networks
    ]
  ]

  unfoldable pub set_network_attachment_annotation :
      Pod → Text → List Text × List Text → List Text × List Text → Injected
  unfolding current_elements get_network_attachment_annotation insert
  set_network_attachment_annotation pod service_proxy (vip4, vip6) (gateways4, gateways6) =
      elim (current_elements pod) [
        | none ↦ failed annotation_not_decoded
        | some elements ↦
            elim (marshal (
              get_network_attachment_annotation hash label_service_proxy_name service_proxy elements
                vip4 vip6 gateways4 gateways6)) [
                  | none ↦ failed annotation_not_encoded
                  | some json ↦ injected (record pod {
                    annotations = some (
                        insert text_discrete netdef.network_attachment_annot json
                          (annotations_of pod));
                  })
                ]
      ]

  -- What `reconcileGateway` does with a pod that services select.
  unfoldable pub inject : Gateway → Pod → World → Injected
  unfolding get_vips get_networks_from_gateway get_gateway_ips set_network_attachment_annotation
  inject gateway pod w = elim (get_networks_from_gateway netdef gateway.infrastructure) [
    | none ↦ panicked
    | some networks ↦ elim (get_gateway_ips gateway networks w) [
      | none ↦ failed pods_not_listed
      | some gateways ↦
          set_network_attachment_annotation pod gateway.name (get_vips addresses gateway.addresses)
            gateways
    ]
  ]

  unfoldable pub reconcile_gateway : Gateway → Pod → World → Injected
  unfolding filter_services inject
  reconcile_gateway gateway pod w = elim (list_services gateway.name pod.namespace w) [
    | none ↦ failed services_not_listed
    | some services ↦ elim (filter_services pod services) [
      | [] ↦ injected pod
      | service ∷ rest ↦ inject gateway pod w
    ]
  ]

  -- The loop on the gateways stops at the first error.
  unfoldable pub inject_all : List Gateway → Pod → World → Injected
  unfolding reconcile_gateway
  inject_all [] pod w = injected pod
  inject_all (gateway ∷ gateways) pod w = elim (reconcile_gateway gateway pod w) [
    | injected updated ↦ inject_all gateways updated w
    | failed e ↦ failed e
    | panicked ↦ panicked
  ]

  unfoldable pub of_class : Text → List Gateway → List Gateway
  of_class gateway_class_name [] = []
  of_class gateway_class_name (gateway ∷ gateways) =
      let rest = of_class gateway_class_name gateways in
      ite (text_discrete gateway.gateway_class_name gateway_class_name) (gateway ∷ rest) rest

  unfoldable pub get_gateways_for_gateway_class : Text → World → Option (List Gateway)
  unfolding of_class
  get_gateways_for_gateway_class gateway_class_name w = elim (list_gateways w) [
    | none ↦ none
    | some items ↦ some (of_class gateway_class_name items)
  ]

  unfoldable pub reconcile_gateways : Text → Pod → World → Injected × World
  unfolding get_gateways_for_gateway_class inject_all
  reconcile_gateways gateway_class_name pod w =
      elim (get_gateways_for_gateway_class gateway_class_name w) [
        | none ↦ (failed gateways_not_listed, w)
        | some gateways ↦ elim (inject_all gateways pod w) [
          | injected updated ↦
              let (written, w1) = update updated w in
              (if written then injected updated else failed pod_not_updated, w1)
          | failed e ↦ (failed e, w)
          | panicked ↦ (panicked, w)
        ]
      ]

  -- `Reconcile`, with `none` where nothing is to do.
  unfoldable pub reconcile : Text → Text → World → Option Injected × World
  unfolding reconcile_gateways
  reconcile gateway_class_name name w = elim (get_pod name w) [
    | pod_not_found ↦ (none, w)
    | pod_error ↦ (some (failed pod_not_read), w)
    | pod_found pod ↦
        let (result, w1) = reconcile_gateways gateway_class_name pod w in
        ite (text_discrete pod.phase (codes "Running")) (some result, w1) (none, w)
  ]
