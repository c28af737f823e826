-- ===== src/Podinjector/Tests.antt =====
-- The properties of the pod injector at concrete inputs.
use l_3_4_gateway_api_poc.Base.{◌≡◌, ◌↔◌, ◌⊎◌, true, none, some, List, [], ◌∷◌, codes, In}
use l_3_4_gateway_api_poc.Netlink.Sample.{sample_addresses}
use l_3_4_gateway_api_poc.NetworkAttachment.{Netdef, get_ips}
use l_3_4_gateway_api_poc.Router as router
use l_3_4_gateway_api_poc.Podinjector.{
  Pod, Service, Gateway, Cluster, pod_found, panicked, reconcile_gateway, get_vips,
  label_dummy_service_selector, annotations_of,
}
use l_3_4_gateway_api_poc.Podinjector.Selection.{SomeMatches, reconcile_gateway-panicked}
use l_3_4_gateway_api_poc.Podinjector.Families.{get_vips-router}

abbrev pod : Pod
pod = record {
  name = codes "web";
  namespace = codes "default";
  labels = (codes "app", codes "web") ∷ [];
  annotations = none;
  phase = codes "Running";
}

abbrev web : Service
web = record {
  name = codes "web";
  selector = (codes "app", codes "web") ∷ (label_dummy_service_selector, codes "true") ∷ [];
}

abbrev gateway : Gateway
gateway = record {
  name = codes "gateway";
  gateway_class_name = codes "class";
  infrastructure = none;
  addresses = (20 ∷ 0 ∷ 0 ∷ 1 ∷ []) ∷ (7 ∷ []) ∷ (20 ∷ 0 ∷ 0 ∷ 1 ∷ []) ∷ [];
}

abbrev sample_netdef : Netdef
sample_netdef = record {
  network_attachment_annot = codes "k8s.v1.cni.cncf.io/networks";
  network_status_annot = codes "k8s.v1.cni.cncf.io/network-status";
  unmarshal_selected = λ t. some [];
  unmarshal_status = λ t. some [];
}

abbrev sample_cluster : Cluster
sample_cluster = record {
  World = Unit;
  addresses = sample_addresses;
  netdef = sample_netdef;
  label_service_proxy_name = codes "proxy";
  get_pod = λ t w. pod_found pod;
  list_gateways = λ w. some (gateway ∷ []);
  list_services = λ t ns w. some (web ∷ []);
  list_pods = λ t w. some (pod ∷ []);
  update = λ p w. (true, w);
  get_ips_func = λ p networks. get_ips sample_netdef p.namespace (annotations_of p) networks;
  hash = λ args. codes "net";
  unmarshal = λ t. some [];
  marshal = λ es. some (codes "[]");
}

reconcile_gateway-panicked_example :
    (reconcile_gateway sample_cluster gateway pod tt ≡ panicked) ↔ (
      (services : List Service) × (sample_cluster.list_services gateway.name pod.namespace tt
        ≡ some services)
      × SomeMatches pod.labels services
      × (gateway.infrastructure ≡ none))
reconcile_gateway-panicked_example = reconcile_gateway-panicked sample_cluster gateway pod tt

get_vips-router_example : In (codes "a") (router.get_vips sample_addresses gateway.addresses) ↔ (
    In (codes "a") (get_vips sample_addresses gateway.addresses).0
    ⊎ In (codes "a") (get_vips sample_addresses gateway.addresses).1)
get_vips-router_example = get_vips-router sample_addresses gateway.addresses (codes "a")
