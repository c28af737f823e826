-- ===== src/Nfqlb/Sample.antt =====
-- A host on which every call succeeds and finds nothing, and a few services.
use l_3_4_gateway_api_poc.Base.{true, false, some, none, [], ◌∷◌, codes, pos}
use l_3_4_gateway_api_poc.Net.{Addresses}
use l_3_4_gateway_api_poc.Nfqlb.Config.{new_nfqlb_config, new_nfqlb_service_config}
use l_3_4_gateway_api_poc.Nfqlb.LoadBalancer.{LoadBalancer}
use l_3_4_gateway_api_poc.Nfqlb.Platform.{Platform}
use l_3_4_gateway_api_poc.Nfqlb.Service.{Service}

abbrev pub no_addresses : Addresses
no_addresses = record {
  parse_ip = λ t. none;
  parse_cidr = λ t. none;
  ip_string = λ ip. [];
  net_string = λ net. [];
}

abbrev pub quiet_host : Platform
quiet_host = record {
  World = Unit;
  run_command = λ path args w. (some [], w);
  unmarshal_flows = λ t. some [];
  addresses = no_addresses;
  rule_add = λ r w. (true, w);
  rule_del = λ r w. (true, w);
  route_add = λ r w. (true, w);
  route_del = λ r w. (true, w);
  route_list = λ f r w. some [];
  neigh_list = λ w. some [];
  neigh_del = λ ip w. (true, w);
  get_set_elements = λ f w. some [];
  queue_message = λ m. true;
  flush = λ ms w. (true, w);
}

-- A host on which the `nfqlb` binary always fails.
abbrev pub broken_host : Platform
broken_host = record quiet_host { run_command = λ path args w. (none, w) }

abbrev pub service_a : Service
service_a = record {
  config = new_nfqlb_service_config;
  name = codes "a";
  targets = [];
  offset = 5000;
}

abbrev pub service_b : Service
service_b = record {
  config = new_nfqlb_service_config;
  name = codes "b";
  targets = (pos 3, []) ∷ [];
  offset = 5100;
}

abbrev pub one_service : LoadBalancer
one_service = record {
  config = new_nfqlb_config;
  services = (codes "a", service_a) ∷ [];
  mu = false;
}
