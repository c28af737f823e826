-- ===== src/Router/Tests.antt =====
-- The properties of pkg/controllers/router at concrete inputs.
use l_3_4_gateway_api_poc.Base.{
  ◌≡◌, ◌↔◌, true, none, some, List, [], ◌∷◌, map, Text, codes, In, Distinct,
}
use l_3_4_gateway_api_poc.Api.{GatewayRouter}
use l_3_4_gateway_api_poc.Netlink.Sample.{sample_addresses}
use l_3_4_gateway_api_poc.Bird.Configuration.{get_config}
use l_3_4_gateway_api_poc.Bird.Process.{new_bird}
use l_3_4_gateway_api_poc.Router.{get_vips}
use l_3_4_gateway_api_poc.Router.Panics.{as_gateway, SomeLacksAsn, get_config-SomeLacksAsn}
use l_3_4_gateway_api_poc.Router.Vips.{Announced, get_vips-Announced}

-- A router with a remote port, without its AS number.
abbrev port_only : GatewayRouter
port_only = record {
  name = codes "router";
  namespace = codes "default";
  labels = [];
  spec = record {
    address = 10 ∷ 0 ∷ 0 ∷ 1 ∷ [];
    interface = codes "eth0";
    protocol = [];
    bgp = record {
      remote_asn = none;
      local_asn = some 8103;
      bfd = record { switch = some true; min_tx = codes "300ms"; min_rx = []; multiplier = none };
      hold_time = codes "3s";
      remote_port = some 10179;
      local_port = some 10179;
    };
    static = record { bfd = record { switch = none; min_tx = []; min_rx = []; multiplier = none } };
  };
}

abbrev vips : List Text
vips = (10 ∷ 0 ∷ 0 ∷ 2 ∷ []) ∷ (10 ∷ 0 ∷ 0 ∷ 3 ∷ []) ∷ (10 ∷ 0 ∷ 0 ∷ 2 ∷ []) ∷ (7 ∷ []) ∷ []

get_config-SomeLacksAsn_example :
    (get_config sample_addresses new_bird.settings vips (map as_gateway (port_only ∷ [])) ≡ none)
    ↔ SomeLacksAsn (port_only ∷ [])
get_config-SomeLacksAsn_example =
    get_config-SomeLacksAsn sample_addresses new_bird.settings vips (port_only ∷ [])

get_vips-Announced_example :
    Distinct (get_vips sample_addresses vips)
    × ((vip : Text) → In vip (get_vips sample_addresses vips) ↔ Announced sample_addresses vip vips)
get_vips-Announced_example = get_vips-Announced sample_addresses vips
