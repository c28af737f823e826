-- ===== src/Router/Gateway.antt =====
-- pkg/controllers/router/gateway.go: the gateway that the router hands to bird.
use l_3_4_gateway_api_poc.Base.{ℕ, Bool, Option, none, some, [], ◌∷◌, Text, text_discrete, ite}
use l_3_4_gateway_api_poc.Api.{GatewayRouter}
use l_3_4_gateway_api_poc.Api as api
use l_3_4_gateway_api_poc.Bird.Gateway as bird

-- `none` is a nil pointer.
pub record BfdSpec : Type 0 where
  pub sw : Option Bool
  pub min_tx : Text
  pub min_rx : Text
  pub multiplier : Option ℕ

-- The pointer `bfd` is never nil.
pub record BgpSpec : Type 0 where
  pub remote_asn : Option ℕ
  pub local_asn : Option ℕ
  pub bfd : BfdSpec
  pub hold_time : Text
  pub remote_port : Option ℕ
  pub local_port : Option ℕ

pub record StaticSpec : Type 0 where
  pub bfd : BfdSpec

pub record Gateway : Type 0 where
  pub name : Text
  pub address : Text
  pub intf : Text
  pub protocol : Text
  pub bgp : Option BgpSpec
  pub static : Option StaticSpec

-- What the getters of each type return.
abbrev pub bfd_getters : BfdSpec → bird.BfdSpec
bfd_getters bfds = record {
  switch = bfds.sw;
  min_tx = bfds.min_tx;
  min_rx = bfds.min_rx;
  multiplier = bfds.multiplier;
}

abbrev pub bgp_getters : BgpSpec → bird.BgpSpec
bgp_getters bgps = record {
  remote_asn = bgps.remote_asn;
  local_asn = bgps.local_asn;
  bfd = bfd_getters bgps.bfd;
  hold_time = bgps.hold_time;
  remote_port = bgps.remote_port;
  local_port = bgps.local_port;
}

abbrev pub static_getters : StaticSpec → bird.StaticSpec
static_getters ss = record { bfd = bfd_getters ss.bfd }

abbrev pub getters : Gateway → bird.Gateway
getters gw = record {
  name = gw.name;
  address = gw.address;
  interface = gw.intf;
  protocol = gw.protocol;
  bgp = elim gw.bgp [ none ↦ none | some spec ↦ some (bgp_getters spec) ];
  static = elim gw.static [ none ↦ none | some spec ↦ some (static_getters spec) ];
}

-- The protocol of a router that names none is BGP.
abbrev pub protocol_or_bgp : Text → Text
protocol_or_bgp [] = bird.bgp_protocol
protocol_or_bgp (c ∷ t) = c ∷ t

-- `&bfdSpec{...}` of `newGateway`
abbrev pub bfd_of : api.BfdSpec → BfdSpec
bfd_of bfd = record {
  sw = bfd.switch;
  min_tx = bfd.min_tx;
  min_rx = bfd.min_rx;
  multiplier = bfd.multiplier;
}

-- `&bgpSpec{...}` of `newGateway`
abbrev pub bgp_of : api.BgpSpec → BgpSpec
bgp_of bgp = record {
  remote_asn = bgp.remote_asn;
  local_asn = bgp.local_asn;
  bfd = bfd_of bgp.bfd;
  hold_time = bgp.hold_time;
  remote_port = bgp.remote_port;
  local_port = bgp.local_port;
}

unfoldable pub new_gateway : GatewayRouter → Gateway
new_gateway gw =
    let protocol = protocol_or_bgp gw.spec.protocol in
    record {
      name = gw.name;
      address = gw.spec.address;
      intf = gw.spec.interface;
      protocol = protocol;
      bgp = ite (text_discrete protocol bird.bgp_protocol) (some (bgp_of gw.spec.bgp)) none;
      static =
          ite (text_discrete protocol bird.static_protocol)
            (some (record { bfd = bfd_of gw.spec.bgp.bfd })) none;
    }
