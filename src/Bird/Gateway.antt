-- ===== src/Bird/Gateway.antt =====
-- pkg/bird/interfaces.go: the interfaces as records of what their getters return.
use l_3_4_gateway_api_poc.Base.{ℕ, Bool, Option, Text, codes}

-- `v1alpha1.RoutingProtocol` is a string.
abbrev pub bgp_protocol : Text
bgp_protocol = codes "BGP"

abbrev pub static_protocol : Text
static_protocol = codes "Static"

-- `none` is a nil pointer.
pub record BfdSpec : Type 0 where
  pub switch : Option Bool
  pub min_tx : Text
  pub min_rx : Text
  pub multiplier : Option ℕ

pub record BgpSpec : Type 0 where
  pub remote_asn : Option ℕ
  pub local_asn : Option ℕ
  pub bfd : BfdSpec
  pub hold_time : Text
  pub remote_port : Option ℕ
  pub local_port : Option ℕ

pub record StaticSpec : Type 0 where
  pub bfd : BfdSpec

-- `none` is a nil pointer behind the interface: a getter of it dereferences nil.
pub record Gateway : Type 0 where
  pub name : Text
  pub address : Text
  pub interface : Text
  pub protocol : Text
  pub bgp : Option BgpSpec
  pub static : Option StaticSpec
