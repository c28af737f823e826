-- ===== src/Api.antt =====
-- api/v1alpha1/types.go: the fields of `GatewayRouter` that the router reads.
use l_3_4_gateway_api_poc.Base.{ℕ, Bool, Option, List, Text}

-- `none` is a nil pointer.
pub record BfdSpec : Type 0 where
  pub switch : Option Bool
  pub min_tx : Text
  pub min_rx : Text
  pub multiplier : Option ℕ

pub record BgpSpec : Type 0 where
  pub remote_asn : Option ℕ
  pub local_asn : Option ℕ
  pub bfd : BfdSpec
  pub hold_time : Text
  pub remote_port : Option ℕ
  pub local_port : Option ℕ

pub record StaticSpec : Type 0 where
  pub bfd : BfdSpec

pub record GatewayRouterSpec : Type 0 where
  pub address : Text
  pub interface : Text
  pub protocol : Text
  pub bgp : BgpSpec
  pub static : StaticSpec

-- The name, the namespace and the labels of the object, and its specification.
pub record GatewayRouter : Type 0 where
  pub name : Text
  pub namespace : Text
  pub labels : List (Text × Text)
  pub spec : GatewayRouterSpec
