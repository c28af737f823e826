-- ===== src/Endpoints.antt =====
-- pkg/endpointslice, pkg/controllers/statelessloadbalancer/endpoint, and the identifiers that
-- pkg/controllers/statelessloadbalancer/controllermanager/endpointslice.go gives to endpoints.
-- Every endpoint has a `TargetRef`, as those that this code writes do.
pub mod Merge
pub mod Identifiers
pub mod Free
pub mod Merged
pub mod Tests
pub mod Complete
pub mod Stable
pub mod Distinct
use l_3_4_gateway_api_poc.Base.{Bool, Option, none, some, List, Text, ℤ, itoa, atoi}

-- `v1discovery.AddressType`; `untyped` is the empty string.
pub data AddressType : Type 0 where
  ipv4 ipv6 untyped : AddressType

-- `v1.ObjectReference`
pub record TargetRef : Type 0 where
  pub kind : Text
  pub name : Text
  pub namespace : Text
  pub uid : Text

-- `v1discovery.Endpoint`; the zone holds the identifier.
pub record Endpoint : Type 0 where
  pub target_ref : TargetRef
  pub open target_ref use *
  pub ready : Option Bool
  pub addresses : List Text
  pub zone : Option Text

-- The name, the namespace and the service label of `metav1.ObjectMeta`
pub record ObjectMeta : Type 0 where
  pub object_name : Text
  pub object_namespace : Text
  pub service_name : Option Text

pub record EndpointSlice : Type 0 where
  pub object_meta : ObjectMeta
  pub endpoints : List Endpoint
  pub address_type : AddressType

unfoldable pub get_identifier : Endpoint → Option ℤ
get_identifier endpoint = elim (endpoint.zone) [ none ↦ none | some zone ↦ atoi zone ]

unfoldable pub set_identifier : Endpoint → ℤ → Endpoint
set_identifier endpoint identifier = record endpoint { zone = some (itoa identifier) }
