-- ===== src/Router.antt =====
-- pkg/controllers/router: the controller that hands the addresses of the gateway and its routers
-- to bird.
pub mod Gateway
pub mod Panics
pub mod Vips
mod Tests
use l_3_4_gateway_api_poc.Base.{
  Bool, true, false, Option, none, some, List, [], ◌∷◌, ◌++◌, map, ◌&&◌, Text, text_discrete, codes,
  lookup, has, ite, if◌then◌else◌,
}
use l_3_4_gateway_api_poc.Api.{GatewayRouter}
use l_3_4_gateway_api_poc.Net.{Ip, Addresses, is_v4}
use l_3_4_gateway_api_poc.Bird.Gateway.{Gateway as BirdGateway}
use l_3_4_gateway_api_poc.Router.Gateway.{new_gateway, getters}

module _ (a : Addresses) where
  open a use {parse_ip, ip_string}

  abbrev pub vip_of : Ip → Text
  vip_of ip = if is_v4 ip then ip_string ip ++ codes "/32" else ip_string ip ++ codes "/128"

  -- The loop of `getVIPs`, with the keys of `vipMap`.
  unfoldable pub get_vips_from : List Text → List Text → List Text
  unfolding has
  get_vips_from [] seen = []
  get_vips_from (address ∷ addresses) seen =
      let skipped = get_vips_from addresses seen in
      elim (parse_ip address) [
        | none ↦ skipped
        | some ip ↦
            let rest = get_vips_from addresses (vip_of ip ∷ seen) in
            if has text_discrete (vip_of ip) seen then skipped else vip_of ip ∷ rest
      ]

  -- `getVIPs` on the values of `gateway.Status.Addresses`
  unfoldable pub get_vips : List Text → List Text
  unfolding get_vips_from
  get_vips addresses = get_vips_from addresses []

-- The API server: `Get` of the gateway, whose status has the addresses, and `List` of the routers
-- by the value of the label of the service proxy.
pub data Found : Type 0 where
  found : List Text → Found
  not_found get_error : Found

-- `RoutingSuite` and the client, on one state; `false` stands for an error.
pub record Cluster : Type 1 where
  pub World : Type 0
  pub get_gateway : Text → Text → World → Found
  pub list_gateway_routers : Text → World → Option (List GatewayRouter)
  pub configure : List Text → List BirdGateway → World → Bool × World

pub record Controller : Type 0 where
  pub name : Text
  pub namespace : Text

pub data Reconciled : Type 0 where
  reconciled gateway_failed routers_failed configure_failed : Reconciled

module _ (c : Cluster) where
  open c use {World, get_gateway, list_gateway_routers, configure}

  unfoldable pub get_gateway_routers : Controller → World → Option (List BirdGateway)
  unfolding new_gateway
  get_gateway_routers controller w = elim (list_gateway_routers controller.name w) [
    | none ↦ none
    | some items ↦ some (map (λ gw. getters (new_gateway gw)) items)
  ]

  unfoldable pub reconcile : Addresses → Controller → Text → Text → World → Reconciled × World
  unfolding get_vips get_gateway_routers
  reconcile a controller name namespace w =
      let own =
        ite (text_discrete name controller.name) true false
        && ite (text_discrete namespace controller.namespace) true false in
      if own
      then elim (get_gateway name namespace w) [
        | not_found ↦ (reconciled, w)
        | get_error ↦ (gateway_failed, w)
        | found addresses ↦ elim (get_gateway_routers controller w) [
          | none ↦ (routers_failed, w)
          | some gateways ↦
              let (configured, w1) = configure (get_vips a addresses) gateways w in
              (if configured then reconciled else configure_failed, w1)
        ]
      ]
      else (reconciled, w)

-- The requests, names with namespaces, for a router that has changed; the first argument is
-- `apis.LabelServiceProxyName`.
unfoldable pub gateway_router_enqueue : Text → GatewayRouter → List (Text × Text)
unfolding lookup
gateway_router_enqueue label object = elim (lookup text_discrete label object.labels) [
  | none ↦ []
  | some gateway_name ↦ (gateway_name, object.namespace) ∷ []
]
