-- ===== src/Router/Panics.antt =====
-- Which routers make bird's configuration dereference a nil AS number.
use l_3_4_gateway_api_poc.Base.{
  ℕ, ◌≡◌, refl, ◌↔◌, ◌⊎◌, inl, inr, Option, Option-cases, none, some, List, [], ◌∷◌, map, Text,
  text_discrete, if_pos, if_neg,
}
use l_3_4_gateway_api_poc.Api.{GatewayRouter}
use l_3_4_gateway_api_poc.Net.{Addresses}
use l_3_4_gateway_api_poc.Bird.Gateway.{Gateway, BgpSpec, bgp_protocol}
use l_3_4_gateway_api_poc.Bird.Template.{default_local_asn, default_remote_asn}
use l_3_4_gateway_api_poc.Bird.Configuration.{
  Settings, asn_under_port, bgp_config, gateway_config, gateway_configs, gateways_config,
  get_config,
}
use l_3_4_gateway_api_poc.Router.Gateway.{
  new_gateway, getters, bgp_getters, bgp_of, protocol_or_bgp,
}

-- A router as bird sees it.
abbrev pub as_gateway : GatewayRouter → Gateway
as_gateway gw = getters (new_gateway gw)

-- A port is set, and the AS number is nil.
abbrev pub PortOnly : Option ℕ → Option ℕ → Type 0
PortOnly none asn = ⊥
PortOnly (some port) none = Unit
PortOnly (some port) (some asn) = ⊥

-- A router that speaks BGP, by its protocol or by default, has a port without its AS number.
abbrev pub LacksAsn : GatewayRouter → Type 0
LacksAsn gw =
    (protocol_or_bgp gw.spec.protocol ≡ bgp_protocol)
    × (PortOnly gw.spec.bgp.local_port gw.spec.bgp.local_asn
        ⊎ PortOnly gw.spec.bgp.remote_port gw.spec.bgp.remote_asn)

abbrev pub SomeLacksAsn : List GatewayRouter → Type 0
SomeLacksAsn [] = ⊥
SomeLacksAsn (gw ∷ gws) = LacksAsn gw ⊎ SomeLacksAsn gws

asn_under_port-PortOnly :
    (port asn : Option ℕ) (d : ℕ) → (asn_under_port port asn d ≡ none) ↔ PortOnly port asn
asn_under_port-PortOnly none asn d = ((λ p. absurd (cc)), λ a. absurd a)
asn_under_port-PortOnly (some port) none d = ((λ p. tt), λ a. refl)
asn_under_port-PortOnly (some port) (some asn) d = ((λ p. absurd (cc)), λ a. absurd a)

module _ (a : Addresses) where
  bgp_config-none :
      (g : Gateway) (spec : BgpSpec)
      → g.bgp ≡ some spec
      → (bgp_config a g ≡ none)
        ↔ (PortOnly spec.local_port spec.local_asn ⊎ PortOnly spec.remote_port spec.remote_asn)
  unfolding bgp_config
  bgp_config-none g spec e =
      let (to_l, from_l) =
        asn_under_port-PortOnly spec.local_port spec.local_asn default_local_asn in
      let (to_r, from_r) =
        asn_under_port-PortOnly spec.remote_port spec.remote_asn default_remote_asn in
      elim (Option-cases (asn_under_port spec.local_port spec.local_asn default_local_asn)) [
        | inl l ↦ rw (e, bgp_config, l) ((λ p. inl (to_l l)), λ q. refl)
        | inr (x, l) ↦
            elim (Option-cases
              (asn_under_port spec.remote_port spec.remote_asn default_remote_asn)) [
                | inl r ↦ rw (e, bgp_config, l, r) ((λ p. inr (to_r r)), λ q. refl)
                | inr (y, r) ↦
                    rw (e, bgp_config, l, r)
                      (
                        (λ p. absurd (cc)),
                        elim [
                          | inl q ↦ let n = from_l q in absurd (cc)
                          | inr q ↦ let n = from_r q in absurd (cc)
                        ],
                      )
              ]
      ]

  gateway_config-LacksAsn :
      (gw : GatewayRouter) → (gateway_config a (as_gateway gw) ≡ none) ↔ LacksAsn gw
  unfolding gateway_config new_gateway
  gateway_config-LacksAsn gw =
      elim (text_discrete (protocol_or_bgp gw.spec.protocol) bgp_protocol) [
        | yes e ↦
            let (to, from) = bgp_config-none (as_gateway gw) (bgp_getters (bgp_of gw.spec.bgp)) (
              rw
                (if_pos (text_discrete (protocol_or_bgp gw.spec.protocol) bgp_protocol) e
                  (some (bgp_of gw.spec.bgp)) none)
                refl) in
            rw
              (if_pos (text_discrete (protocol_or_bgp gw.spec.protocol) bgp_protocol) e
                (bgp_config a (as_gateway gw)) (some []))
              ((λ p. (e, to p)), λ q. from q.1)
        | no ne ↦
            rw
              (if_neg (text_discrete (protocol_or_bgp gw.spec.protocol) bgp_protocol) ne
                (bgp_config a (as_gateway gw)) (some []))
              ((λ p. absurd (cc)), λ q. absurd (ne q.0))
      ]

  gateway_configs-SomeLacksAsn :
      (gws : List GatewayRouter)
      → (gateway_configs a (map as_gateway gws) ≡ none) ↔ SomeLacksAsn gws
  unfolding gateway_configs
  gateway_configs-SomeLacksAsn [] = ((λ p. absurd (cc)), λ q. absurd q)
  gateway_configs-SomeLacksAsn (gw ∷ gws) =
      let (to, from) = gateway_config-LacksAsn gw in
      let (to_rest, from_rest) = gateway_configs-SomeLacksAsn gws in
      elim (Option-cases (gateway_config a (as_gateway gw))) [
        | inl l ↦ rw (l, gateway_configs) ((λ p. inl (to l)), λ q. refl)
        | inr (x, l) ↦ elim (Option-cases (gateway_configs a (map as_gateway gws))) [
          | inl r ↦ rw (l, gateway_configs, r) ((λ p. inr (to_rest r)), λ q. refl)
          | inr (y, r) ↦
              rw (l, gateway_configs, r)
                (
                  (λ p. absurd (cc)),
                  elim [
                    | inl q ↦ let n = from q in absurd (cc)
                    | inr q ↦ let n = from_rest q in absurd (cc)
                  ],
                )
        ]
      ]

  -- The configuration of bird from routers dereferences a nil AS number exactly if one of them
  -- speaks BGP, by its protocol or by default, and has a local or a remote port without the AS
  -- number of the same side.
  pub get_config-SomeLacksAsn :
      (s : Settings) (vips : List Text) (gws : List GatewayRouter)
      → (get_config a s vips (map as_gateway gws) ≡ none) ↔ SomeLacksAsn gws
  unfolding get_config gateways_config
  get_config-SomeLacksAsn s vips gws =
      let (to, from) = gateway_configs-SomeLacksAsn gws in
      elim (Option-cases (gateway_configs a (map as_gateway gws))) [
        | inl e ↦ rw (get_config, gateways_config, e) ((λ p. to e), λ q. refl)
        | inr (x, e) ↦
            rw (get_config, gateways_config, e)
              ((λ p. absurd (cc)), λ q. let n = from q in absurd (cc))
      ]
