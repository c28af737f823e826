-- ===== src/Cni/Applied.antt =====
-- What the policy-route plug-in leaves in the table of its configuration.
use l_3_4_gateway_api_poc.Base.{none, some, List, [], ◌∷◌, map, ℤ}
use l_3_4_gateway_api_poc.Net.{Ip, IpNet, Addresses}
use l_3_4_gateway_api_poc.Netlink.{Netlink}
use l_3_4_gateway_api_poc.Cni.PolicyRoute.{Policy, source_rule, multi_path_route}
use l_3_4_gateway_api_poc.Cni.Table.{Table}

-- The prefixes that parse
unfoldable pub prefixes : Addresses → List Policy → List IpNet
prefixes a [] = []
prefixes a (policy ∷ policies) =
    let rest = prefixes a policies in
    elim (a.parse_cidr policy.src_prefix) [ none ↦ rest | some (_, prefix) ↦ prefix ∷ rest ]

module _ (a : Addresses) (n : Netlink) (t : ℤ) where
  abbrev pub source_rules : List Policy → List n.Rule
  source_rules policies = map (λ p. n.new_rule (source_rule t p)) (prefixes a policies)

  -- The route of the gateways of a family, if there are any.
  abbrev pub hop_routes : Ip → List Ip → List n.Route
  hop_routes src [] = []
  hop_routes src (hop ∷ hops) = n.new_route (multi_path_route t src (hop ∷ hops)) ∷ []
