-- ===== src/Cni/PolicyRoute.antt =====
-- cmd/cni/policy-route/main.go: the plug-in that sends what a pod answers from the addresses of
-- the gateway through the routers.
use l_3_4_gateway_api_poc.Base.{
  Bool, Option, none, some, List, [], ◌∷◌, Text, ℤ, length, leb, if◌then◌else◌,
}
use l_3_4_gateway_api_poc.Net.{Ip, IpNet, Addresses, is_v4}
use l_3_4_gateway_api_poc.Netlink.{Netlink, RuleFields, RouteFields, family_v4, family_v6}
use l_3_4_gateway_api_poc.Cni.{CmdArgs, Host}
use l_3_4_gateway_api_poc.Cni.Command.{CommandError, add_with, del_with}

-- pkg/cni/policy-route.go
pub record Policy : Type 0 where
  pub src_prefix : Text

pub record EnvArgs : Type 0 where
  pub gateways : List Text
  pub table_id : ℤ
  pub policy_routes : List Policy

-- `none` is a nil pointer.
pub record CniArgs : Type 0 where
  pub a : Option EnvArgs

pub record NetConf : Type 0 where
  pub cni_version : Text
  pub gateways : List Text
  pub table_id : ℤ
  pub policy_routes : List Policy
  pub args : Option CniArgs

pub data PolicyError : Type 0 where
  rules_not_listed rule_not_deleted routes_not_listed route_not_deleted : PolicyError
  ipv4_route_not_added ipv6_route_not_added rule_not_added : PolicyError

abbrev pub env_args_of : NetConf → Option EnvArgs
env_args_of conf = elim conf.args [ none ↦ none | some args ↦ args.a ]

-- `loadConf`, on what `json.Unmarshal` makes of the data
unfoldable pub load_conf : (Text → Option NetConf) → Text → Option NetConf
load_conf unmarshal stdin_data = elim (unmarshal stdin_data) [
  | none ↦ none
  | some conf ↦ elim (env_args_of conf) [
    | none ↦ some conf
    | some a ↦ some (record conf {
      gateways = a.gateways;
      table_id = a.table_id;
      policy_routes = a.policy_routes;
    })
  ]
]

-- The loops of both flushes, which stop at the first failure.
unfoldable pub delete_each :
    {I W : Type 0} → (I → W → Bool × W) → PolicyError → List I → W → Option PolicyError × W
delete_each del error [] w = (none, w)
delete_each del error (item ∷ items) w =
    let (deleted, w1) = del item w in
    let rest = delete_each del error items w1 in if deleted then rest else (some error, w1)

-- `net.IPv4(0, 0, 0, 0)`
abbrev pub ipv4_zero : Ip
ipv4_zero = 0 ∷ 0 ∷ 0 ∷ 0 ∷ 0 ∷ 0 ∷ 0 ∷ 0 ∷ 0 ∷ 0 ∷ 255 ∷ 255 ∷ 0 ∷ 0 ∷ 0 ∷ 0 ∷ []

-- `net.ParseIP("::")`
abbrev pub ipv6_zero : Ip
ipv6_zero = 0 ∷ 0 ∷ 0 ∷ 0 ∷ 0 ∷ 0 ∷ 0 ∷ 0 ∷ 0 ∷ 0 ∷ 0 ∷ 0 ∷ 0 ∷ 0 ∷ 0 ∷ 0 ∷ []

abbrev pub source_rule : ℤ → IpNet → RuleFields
source_rule table_id prefix = record {
  priority = none;
  table = table_id;
  src = prefix;
  family = if is_v4 prefix.ip then family_v4 else family_v6;
}

abbrev pub multi_path_route : ℤ → Ip → List Ip → RouteFields
multi_path_route table_id src nexthops = record {
  table = table_id;
  src = src;
  multi_path = nexthops;
}

module _ (a : Addresses) where
  open a use {parse_ip, parse_cidr}

  unfoldable pub get_next_hops : List Text → List Ip × List Ip
  get_next_hops [] = ([], [])
  get_next_hops (gateway ∷ gateways) =
      let (v4, v6) = get_next_hops gateways in
      elim (parse_ip gateway) [
        | none ↦ (v4, v6)
        | some [] ↦ (v4, v6)
        | some (b ∷ bs) ↦ if is_v4 (b ∷ bs) then ((b ∷ bs) ∷ v4, v6) else (v4, (b ∷ bs) ∷ v6)
      ]

  module _ (n : Netlink) where
    open n use {
      World, new_rule, new_route, rule_list, rule_add, rule_del, route_list, route_add, route_del,
    }

    unfoldable pub flush_routing_policies : ℤ → World → Option PolicyError × World
    unfolding delete_each
    flush_routing_policies table_id w = elim (rule_list table_id w) [
      | none ↦ (some rules_not_listed, w)
      | some rules ↦ delete_each rule_del rule_not_deleted rules w
    ]

    unfoldable pub flush_routing_tables : ℤ → World → Option PolicyError × World
    unfolding delete_each
    flush_routing_tables table_id w = elim (route_list table_id w) [
      | none ↦ (some routes_not_listed, w)
      | some routes ↦ delete_each route_del route_not_deleted routes w
    ]

    unfoldable pub add_policies : ℤ → List Policy → World → Option PolicyError × World
    add_policies table_id [] w = (none, w)
    add_policies table_id (policy ∷ policies) w =
        let skipped = add_policies table_id policies w in
        elim (parse_cidr policy.src_prefix) [
          | none ↦ skipped
          | some (_, prefix) ↦
              let (added, w1) = rule_add (new_rule (source_rule table_id prefix)) w in
              let rest = add_policies table_id policies w1 in
              if added then rest else (some rule_not_added, w1)
        ]

    -- A route is added if it has a gateway.
    unfoldable pub add_nexthops :
        PolicyError → ℤ → Ip → List Ip → World → Option PolicyError × World
    add_nexthops error table_id src nexthops w =
        let (added, w1) = route_add (new_route (multi_path_route table_id src nexthops)) w in
        if leb 1 (length nexthops)
        then (if added then (none, w1) else (some error, w1))
        else (none, w)

    unfoldable pub configure_net_ns :
        ℤ → List Policy → List Ip → List Ip → World → Option PolicyError × World
    unfolding flush_routing_policies flush_routing_tables add_nexthops add_policies
    configure_net_ns table_id policy_routes nexthops_v4 nexthops_v6 w =
        let (e1, w1) = flush_routing_policies table_id w in
        let (e2, w2) = flush_routing_tables table_id w1 in
        let (e3, w3) = add_nexthops ipv4_route_not_added table_id ipv4_zero nexthops_v4 w2 in
        let (e4, w4) = add_nexthops ipv6_route_not_added table_id ipv6_zero nexthops_v6 w3 in
        let last = add_policies table_id policy_routes w4 in
        elim e1 [
          | some e ↦ (some e, w1)
          | none ↦ elim e2 [
            | some e ↦ (some e, w2)
            | none ↦ elim e3 [
              | some e ↦ (some e, w3)
              | none ↦ elim e4 [ some e ↦ (some e, w4) | none ↦ last ]
            ]
          ]
        ]

    -- What `cmdAdd` does in the namespace
    unfoldable pub apply_conf : NetConf → World → Option PolicyError × World
    unfolding get_next_hops configure_net_ns
    apply_conf conf w =
        let (nexthops_v4, nexthops_v6) = get_next_hops conf.gateways in
        configure_net_ns conf.table_id conf.policy_routes nexthops_v4 nexthops_v6 w

    -- What `cmdDel` does in the namespace
    unfoldable pub flush_conf : NetConf → World → Option PolicyError × World
    unfolding flush_routing_policies flush_routing_tables
    flush_conf conf w =
        let (e, w1) = flush_routing_policies conf.table_id w in
        let last = flush_routing_tables conf.table_id w1 in
        elim e [ some x ↦ (some x, w1) | none ↦ last ]

module _ (h : Host) (unmarshal : Text → Option NetConf) where
  unfoldable pub cmd_add : CmdArgs → h.World → Option (CommandError PolicyError) × h.World
  unfolding add_with load_conf apply_conf
  cmd_add =
      add_with h (load_conf unmarshal) (λ conf. conf.cni_version) (apply_conf h.addresses h.netlink)

  unfoldable pub cmd_del : CmdArgs → h.World → Option (CommandError PolicyError) × h.World
  unfolding del_with load_conf flush_conf
  cmd_del =
      del_with h (load_conf unmarshal) (λ conf. conf.cni_version) (flush_conf h.addresses h.netlink)
