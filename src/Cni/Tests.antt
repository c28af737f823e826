-- ===== src/Cni/Tests.antt =====
-- The properties of the two plug-ins at concrete inputs.
use l_3_4_gateway_api_poc.Base.{
  lookup, has, ◌≡◌, refl, ◌↔◌, none, some, List, [], ◌∷◌, Text, Option, codes, pos, In,
}
use l_3_4_gateway_api_poc.Net.{to4, Ip, IpNet}
use l_3_4_gateway_api_poc.Netlink.Sample.{put, State, sample_netlink}
use l_3_4_gateway_api_poc.Cni.{CmdArgs}
use l_3_4_gateway_api_poc.Cni.Stored.{Empty}
use l_3_4_gateway_api_poc.Cni.Sample.{
  create, Machine, sample_host, sample_laws, sample_table, sample_link,
}
use l_3_4_gateway_api_poc.Cni.PolicyRoute.{Policy}
use l_3_4_gateway_api_poc.Cni.PolicyRoute as policy
use l_3_4_gateway_api_poc.Cni.LoopbackVip as loopback
use l_3_4_gateway_api_poc.Cni.Flushed.{cmd_del-cmd_add, cmd_add-cmd_add}
use l_3_4_gateway_api_poc.Cni.Restored.{cmd_del-add_vip}

abbrev empty_state : State
empty_state = record { rules = ([], tt); routes = ([], tt); addrs = ([], tt) }

abbrev empty_machine : Machine
empty_machine = record { inside = empty_state; files = [] }

abbrev args : CmdArgs
args = record { netns = codes "/run/netns/pod"; if_name = codes "net1"; stdin_data = codes "{}" }

abbrev policies : List Policy
policies = record { src_prefix = 10 ∷ 0 ∷ 0 ∷ 5 ∷ [] } ∷ record { src_prefix = codes "wrong" } ∷ []

abbrev hops : List Ip
hops = (10 ∷ 0 ∷ 0 ∷ 9 ∷ []) ∷ []

abbrev policy_conf : Text → Option policy.NetConf
policy_conf t = some (record {
  cni_version = codes "1.0.0";
  gateways = hops;
  table_id = pos 5000;
  policy_routes = policies;
  args = none;
})

abbrev loopback_conf : Text → Option loopback.NetConf
loopback_conf t =
    some (record { cni_version = codes "1.0.0"; vip = 10 ∷ 0 ∷ 0 ∷ 5 ∷ []; args = none })

policy_added : (policy.cmd_add sample_host policy_conf args empty_machine).0 ≡ none
unfolding policy.cmd_add to4 put has create lookup
policy_added = refl

cmd_add-cmd_add_example : ¬ (
    (policy.cmd_add sample_host policy_conf args
      (policy.cmd_add sample_host policy_conf args empty_machine).1).0
    ≡ none)
cmd_add-cmd_add_example =
    cmd_add-cmd_add sample_host sample_laws policy_conf args empty_machine policy_added

loopback_added : (loopback.cmd_add sample_host loopback_conf args empty_machine).0 ≡ none
unfolding loopback.cmd_add to4 put has create lookup
loopback_added = refl

abbrev policy_after : Machine
policy_after =
    (policy.cmd_del sample_host policy_conf args
      (policy.cmd_add sample_host policy_conf args empty_machine).1).1

cmd_del-cmd_add_example :
    ((policy.cmd_del sample_host policy_conf args
        (policy.cmd_add sample_host policy_conf args empty_machine).1).0
      ≡ none)
    × Empty sample_host sample_laws args policy_after
    × ((conf : policy.NetConf) × (n : Unit) × (policy.load_conf policy_conf args.stdin_data
          ≡ some conf)
        × (sample_host.get_ns args.netns empty_machine ≡ some n)
        × (policy_after.inside.rules.0 ≡ [])
        × (policy_after.inside.routes.0 ≡ []))
cmd_del-cmd_add_example =
    cmd_del-cmd_add sample_host sample_laws policy_conf sample_table args empty_machine policy_added

abbrev loopback_after : Machine
loopback_after =
    (loopback.cmd_del sample_host loopback_conf args
      (loopback.cmd_add sample_host loopback_conf args empty_machine).1).1

cmd_del-add_vip_example :
    ((loopback.cmd_del sample_host loopback_conf args
        (loopback.cmd_add sample_host loopback_conf args empty_machine).1).0
      ≡ none)
    × Empty sample_host sample_laws args loopback_after
    × ((n : Unit) × (i : Unit) × (sample_host.get_ns args.netns empty_machine ≡ some n)
        × (sample_netlink.link_by_name loopback.interface_name empty_state ≡ some i)
        × ((x : IpNet) → In x loopback_after.inside.addrs.0 ↔ In x empty_state.addrs.0))
cmd_del-add_vip_example =
    cmd_del-add_vip sample_host sample_laws loopback_conf sample_link args empty_machine
      loopback_added
