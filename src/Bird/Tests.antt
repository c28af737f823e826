-- ===== src/Bird/Tests.antt =====
-- The properties of pkg/bird at concrete inputs.
use l_3_4_gateway_api_poc.Base.{
  ◌≡◌, refl, ◌↔◌, inl, inr, true, false, none, List, [], ◌∷◌, ◌++◌, map, Text, codes, pos, In,
  Distinct,
}
use l_3_4_gateway_api_poc.Net.{IpNet}
use l_3_4_gateway_api_poc.Netlink.Sample.{State, sample_netlink, sample_kernel, sample_addresses}
use l_3_4_gateway_api_poc.Bird.Configuration.{vips_config}
use l_3_4_gateway_api_poc.Bird.Rules.{src_string, set_policy_routes}
use l_3_4_gateway_api_poc.Bird.Nets.{vip_nets}
use l_3_4_gateway_api_poc.Bird.Exact.{set_policy_routes-vip_nets}
use l_3_4_gateway_api_poc.Bird.Vips.{static_protocol, AreOfFamily, vips_config-AreOfFamily}
use l_3_4_gateway_api_poc.Bird.Process.{Host, Bird, new_bird, succeeded}
use l_3_4_gateway_api_poc.Bird.Locking.{Call, run, configure_with, perform, BehindRun, perform-none}

abbrev net_one : IpNet
net_one = record { ip = 10 ∷ 0 ∷ 0 ∷ 1 ∷ []; mask = [] }

abbrev net_two : IpNet
net_two = record { ip = 10 ∷ 0 ∷ 0 ∷ 2 ∷ []; mask = [] }

one_not_two : ¬ (net_one ≡ net_two)
one_not_two e = let same : net_one.ip ≡ net_two.ip = λ i. (e i).ip in absurd (cc)

-- A rule of an address that stays, one of another, and an address that is new.
abbrev two_rules : State
two_rules = record {
  rules = (net_one ∷ net_two ∷ [], ((elim [ inl e ↦ one_not_two e | inr e ↦ e ]), ((λ e. e), tt)));
  routes = ([], tt);
  addrs = ([], tt);
}

abbrev vips : List Text
vips = (10 ∷ 0 ∷ 0 ∷ 2 ∷ []) ∷ (10 ∷ 0 ∷ 0 ∷ 3 ∷ []) ∷ (7 ∷ []) ∷ []

set_policy_routes-vip_nets_example :
    ((set_policy_routes sample_addresses sample_netlink vips two_rules).0 ≡ [])
    × Distinct (
        map
          (src_string sample_addresses sample_netlink)
          (set_policy_routes sample_addresses sample_netlink vips two_rules).1.rules.0)
    × ((t : Text)
        → In t (
            map
              (src_string sample_addresses sample_netlink)
              (set_policy_routes sample_addresses sample_netlink vips two_rules).1.rules.0)
          ↔ In t (vip_nets sample_addresses vips))
set_policy_routes-vip_nets_example =
    set_policy_routes-vip_nets sample_addresses sample_netlink (sample_kernel (pos 4096)) vips
      two_rules

vips_config-AreOfFamily_example :
    (four : List Text) × (six : List Text) × AreOfFamily sample_addresses true vips four
    × AreOfFamily sample_addresses false vips six
    × (vips_config sample_addresses vips
        ≡ static_protocol (codes "VIP4") (codes "ipv4") four
          ++ static_protocol (codes "VIP6") (codes "ipv6") six)
vips_config-AreOfFamily_example = vips_config-AreOfFamily sample_addresses vips

abbrev sample_host : Host
sample_host = record {
  netlink = sample_netlink;
  addresses = sample_addresses;
  not_exist = λ f w. true;
  create_file = λ f w. (true, w);
  write_string = λ f t w. (true, w);
  run_command = λ c args w. (succeeded, w);
}

abbrev running_bird : Bird
unfolding new_bird
running_bird = record new_bird { running = true }

abbrev calls : List Call
calls = configure_with vips [] ∷ run ∷ configure_with vips [] ∷ []

perform-none_example : (perform sample_host calls running_bird two_rules ≡ none) ↔ BehindRun calls
unfolding running_bird new_bird
perform-none_example = perform-none sample_host calls running_bird two_rules refl refl
