-- ===== src/Netlink.antt =====
-- github.com/vishvananda/netlink as pkg/bird and cmd/cni call it: the policy rules and the routes
-- of a network namespace. A call acts on a state that the model knows nothing of.
pub mod Sample
use l_3_4_gateway_api_poc.Base.{
  ◌≡◌, ◌↔◌, ◌⊎◌, Bool, true, Option, some, List, Text, ℤ, In, Distinct,
}
use l_3_4_gateway_api_poc.Net.{Ip, IpNet}

-- `netlink.FAMILY_V4`, `netlink.FAMILY_V6`, and the family that `NewRule` leaves open
pub data RuleFamily : Type 0 where
  any_family family_v4 family_v6 : RuleFamily

-- The fields that the callers set on a `netlink.NewRule()`; `none` is the priority it has.
pub record RuleFields : Type 0 where
  pub priority : Option ℤ
  pub table : ℤ
  pub src : IpNet
  pub family : RuleFamily

-- `netlink.Route` with the table, the source and the gateways of `MultiPath`.
pub record RouteFields : Type 0 where
  pub table : ℤ
  pub src : Ip
  pub multi_path : List Ip

pub record Netlink : Type 1 where
  pub World : Type 0
  pub Rule : Type 0
  pub Route : Type 0
  pub new_rule : RuleFields → Rule
  pub new_route : RouteFields → Route
  -- `rule.Src`, `none` for nil
  pub rule_src : Rule → Option IpNet
  -- `RuleListFiltered` and `RouteListFiltered` by table; `true` stands for a nil error.
  pub rule_list : ℤ → World → Option (List Rule)
  pub rule_add : Rule → World → Bool × World
  pub rule_del : Rule → World → Bool × World
  pub route_list : ℤ → World → Option (List Route)
  pub route_add : Route → World → Bool × World
  pub route_del : Route → World → Bool × World
  -- `LinkByName`, and the addresses of a link; `none` is a nil network.
  pub Link : Type 0
  pub link_by_name : Text → World → Option Link
  pub addr_add : Link → Option IpNet → World → Bool × World
  pub addr_del : Link → Option IpNet → World → Bool × World

-- What the kernel documents of the rules of a table that can be listed, `rules`: no rule stands
-- twice, a listed rule can be deleted, and a rule that is added or deleted changes no other.
pub record Kernel (n : Netlink) (table : ℤ) : Type 0 where
  pub rules : n.World → List n.Rule
  pub listed : (w : n.World) → n.rule_list table w ≡ some (rules w)
  pub rules-Distinct : (w : n.World) → Distinct (rules w)
  pub deleted :
      (r : n.Rule) (w : n.World)
      → In r (rules w)
      → ((n.rule_del r w).0 ≡ true)
        × ((x : n.Rule) → In x (rules (n.rule_del r w).1) ↔ (In x (rules w) × (¬ (x ≡ r))))
  pub added :
      (f : RuleFields) (w : n.World)
      → f.table ≡ table
      → ¬ In (n.new_rule f) (rules w)
      → ((n.rule_add (n.new_rule f) w).0 ≡ true)
        × ((x : n.Rule)
            → In x (rules (n.rule_add (n.new_rule f) w).1) ↔ ((x ≡ n.new_rule f) ⊎ In x (rules w)))
  pub source : (f : RuleFields) → n.rule_src (n.new_rule f) ≡ some f.src
