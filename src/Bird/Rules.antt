-- ===== src/Bird/Rules.antt =====
-- `setPolicyRoutes` of pkg/bird/network.go
use l_3_4_gateway_api_poc.Base.{
  none, some, List, [], ◌∷◌, ◌++◌, Text, text_discrete, codes, pos, insert, delete, exists,
  if◌then◌else◌,
}
use l_3_4_gateway_api_poc.Net.{Addresses, IpNet}
use l_3_4_gateway_api_poc.Netlink.{Netlink, RuleFields, any_family}
use l_3_4_gateway_api_poc.Bird.Template.{default_kernel_table_id}

-- The errors that are joined, the newest first.
pub data RuleError : Type 0 where
  list_failed del_failed add_failed : RuleError

-- The rule that is added for an address.
abbrev pub vip_rule : IpNet → RuleFields
vip_rule net = record {
  priority = some (pos 100);
  table = pos default_kernel_table_id;
  src = net;
  family = any_family;
}

module _ (a : Addresses) where
  open a use {parse_cidr, net_string}

  unfoldable pub add_vips : List Text → List (Text × IpNet) → List (Text × IpNet)
  unfolding insert
  add_vips [] m = m
  add_vips (vip ∷ vips) m = elim (parse_cidr vip) [
    | none ↦ add_vips vips m
    | some (_, net) ↦ add_vips vips (insert text_discrete (net_string net) net m)
  ]

  -- `vipMap`
  unfoldable pub vip_map : List Text → List (Text × IpNet)
  unfolding add_vips
  vip_map vips = add_vips vips []

  module _ (n : Netlink) where
    open n use {World, Rule, new_rule, rule_src, rule_list, rule_add, rule_del}

    -- `rule.Src.String()`, on nil too
    unfoldable pub src_string : Rule → Text
    src_string rule = elim (rule_src rule) [ none ↦ codes "<nil>" | some net ↦ net_string net ]

    -- The loop on the rules: the errors and the addresses that have no rule yet.
    unfoldable pub delete_rules :
        List Rule → List (Text × IpNet) → World → (List RuleError × List (Text × IpNet)) × World
    unfolding exists delete src_string
    delete_rules [] m w = (([], m), w)
    delete_rules (rule ∷ rules) m w =
        let (deleted, w1) = rule_del rule w in
        let ((errors, left), w2) = delete_rules rules m w1 in
        let kept = delete_rules rules (delete text_discrete (src_string rule) m) w in
        if exists (src_string rule) m
        then kept
        else if deleted
        then ((errors, left), w2)
        else ((errors ++ del_failed ∷ [], left), w2)

    -- The loop on the addresses that are left
    unfoldable pub add_rules : List (Text × IpNet) → World → List RuleError × World
    add_rules [] w = ([], w)
    add_rules ((_, net) ∷ m) w =
        let (added, w1) = rule_add (new_rule (vip_rule net)) w in
        let (errors, w2) = add_rules m w1 in
        if added then (errors, w2) else (errors ++ add_failed ∷ [], w2)

    unfoldable pub set_policy_routes : List Text → World → List RuleError × World
    unfolding vip_map delete_rules add_rules
    set_policy_routes vips w = elim (rule_list (pos default_kernel_table_id) w) [
      | none ↦ (list_failed ∷ [], w)
      | some rules ↦
          let ((del_errors, left), w1) = delete_rules rules (vip_map vips) w in
          let (add_errors, w2) = add_rules left w1 in (add_errors ++ del_errors, w2)
    ]
