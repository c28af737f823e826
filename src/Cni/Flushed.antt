-- ===== src/Cni/Flushed.antt =====
-- The `cmdDel` of the policy-route plug-in after its `cmdAdd`.
use l_3_4_gateway_api_poc.Base.{◌≡◌, ap, ◌∙◌, Option, none, some, [], Text, ℤ}
use l_3_4_gateway_api_poc.Net.{Addresses}
use l_3_4_gateway_api_poc.Netlink.{Netlink}
use l_3_4_gateway_api_poc.Cni.{CmdArgs, Host}
use l_3_4_gateway_api_poc.Cni.Laws.{Lawful}
use l_3_4_gateway_api_poc.Cni.Stored.{Empty}
use l_3_4_gateway_api_poc.Cni.RoundTrip.{dels-adds, adds_again}
use l_3_4_gateway_api_poc.Cni.PolicyRoute.{
  NetConf, load_conf, flush_routing_policies, apply_conf, flush_conf, cmd_add, cmd_del,
}
use l_3_4_gateway_api_poc.Cni.Table.{
  Table, flush_routing_policies-nothing, flush_routing_tables-nothing,
}

module _ (a : Addresses) (n : Netlink) (conf : NetConf) (k : Table n conf.table_id) where
  flush_conf-nothing :
      (w : n.World)
      → ((flush_conf a n conf w).0 ≡ none)
        × (k.kernel.rules (flush_conf a n conf w).1 ≡ [])
        × (k.routes (flush_conf a n conf w).1 ≡ [])
  unfolding flush_conf
  flush_conf-nothing w =
      let (ok1, no_rules, kept1) = flush_routing_policies-nothing a n conf.table_id k w in
      let (ok2, no_routes, kept2) =
        flush_routing_tables-nothing a n conf.table_id k
          (flush_routing_policies a n conf.table_id w).1 in
      rw (flush_conf, ok1) (ok2, kept2 ∙ no_rules, no_routes)

module _ (h : Host) (l : Lawful h) (unmarshal : Text → Option NetConf) where
  -- On a host and a kernel that do what they document, DEL of the policy-route plug-in after an ADD
  -- of the same request without error has no error, leaves no rule and no route in the table of the
  -- configuration, and leaves no file of the request in the store.
  pub cmd_del-cmd_add :
      (k : (t : ℤ) → Table h.netlink t) (args : CmdArgs) (w : h.World)
      → (cmd_add h unmarshal args w).0 ≡ none
      → ((cmd_del h unmarshal args (cmd_add h unmarshal args w).1).0 ≡ none)
        × Empty h l args (cmd_del h unmarshal args (cmd_add h unmarshal args w).1).1
        × ((conf : NetConf) × (n : h.Netns) × (load_conf unmarshal args.stdin_data ≡ some conf)
            × (h.get_ns args.netns w ≡ some n)
            × ((k conf.table_id).kernel.rules
                  (h.inside n (cmd_del h unmarshal args (cmd_add h unmarshal args w).1).1)
                ≡ [])
            × ((k conf.table_id).routes
                  (h.inside n (cmd_del h unmarshal args (cmd_add h unmarshal args w).1).1)
                ≡ []))
  unfolding cmd_add cmd_del
  cmd_del-cmd_add k args w e =
      let (ok, empty, (conf, n, c, g, added, end)) =
        dels-adds h (load_conf unmarshal) (λ conf. conf.cni_version)
          (apply_conf h.addresses h.netlink) (flush_conf h.addresses h.netlink) args l w e
          (λ conf s c o. (flush_conf-nothing h.addresses h.netlink conf (k conf.table_id) _).0) in
      let (_, no_rules, no_routes) =
        flush_conf-nothing h.addresses h.netlink conf (k conf.table_id)
          (apply_conf h.addresses h.netlink conf (h.inside n w)).1 in
      (
        ok,
        empty,
        (
          conf,
          n,
          c,
          g,
          ap (k conf.table_id).kernel.rules end ∙ no_rules,
          ap (k conf.table_id).routes end ∙ no_routes,
        ),
      )

  -- After an ADD of the policy-route plug-in without error, a second ADD of the same request has an
  -- error.
  pub cmd_add-cmd_add :
      (args : CmdArgs) (w : h.World)
      → (cmd_add h unmarshal args w).0 ≡ none
      → ¬ ((cmd_add h unmarshal args (cmd_add h unmarshal args w).1).0 ≡ none)
  unfolding cmd_add
  cmd_add-cmd_add args w e =
      adds_again h (load_conf unmarshal) (λ conf. conf.cni_version)
        (apply_conf h.addresses h.netlink) (flush_conf h.addresses h.netlink) args l w e
