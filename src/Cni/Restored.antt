-- ===== src/Cni/Restored.antt =====
-- The `cmdDel` of the loopback-vip plug-in after its `cmdAdd`.
use l_3_4_gateway_api_poc.Base.{
  ◌≡◌, refl, sym, ap, ◌∙◌, subst, ◌↔◌, ◌⊎◌, inl, inr, true, Bool-cases, Option-cases, Option, none,
  some, List, Text, In,
}
use l_3_4_gateway_api_poc.Net.{IpNet, Addresses}
use l_3_4_gateway_api_poc.Netlink.{Netlink}
use l_3_4_gateway_api_poc.Cni.{CmdArgs, Host}
use l_3_4_gateway_api_poc.Cni.Laws.{Lawful}
use l_3_4_gateway_api_poc.Cni.Stored.{Empty}
use l_3_4_gateway_api_poc.Cni.RoundTrip.{dels-adds}
use l_3_4_gateway_api_poc.Cni.LoopbackVip.{
  NetConf, LoopbackError, link_not_found, addr_not_added, interface_name, vip_of_args, load_conf,
  vip_net, add_vip, del_vip, cmd_add, cmd_del,
}

-- What the kernel documents of the addresses of a link: one that is there is not added again and
-- can be deleted, and the others stay.
pub record LinkAddresses (n : Netlink) : Type 0 where
  pub addrs : n.Link → n.World → List IpNet
  pub added :
      (i : n.Link) (net : IpNet) (w : n.World)
      → (n.addr_add i (some net) w).0 ≡ true
      → (¬ In net (addrs i w))
        × ((x : IpNet)
            → In x (addrs i (n.addr_add i (some net) w).1) ↔ ((x ≡ net) ⊎ In x (addrs i w)))
  pub deleted :
      (i : n.Link) (net : IpNet) (w : n.World)
      → In net (addrs i w)
      → ((n.addr_del i (some net) w).0 ≡ true)
        × ((x : IpNet)
            → In x (addrs i (n.addr_del i (some net) w).1) ↔ (In x (addrs i w) × (¬ (x ≡ net))))
  pub same_link :
      (t : Text) (i : n.Link) (net : Option IpNet) (w : n.World)
      → n.link_by_name t (n.addr_add i net w).1 ≡ n.link_by_name t w

load_conf-vip_net :
    (a : Addresses) (unmarshal : Text → Option NetConf) (t : Text) (conf : NetConf)
    → load_conf a unmarshal t ≡ some conf
    → (net : IpNet) × (vip_net a conf ≡ some net)
unfolding load_conf
load_conf-vip_net a unmarshal t conf e = elim (Option-cases (unmarshal t)) [
  | inl u ↦ let e1 : Path (Option NetConf) none (some conf) = rw (u, load_conf) at e in absurd (cc)
  | inr (raw, u) ↦ elim (Option-cases (a.parse_cidr (vip_of_args raw))) [
    | inl p ↦
        let e1 : Path (Option NetConf) none (some conf) = rw (u, load_conf, p) at e in absurd (cc)
    | inr ((ip, net), p) ↦
        let e1 : Path (Option NetConf) (some (record raw { vip = vip_of_args raw })) (some conf) =
          rw (u, load_conf, p) at e in
        let same : record raw { vip = vip_of_args raw } ≡ conf = cc in
        let v : vip_net a (record raw { vip = vip_of_args raw }) ≡ some net =
          rw (vip_net, p) refl in
        (net, ap (vip_net a) (sym same) ∙ v)
  ]
]

module _ (a : Addresses) (n : Netlink) (k : LinkAddresses n) where
  del_vip_works :
      (conf : NetConf) (net : IpNet) (i : n.Link) (s : n.World)
      → vip_net a conf ≡ some net
      → n.link_by_name interface_name s ≡ some i
      → (n.addr_del i (some net) s).0 ≡ true
      → ((del_vip a n conf s).0 ≡ none) × ((del_vip a n conf s).1 ≡ (n.addr_del i (some net) s).1)
  unfolding del_vip
  del_vip_works conf net i s v u o = rw (del_vip, u, v, o) (refl, refl)

  del_vip-add_vip :
      (conf : NetConf) (net : IpNet) (w : n.World)
      → vip_net a conf ≡ some net
      → (add_vip a n conf w).0 ≡ none
      → ((del_vip a n conf (add_vip a n conf w).1).0 ≡ none)
        × ((i : n.Link) × (n.link_by_name interface_name w ≡ some i)
            × ((x : IpNet)
                → In x (k.addrs i (del_vip a n conf (add_vip a n conf w).1).1)
                  ↔ In x (k.addrs i w)))
  unfolding add_vip del_vip
  del_vip-add_vip conf net w v e = elim (Option-cases (n.link_by_name interface_name w)) [
    | inl u ↦
        let e1 : Path (Option LoopbackError) (some link_not_found) none = rw (add_vip, u) at e in
        absurd (cc)
    | inr (i, u) ↦ elim (Bool-cases (n.addr_add i (some net) w).0) [
      | inr o ↦
          let e1 : Path (Option LoopbackError) (some addr_not_added) none =
            rw (add_vip, u, v, o) at e in
          absurd (cc)
      | inl o ↦
          let (fresh, with_net) = k.added i net w o in
          let w1 = (n.addr_add i (some net) w).1 in
          let (ok, without) = k.deleted i net w1 ((with_net net).1 (inl refl)) in
          let same = k.same_link interface_name i (some net) w ∙ u in
          let moved : (add_vip a n conf w).1 ≡ w1 = rw (add_vip, u, v) refl in
          let (none_failed, end) = del_vip_works conf net i w1 v same ok in
          (
            ap (λ z. (del_vip a n conf z).0) moved ∙ none_failed,
            (
              i,
              u,
              λ x. rw (ap (λ z. (del_vip a n conf z).1) moved ∙ end) (
                (λ m.
                    let (there, ne) = (without x).0 m in
                    elim ((with_net x).0 there) [ inl q ↦ absurd (ne q) | inr b ↦ b ]),
                λ b.
                    (without x).1
                      ((with_net x).1 (inr b), λ q. fresh (subst (λ z. In z (k.addrs i w)) q b)),
              ),
            ),
          )
    ]
  ]

module _ (h : Host) (l : Lawful h) (unmarshal : Text → Option NetConf) where
  -- On a host and a kernel that do what they document, DEL of the loopback-vip plug-in after an ADD
  -- of the same request without error has no error, lo has exactly the addresses that it had before
  -- the ADD, and no file of the request is left in the store.
  pub cmd_del-add_vip :
      (k : LinkAddresses h.netlink) (args : CmdArgs) (w : h.World)
      → (cmd_add h unmarshal args w).0 ≡ none
      → ((cmd_del h unmarshal args (cmd_add h unmarshal args w).1).0 ≡ none)
        × Empty h l args (cmd_del h unmarshal args (cmd_add h unmarshal args w).1).1
        × ((n : h.Netns) × (i : h.netlink.Link) × (h.get_ns args.netns w ≡ some n)
            × (h.netlink.link_by_name interface_name (h.inside n w) ≡ some i)
            × ((x : IpNet)
                → In x (
                    k.addrs i
                      (h.inside n (cmd_del h unmarshal args (cmd_add h unmarshal args w).1).1))
                  ↔ In x (k.addrs i (h.inside n w))))
  unfolding cmd_add cmd_del
  cmd_del-add_vip k args w e =
      let undo =
        λ (conf : NetConf) (s : h.netlink.World)
            (c : load_conf h.addresses unmarshal args.stdin_data ≡ some conf)
            (o : (add_vip h.addresses h.netlink conf s).0 ≡ none).
          let (net, v) = load_conf-vip_net h.addresses unmarshal args.stdin_data conf c in
          del_vip-add_vip h.addresses h.netlink k conf net s v o in
      let (ok, empty, (conf, n, c, g, added, end)) =
        dels-adds h (load_conf h.addresses unmarshal) (λ conf. conf.cni_version)
          (add_vip h.addresses h.netlink) (del_vip h.addresses h.netlink) args l w e
          (λ conf s c o. (undo conf s c o).0) in
      let (_, (i, u, same)) = undo conf (h.inside n w) c added in
      (ok, empty, (n, i, g, u, λ x. rw (end) (same x)))
