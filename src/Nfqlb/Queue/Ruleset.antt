-- ===== src/Nfqlb/Queue/Ruleset.antt =====
-- The chains that `newNetfilterQueue` leaves in its table.
use l_3_4_gateway_api_poc.Base.{
  ℕ, ◌≡◌, refl, ap, subst, sym, ◌∙◌, ◌↔◌, ◌⊎◌, Bool, true, none, some, List, [], ◌∷◌, Text, codes,
}
use l_3_4_gateway_api_poc.Nfqlb.Platform.{Family, v4, v6}
use l_3_4_gateway_api_poc.Nfqlb.Nftables.{
  NftSet, NftRule, Hook, prerouting, output, Message, add_table, add_set, Nftables,
}
use l_3_4_gateway_api_poc.Nfqlb.Queue.{
  NetfilterQueue, configured, get_set, ipv4_exprs, ipv6_exprs, local_ipv4_exprs, local_ipv6_exprs,
  chain_messages, configure_table, create_sets, configure_sets, configure_chain_and_rules,
  configure_local_chain_and_rules, configure, new_netfilter_queue,
}
use l_3_4_gateway_api_poc.Nfqlb.Queue.Packets.{
  Packet, verdict, queued, Destined, verdict-Destined, verdict-Destined_local,
}
use l_3_4_gateway_api_poc.Nfqlb.Queue.Chains.{
  ChainState, chain_after, Ruleset, Hooked, own_table, prerouting_chain, output_chain, rule_of,
  chain_messages-prerouting, chain_messages-output, chain_messages-kept, chain_messages-kept_local,
}

abbrev with_table : NetfilterQueue → NetfilterQueue
with_table q = record q { table = some own_table }

abbrev with_sets : NetfilterQueue → NetfilterQueue
with_sets q = record q {
  table = some own_table;
  ipv4_destination_set = some (get_set (some own_table) v4);
  ipv6_destination_set = some (get_set (some own_table) v6);
}

abbrev ipv4_rule_of : NetfilterQueue → NftRule
ipv4_rule_of q = rule_of prerouting_chain (ipv4_exprs q (get_set (some own_table) v4))

abbrev ipv6_rule_of : NetfilterQueue → NftRule
ipv6_rule_of q = rule_of prerouting_chain (ipv6_exprs q (get_set (some own_table) v6))

abbrev local_ipv4_rule_of : NetfilterQueue → NftRule
local_ipv4_rule_of q = rule_of output_chain (local_ipv4_exprs q (get_set (some own_table) v4))

abbrev local_ipv6_rule_of : NetfilterQueue → NftRule
local_ipv6_rule_of q = rule_of output_chain (local_ipv6_exprs q (get_set (some own_table) v6))

abbrev with_chain : NetfilterQueue → NetfilterQueue
with_chain q = record (with_sets q) {
  chain = some prerouting_chain;
  ipv4_rule = some (ipv4_rule_of (with_sets q));
  ipv6_rule = some (ipv6_rule_of (with_sets q));
}

abbrev with_local_chain : NetfilterQueue → NetfilterQueue
with_local_chain q = record (with_chain q) {
  localchain = some output_chain;
  ipv4_rule = some (local_ipv4_rule_of (with_chain q));
  ipv6_rule = some (local_ipv6_rule_of (with_chain q));
}

-- The packets that the chain at a hook hands to the queues are those of a condition.
abbrev pub Queues :
    (Text → List ℕ → Bool) → Packet → ℕ → ℕ → Bool → Hook → ChainState → Type 0 → Type 0
Queues sets p num total flag hook c C =
    (rules : List NftRule) × (c ≡ some (hook, rules))
    × ((verdict sets p rules ≡ queued num total flag) ↔ C)

module _ (n : Nftables) (k : Ruleset n)
    (accepted : (ms : List Message) (w : n.World) → (n.flush ms w).0 ≡ true)
    (takes : (s : NftSet) → n.takes_set s ≡ true) where
  open n use {World}

  abbrev Same : World → World → Type 0
  Same w1 w = (table name : Text) → k.chains w1 table name ≡ k.chains w table name

  -- The chains of the queue
  abbrev prerouting_state : World → ChainState
  prerouting_state w = k.chains w (codes "table-nfqlb") (codes "nfqlb")

  abbrev output_state : World → ChainState
  output_state w = k.chains w (codes "table-nfqlb") (codes "nfqlb-local")

  configure_table-Same :
      (q : NetfilterQueue) (w : World)
      → (w1 : World) × (configure_table n q w ≡ configured (with_table q) w1) × Same w1 w
  unfolding configure_table
  configure_table-Same q w =
      let ms = add_table own_table ∷ [] in
      (
        (n.flush ms w).1,
        rw (accepted ms w) refl,
        λ table name. k.flushed ms w table name (accepted ms w),
      )

  create_sets-set :
      (f : Family) (w : World)
      → create_sets n (some own_table) f w ≡ (
        (none, get_set (some own_table) f),
        (n.flush (add_set (get_set (some own_table) f) ∷ []) w).1,
      )
  unfolding create_sets
  create_sets-set f w =
      let set = get_set (some own_table) f in
      rw (takes set, accepted (add_set set ∷ []) w, create_sets) refl

  configure_sets-Same :
      (q : NetfilterQueue) (w : World)
      → (w1 : World) × (configure_sets n (with_table q) w ≡ configured (with_sets q) w1) × Same w1 w
  unfolding configure_sets
  configure_sets-Same q w =
      let set4 = get_set (some own_table) v4 in
      let set6 = get_set (some own_table) v6 in
      let ms4 = add_set set4 ∷ [] in
      let ms6 = add_set set6 ∷ [] in
      let w1 = (n.flush ms4 w).1 in
      let made4 = create_sets-set v4 w in
      let made6 : create_sets n (some own_table) v6 (create_sets n (some own_table) v4 w).1
          ≡ ((none, set6), (n.flush ms6 w1).1) =
        rw (made4) (create_sets-set v6 w1) in
      (
        (n.flush ms6 w1).1,
        rw (configure_sets, made4, made6, made4)
            (ap
              (λ r.
                configured
                  (record (with_table q) {
                    ipv4_destination_set = some set4;
                    ipv6_destination_set = some r.0.1;
                  })
                  r.1)
              (create_sets-set v6 w1)),
        λ table name.
            k.flushed ms6 w1 table name (accepted ms6 w1)
            ∙ k.flushed ms4 w table name (accepted ms4 w),
      )

  configure_chain_and_rules-prerouting :
      (q : NetfilterQueue) (w : World)
      → Hooked prerouting (prerouting_state w)
      → (w1 : World) × (configure_chain_and_rules n (with_sets q) w ≡ configured (with_chain q) w1)
        × (prerouting_state w1
            ≡ some (prerouting, ipv4_rule_of (with_sets q) ∷ ipv6_rule_of (with_sets q) ∷ []))
        × (output_state w1 ≡ output_state w)
  unfolding configure_chain_and_rules
  configure_chain_and_rules-prerouting q w h =
      let r4 = ipv4_rule_of (with_sets q) in
      let r6 = ipv6_rule_of (with_sets q) in
      let count = n.count_rules prerouting_chain w in
      let ms = chain_messages prerouting_chain count r4 r6 in
      let counted = k.counted prerouting_chain own_table w refl in
      (
        (n.flush ms w).1,
        rw (accepted ms w) refl,
        k.flushed ms w (codes "table-nfqlb") (codes "nfqlb") (accepted ms w)
            ∙ ap
                (λ i.
                  chain_after (codes "table-nfqlb") (codes "nfqlb")
                    (chain_messages prerouting_chain i r4 r6) (prerouting_state w))
                counted
            ∙ chain_messages-prerouting (prerouting_state w) r4.exprs r6.exprs h,
        k.flushed ms w (codes "table-nfqlb") (codes "nfqlb-local") (accepted ms w)
            ∙ chain_messages-kept count (output_state w) r4.exprs r6.exprs,
      )

  configure_local_chain_and_rules-output :
      (q : NetfilterQueue) (w : World)
      → Hooked output (output_state w)
      → (w1 : World) × (configure_local_chain_and_rules n (with_chain q) w
          ≡ configured (with_local_chain q) w1)
        × (output_state w1
            ≡ some (
              output,
              local_ipv4_rule_of (with_chain q) ∷ local_ipv6_rule_of (with_chain q) ∷ [],
            ))
        × (prerouting_state w1 ≡ prerouting_state w)
  unfolding configure_local_chain_and_rules
  configure_local_chain_and_rules-output q w h =
      let r4 = local_ipv4_rule_of (with_chain q) in
      let r6 = local_ipv6_rule_of (with_chain q) in
      let count = n.count_rules output_chain w in
      let ms = chain_messages output_chain count r4 r6 in
      let counted = k.counted output_chain own_table w refl in
      (
        (n.flush ms w).1,
        rw (accepted ms w) refl,
        k.flushed ms w (codes "table-nfqlb") (codes "nfqlb-local") (accepted ms w)
            ∙ ap
                (λ i.
                  chain_after (codes "table-nfqlb") (codes "nfqlb-local")
                    (chain_messages output_chain i r4 r6) (output_state w))
                counted
            ∙ chain_messages-output (output_state w) r4.exprs r6.exprs h,
        k.flushed ms w (codes "table-nfqlb") (codes "nfqlb") (accepted ms w)
            ∙ chain_messages-kept_local count (prerouting_state w) r4.exprs r6.exprs,
      )

  -- Where nftables does what it documents and takes what it is sent, and chains of the two names
  -- that are there already have the hooks, newNetfilterQueue succeeds, and afterwards the chain at
  -- the prerouting hook hands a packet to the given queues exactly if it is an IPv4 packet with its
  -- destination address in the set ipv4-vips or an IPv6 packet with its destination address in the
  -- set ipv6-vips, and the one at the output hook does so exactly if the packet is an ICMP one of
  -- the family besides, whatever rules the chains had before.
  pub new_netfilter_queue-Queues :
      (sets : Text → List ℕ → Bool) (p : Packet) (num total : ℕ) (flag : Bool) (w : World)
      → Hooked prerouting (prerouting_state w)
      → Hooked output (output_state w)
      → (nfq : NetfilterQueue) × (w1 : World) × (new_netfilter_queue n num total flag w
          ≡ configured nfq w1)
        × Queues sets p num total flag prerouting (prerouting_state w1) (
            ((p.nfproto ≡ 2) × Destined sets p 16 4 (codes "ipv4-vips"))
            ⊎ ((p.nfproto ≡ 10) × Destined sets p 24 16 (codes "ipv6-vips")))
        × Queues sets p num total flag output (output_state w1) (
            ((p.nfproto ≡ 2) × ((p.l4proto ≡ 1) × Destined sets p 16 4 (codes "ipv4-vips")))
            ⊎ ((p.nfproto ≡ 10) × ((p.l4proto ≡ 58) × Destined sets p 24 16 (codes "ipv6-vips"))))
  unfolding new_netfilter_queue configure get_set ipv4_exprs ipv6_exprs local_ipv4_exprs
      local_ipv6_exprs
  new_netfilter_queue-Queues sets p num total flag w hp ho =
      let q : NetfilterQueue = record {
        table = none;
        chain = none;
        localchain = none;
        ipv4_rule = none;
        ipv6_rule = none;
        ipv4_destination_set = none;
        ipv6_destination_set = none;
        nftqueue_flag = flag;
        nftqueue_num = num;
        nftqueue_total = total;
      } in
      let (w1, e1, same1) = configure_table-Same q w in
      let (w2, e2, same2) = configure_sets-Same q w1 in
      let same : Same w2 w = λ table name. same2 table name ∙ same1 table name in
      let (w3, e3, rules3, kept3) =
        configure_chain_and_rules-prerouting q w2 (subst (Hooked prerouting) (sym (same _ _)) hp) in
      let (w4, e4, rules4, kept4) =
        configure_local_chain_and_rules-output q w3
          (subst (Hooked output) (sym (kept3 ∙ same _ _)) ho) in
      (
        with_local_chain q,
        w4,
        rw (e1, e2, e3, e4) refl,
        (
          _,
          kept4 ∙ rules3,
          verdict-Destined sets p q (ipv4_rule_of (with_sets q)) (ipv6_rule_of (with_sets q))
              (get_set (some own_table) v4) (get_set (some own_table) v6) refl refl,
        ),
        (
          _,
          rules4,
          verdict-Destined_local sets p q (local_ipv4_rule_of (with_chain q))
              (local_ipv6_rule_of (with_chain q)) (get_set (some own_table) v4)
              (get_set (some own_table) v6) refl refl,
        ),
      )
