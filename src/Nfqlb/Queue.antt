-- ===== src/Nfqlb/Queue.antt =====
-- `netfilterQueue` of pkg/nfqlb/netfilter.go with `createSets` of set.go, and `New` and `Start` of
-- nfqlb.go: the chains that hand the packets for the addresses to the queues of nfqlb.
pub mod Packets
pub mod Chains
pub mod Ruleset
pub mod Numbers
mod Tests
use l_3_4_gateway_api_poc.Base.{
  ℕ, ◌+◌, ◌-◌, ◌%◌, ◌^◌, Bool, true, false, Option, none, some, List, [], ◌∷◌, ◌++◌, Text, codes, ℤ,
  pos, negsuc, int_add, to_bits, of_bits, itoa, ◌==◌, if◌then◌else◌,
}
use l_3_4_gateway_api_poc.Nfqlb.Config.{Config, new_nfqlb_config, apply_options}
use l_3_4_gateway_api_poc.Nfqlb.Platform.{Family, v4, v6}
use l_3_4_gateway_api_poc.Nfqlb.Utils.{get_queue}
use l_3_4_gateway_api_poc.Nfqlb.LoadBalancer.{LoadBalancer, fresh}
use l_3_4_gateway_api_poc.Nfqlb.Nftables.{
  NftTable, NftSet, NftChain, NftRule, KeyType, type_ip_addr, type_ip6_addr, prerouting, output,
  meta_key_nfproto, meta_key_l4proto, Expr, meta, cmp_eq, payload, set_lookup, counter, queue,
  Message, add_table, add_set, add_chain, flush_chain, add_rule, flush_table, del_table, Nftables,
}

-- `none` is a nil pointer.
pub record NetfilterQueue : Type 0 where
  pub table : Option NftTable
  pub chain : Option NftChain
  pub localchain : Option NftChain
  pub ipv4_rule : Option NftRule
  pub ipv6_rule : Option NftRule
  pub ipv4_destination_set : Option NftSet
  pub ipv6_destination_set : Option NftSet
  pub nftqueue_flag : Bool
  pub nftqueue_num : ℕ
  pub nftqueue_total : ℕ

pub data QueueError : Type 0 where
  table_failed set_not_taken set_failed chain_failed local_chain_failed : QueueError
  queue_format delete_failed start_failed : QueueError

-- `getSet`, for one of the two families
unfoldable pub get_set : Option NftTable → Family → NftSet
get_set table v4 = record { table = table; name = codes "ipv4-vips"; key_type = type_ip_addr }
get_set table v6 = record { table = table; name = codes "ipv6-vips"; key_type = type_ip6_addr }

-- What the rules of both chains end with.
abbrev pub to_queue : NetfilterQueue → List Expr
to_queue nfq = counter 0 0 ∷ queue nfq.nftqueue_num nfq.nftqueue_total nfq.nftqueue_flag ∷ []

-- `unix.AF_INET`, `unix.AF_INET6`, `unix.IPPROTO_ICMP`, `unix.IPPROTO_ICMPV6`
unfoldable pub ipv4_exprs : NetfilterQueue → NftSet → List Expr
ipv4_exprs nfq set =
    meta meta_key_nfproto 1
    ∷ cmp_eq 1 (2 ∷ [])
    ∷ payload 1 16 4
    ∷ set_lookup 1 set.name
    ∷ to_queue nfq

unfoldable pub ipv6_exprs : NetfilterQueue → NftSet → List Expr
ipv6_exprs nfq set =
    meta meta_key_nfproto 1
    ∷ cmp_eq 1 (10 ∷ [])
    ∷ payload 1 24 16
    ∷ set_lookup 1 set.name
    ∷ to_queue nfq

unfoldable pub local_ipv4_exprs : NetfilterQueue → NftSet → List Expr
local_ipv4_exprs nfq set =
    meta meta_key_nfproto 1
    ∷ cmp_eq 1 (2 ∷ [])
    ∷ meta meta_key_l4proto 1
    ∷ cmp_eq 1 (1 ∷ [])
    ∷ payload 1 16 4
    ∷ set_lookup 1 set.name
    ∷ to_queue nfq

unfoldable pub local_ipv6_exprs : NetfilterQueue → NftSet → List Expr
local_ipv6_exprs nfq set =
    meta meta_key_nfproto 1
    ∷ cmp_eq 1 (10 ∷ [])
    ∷ meta meta_key_l4proto 1
    ∷ cmp_eq 1 (58 ∷ [])
    ∷ payload 1 24 16
    ∷ set_lookup 1 set.name
    ∷ to_queue nfq

-- A step of `configure` goes on with the queue, stops with an error, or dereferences nil.
pub data Configured (W : Type 0) : Type 0 where
  configured : NetfilterQueue → W → Configured W
  refused : QueueError → W → Configured W
  panicked : Configured W

abbrev pub then_do :
    {W : Type 0} → Configured W → (NetfilterQueue → W → Configured W) → Configured W
then_do (configured nfq w) f = f nfq w
then_do (refused e w) f = refused e w
then_do panicked f = panicked

-- The messages of a chain, whose rules are removed first if there are any.
unfoldable pub chain_messages : NftChain → ℕ → NftRule → NftRule → List Message
chain_messages chain rules ipv4_rule ipv6_rule =
    add_chain chain ∷ (if rules == 0 then [] else flush_chain chain ∷ [])
    ++ add_rule ipv4_rule ∷ add_rule ipv6_rule ∷ []

module _ (n : Nftables) where
  open n use {World, count_rules, takes_set, flush}

  unfoldable pub configure_table : NetfilterQueue → World → Configured World
  configure_table nfq w =
      let table : NftTable = record { name = codes "table-nfqlb" } in
      let (flushed, w1) = flush (add_table table ∷ []) w in
      if flushed then configured (record nfq { table = some table }) w1 else refused table_failed w1

  -- `createSets`: the set, or the error
  unfoldable pub create_sets :
      Option NftTable → Family → World → (Option QueueError × NftSet) × World
  unfolding get_set
  create_sets table family w =
      let set = get_set table family in
      let (flushed, w1) = flush (add_set set ∷ []) w in
      if takes_set set
      then (if flushed then ((none, set), w1) else ((some set_failed, set), w1))
      else ((some set_not_taken, set), w)

  unfoldable pub configure_sets : NetfilterQueue → World → Configured World
  unfolding create_sets
  configure_sets nfq w =
      let ((e4, ipv4_set), w1) = create_sets nfq.table v4 w in
      let ((e6, ipv6_set), w2) = create_sets nfq.table v6 w1 in
      elim e4 [
        | some e ↦ refused e w1
        | none ↦ elim e6 [
          | some e ↦ refused e w2
          | none ↦
              configured
                (record nfq {
                  ipv4_destination_set = some ipv4_set;
                  ipv6_destination_set = some ipv6_set;
                })
                w2
        ]
      ]

  unfoldable pub configure_chain_and_rules : NetfilterQueue → World → Configured World
  unfolding ipv4_exprs ipv6_exprs chain_messages
  configure_chain_and_rules nfq w =
      let chain : NftChain = record {
        name = codes "nfqlb";
        table = nfq.table;
        hook = prerouting;
      } in
      elim nfq.ipv4_destination_set [
        | none ↦ panicked
        | some set4 ↦ elim nfq.ipv6_destination_set [
          | none ↦ panicked
          | some set6 ↦
              let ipv4_rule : NftRule = record {
                table = nfq.table;
                chain = chain;
                exprs = ipv4_exprs nfq set4;
              } in
              let ipv6_rule : NftRule = record {
                table = nfq.table;
                chain = chain;
                exprs = ipv6_exprs nfq set6;
              } in
              let (flushed, w1) =
                flush (chain_messages chain (count_rules chain w) ipv4_rule ipv6_rule) w in
              if flushed
              then configured
                  (record nfq {
                    chain = some chain;
                    ipv4_rule = some ipv4_rule;
                    ipv6_rule = some ipv6_rule;
                  })
                  w1
              else refused chain_failed w1
        ]
      ]

  -- It sets the fields of the rules of the other chain again.
  unfoldable pub configure_local_chain_and_rules : NetfilterQueue → World → Configured World
  unfolding local_ipv4_exprs local_ipv6_exprs chain_messages
  configure_local_chain_and_rules nfq w =
      let chain : NftChain = record {
        name = codes "nfqlb-local";
        table = nfq.table;
        hook = output;
      } in
      elim nfq.ipv4_destination_set [
        | none ↦ panicked
        | some set4 ↦ elim nfq.ipv6_destination_set [
          | none ↦ panicked
          | some set6 ↦
              let ipv4_rule : NftRule = record {
                table = nfq.table;
                chain = chain;
                exprs = local_ipv4_exprs nfq set4;
              } in
              let ipv6_rule : NftRule = record {
                table = nfq.table;
                chain = chain;
                exprs = local_ipv6_exprs nfq set6;
              } in
              let (flushed, w1) =
                flush (chain_messages chain (count_rules chain w) ipv4_rule ipv6_rule) w in
              if flushed
              then configured
                  (record nfq {
                    localchain = some chain;
                    ipv4_rule = some ipv4_rule;
                    ipv6_rule = some ipv6_rule;
                  })
                  w1
              else refused local_chain_failed w1
        ]
      ]

  unfoldable pub configure : NetfilterQueue → World → Configured World
  unfolding configure_table configure_sets configure_chain_and_rules configure_local_chain_and_rules
  configure nfq w =
      let with_table : Configured World = elim nfq.table [
        | none ↦ configure_table nfq w
        | some t ↦ configured nfq w
      ] in
      then_do (then_do (then_do with_table configure_sets) configure_chain_and_rules)
        configure_local_chain_and_rules

  unfoldable pub new_netfilter_queue : ℕ → ℕ → Bool → World → Configured World
  unfolding configure
  new_netfilter_queue nftqueue_num nftqueue_total queue_flag w =
      configure
        (record {
          table = none;
          chain = none;
          localchain = none;
          ipv4_rule = none;
          ipv6_rule = none;
          ipv4_destination_set = none;
          ipv6_destination_set = none;
          nftqueue_flag = queue_flag;
          nftqueue_num = nftqueue_num;
          nftqueue_total = nftqueue_total;
        })
        w

  -- `delete` of the queue; `true` stands for a nil error.
  unfoldable pub delete_queue : NetfilterQueue → World → Bool × World
  delete_queue nfq w = flush (flush_table nfq.table ∷ del_table nfq.table ∷ []) w

-- `uint16(x)`
abbrev pub to_uint16 : ℤ → ℕ
to_uint16 x = to_bits x % 2 ^ 16

-- `a - b`
abbrev pub int_sub : ℤ → ℤ → ℤ
int_sub a b = of_bits ((to_bits a + (2 ^ 64 - to_bits b)) % 2 ^ 64)

-- The number of the first queue and how many there are, from the bounds of `getQueue`.
unfoldable pub queue_numbers : ℤ → ℤ → ℕ × ℕ
queue_numbers start end = (to_uint16 start, to_uint16 (int_add (int_sub end start) (pos 1)))

-- What `New` returns.
pub data NewLoadBalancer (W : Type 0) : Type 0 where
  made : LoadBalancer → NetfilterQueue → W → NewLoadBalancer W
  not_made : QueueError → W → NewLoadBalancer W
  panics : NewLoadBalancer W

unfoldable pub new_load_balancer :
    (n : Nftables) → List (Config → Config) → n.World → NewLoadBalancer n.World
unfolding new_nfqlb_config get_queue queue_numbers new_netfilter_queue fresh
new_load_balancer n options w =
    let config = apply_options options new_nfqlb_config in
    elim (get_queue config.queue) [
      | none ↦ not_made queue_format w
      | some (start, end) ↦
          let (nftqueue_num, nftqueue_total) = queue_numbers start end in
          elim (new_netfilter_queue n nftqueue_num nftqueue_total config.fanout w) [
            | configured nfq w1 ↦ made (fresh config) nfq w1
            | refused e w1 ↦ not_made e w1
            | panicked ↦ panics
          ]
    ]

-- The arguments of the process that `Start` runs
unfoldable pub start_args : Config → List Text
unfolding itoa
start_args config =
    codes "flowlb"
    ∷ codes "--promiscuous_ping"
    ∷ (codes "--queue=" ++ config.queue)
    ∷ (codes "--qlength=" ++ itoa (pos config.qlength))
    ∷ []

-- The errors of `Start` once its process has ended, with `true` for an error that is reported, and
-- `heal` has returned.
unfoldable pub finish_start :
    (n : Nftables) → Bool → NetfilterQueue → n.World → List QueueError × n.World
unfolding delete_queue
finish_start n failed nfq w =
    let (deleted, w1) = delete_queue n nfq w in
    let errors = if failed then start_failed ∷ [] else [] in
    if deleted then (errors, w1) else (delete_failed ∷ errors, w1)
