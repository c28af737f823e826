-- ===== src/Nfqlb/Queue/Tests.antt =====
-- The netfilter queue at concrete inputs.
use l_3_4_gateway_api_poc.Base.{
  ℕ, ◌+◌, ◌-◌, ◌<◌, ◌^◌, ◌≡◌, refl, ◌↔◌, ◌⊎◌, arith, Bool, true, false, none, some, List, [], ◌∷◌,
  Text, codes, pos, ite, text_discrete,
}
use l_3_4_gateway_api_poc.Nfqlb.Nftables.{Nftables, queue, prerouting, output}
use l_3_4_gateway_api_poc.Nfqlb.Queue.{
  NetfilterQueue, configured, new_netfilter_queue, queue_numbers,
}
use l_3_4_gateway_api_poc.Nfqlb.Queue.Packets.{Packet, Destined}
use l_3_4_gateway_api_poc.Nfqlb.Queue.Chains.{ChainState, rule_count, chain_after, Ruleset}
use l_3_4_gateway_api_poc.Nfqlb.Queue.Ruleset.{Queues, new_netfilter_queue-Queues}
use l_3_4_gateway_api_poc.Nfqlb.Queue.Numbers.{queue_numbers-pos}

-- A kernel that has the chains and nothing else.
abbrev kernel : Nftables
kernel = record {
  World = Text → Text → ChainState;
  count_rules = λ c w. elim (c.table) [ none ↦ 0 | some t ↦ rule_count (w t.name c.name) ];
  takes_set = λ s. true;
  flush = λ ms w. (true, λ table name. chain_after table name ms (w table name));
}

kernel_rules : Ruleset kernel
kernel_rules = record {
  chains = λ w. w;
  counted = λ c t w e. rw (e) refl;
  flushed = λ ms w table name e. refl;
}

-- Both chains are there, the first one with a rule that queues everything.
abbrev old_chains : Text → Text → ChainState
old_chains table name = elim (text_discrete name (codes "nfqlb")) [
  | yes e ↦ some (
    prerouting,
    record {
      table = none;
      chain = record { name = name; table = none; hook = prerouting };
      exprs = queue 9 1 false ∷ [];
    }
        ∷ [],
  )
  | no ne ↦ some (output, [])
]

-- A packet for 20.0.0.1, which is in the set.
abbrev in_set : Text → List ℕ → Bool
in_set name address = ite (text_discrete address (20 ∷ 0 ∷ 0 ∷ 1 ∷ [])) true false

abbrev packet : Packet
packet = record {
  nfproto = 2;
  l4proto = 6;
  network_header =
      69 ∷ 0 ∷ 0 ∷ 40 ∷ 0 ∷ 0 ∷ 0 ∷ 0 ∷ 64 ∷ 6 ∷ 0 ∷ 0 ∷ 10 ∷ 0 ∷ 0 ∷ 9 ∷ 20 ∷ 0 ∷ 0 ∷ 1 ∷ [];
}

new_netfilter_queue-Queues_example :
    (nfq : NetfilterQueue) × (w1 : Text → Text → ChainState) × (new_netfilter_queue kernel 0 4 false
        old_chains
      ≡ configured nfq w1)
    × Queues in_set packet 0 4 false prerouting (w1 (codes "table-nfqlb") (codes "nfqlb")) (
        ((packet.nfproto ≡ 2) × Destined in_set packet 16 4 (codes "ipv4-vips"))
        ⊎ ((packet.nfproto ≡ 10) × Destined in_set packet 24 16 (codes "ipv6-vips")))
    × Queues in_set packet 0 4 false output (w1 (codes "table-nfqlb") (codes "nfqlb-local")) (
        ((packet.nfproto ≡ 2)
          × ((packet.l4proto ≡ 1) × Destined in_set packet 16 4 (codes "ipv4-vips")))
        ⊎ ((packet.nfproto ≡ 10)
            × ((packet.l4proto ≡ 58) × Destined in_set packet 24 16 (codes "ipv6-vips"))))
unfolding text_discrete kernel_rules
new_netfilter_queue-Queues_example =
    new_netfilter_queue-Queues kernel kernel_rules (λ ms w. refl) (λ s. refl) in_set packet 0 4
      false old_chains refl refl

queue_numbers-pos_example :
    (queue_numbers (pos 0) (pos 65535) ≡ (0, 65535 - 0 + 1))
    ↔ ((0 < 2 ^ 16) × (65535 - 0 + 1 < 2 ^ 16))
queue_numbers-pos_example = queue_numbers-pos 0 65535 (omega arith) (omega arith)

-- All queues at once are none at all.
all_queues : queue_numbers (pos 0) (pos 65535) ≡ (0, 0)
unfolding queue_numbers
all_queues = refl
