-- ===== src/Nfqlb/Queue/Chains.antt =====
-- What nftables documents of a batch of messages, and what those of netfilter.go make of its chains.
use l_3_4_gateway_api_poc.Base.{
  ℕ, ◌≡◌, suc, zero, arith, refl, ap, ◌∙◌, Bool, true, false, Option, none, some, List, [], ◌∷◌,
  ◌++◌, Text, codes, text_discrete, length, ite, if◌then◌else◌,
}
use l_3_4_gateway_api_poc.Nfqlb.Nftables.{
  NftTable, NftChain, NftRule, Hook, prerouting, output, Expr, Message, add_table, add_set,
  add_chain, flush_chain, add_rule, flush_table, del_table, Nftables,
}
use l_3_4_gateway_api_poc.Nfqlb.Queue.{chain_messages}

-- The hook of a chain and its rules, or `none` where there is no such chain.
abbrev pub ChainState : Type 0
ChainState = Option (Hook × List NftRule)

abbrev pub is_table : Text → Option NftTable → Bool
is_table table none = false
is_table table (some t) = ite (text_discrete table t.name) true false

abbrev pub is_chain : Text → Text → Option NftTable → Text → Bool
is_chain table name t other_name =
    if is_table table t then ite (text_discrete name other_name) true false else false

-- A chain that is there keeps its hook and its rules when it is added.
abbrev pub ensured : Hook → ChainState → ChainState
ensured hook none = some (hook, [])
ensured hook (some c) = some c

abbrev pub emptied : ChainState → ChainState
emptied none = none
emptied (some (hook, rules)) = some (hook, [])

abbrev pub with_rule : NftRule → ChainState → ChainState
with_rule rule none = none
with_rule rule (some (hook, rules)) = some (hook, rules ++ rule ∷ [])

-- What a message makes of the chain of a table and a name, and what several do.
abbrev pub chain_after_one : Text → Text → Message → ChainState → ChainState
chain_after_one table name (add_table t) c = c
chain_after_one table name (add_set s) c = c
chain_after_one table name (add_chain n) c =
    if is_chain table name n.table n.name then ensured n.hook c else c
chain_after_one table name (flush_chain n) c =
    if is_chain table name n.table n.name then emptied c else c
chain_after_one table name (add_rule r) c =
    if is_chain table name r.table r.chain.name then with_rule r c else c
chain_after_one table name (flush_table t) c = if is_table table t then emptied c else c
chain_after_one table name (del_table t) c = if is_table table t then none else c

abbrev pub chain_after : Text → Text → List Message → ChainState → ChainState
chain_after table name [] c = c
chain_after table name (m ∷ ms) c = chain_after table name ms (chain_after_one table name m c)

abbrev pub rule_count : ChainState → ℕ
rule_count none = 0
rule_count (some (hook, rules)) = length rules

-- A kernel that does what nftables documents of a batch: one that is taken is applied in order,
-- and the rules of a chain are those that were added since it was flushed.
pub record Ruleset (n : Nftables) : Type 1 where
  pub chains : n.World → Text → Text → ChainState
  pub counted :
      (c : NftChain) (t : NftTable) (w : n.World)
      → c.table ≡ some t
      → n.count_rules c w ≡ rule_count (chains w t.name c.name)
  pub flushed :
      (ms : List Message) (w : n.World) (table name : Text)
      → (n.flush ms w).0 ≡ true
      → chains (n.flush ms w).1 table name ≡ chain_after table name ms (chains w table name)

-- A chain is not there, or it has the hook.
abbrev pub Hooked : Hook → ChainState → Type 0
Hooked hook none = Unit
Hooked hook (some (other_hook, rules)) = other_hook ≡ hook

abbrev pub own_table : NftTable
own_table = record { name = codes "table-nfqlb" }

abbrev pub prerouting_chain : NftChain
prerouting_chain = record { name = codes "nfqlb"; table = some own_table; hook = prerouting }

abbrev pub output_chain : NftChain
output_chain = record { name = codes "nfqlb-local"; table = some own_table; hook = output }

abbrev pub rule_of : NftChain → List Expr → NftRule
rule_of chain exprs = record { table = some own_table; chain = chain; exprs = exprs }

chain_messages-suc :
    (chain : NftChain) (count : ℕ) (r4 r6 : NftRule)
    → chain_messages chain (suc count) r4 r6
      ≡ add_chain chain ∷ flush_chain chain ∷ add_rule r4 ∷ add_rule r6 ∷ []
unfolding chain_messages
chain_messages-suc chain count r4 r6 = ground arith

-- What the messages of `chain_messages` make of their chain, whatever it was.
pub chain_messages-prerouting :
    (c : ChainState) (e4 e6 : List Expr)
    → Hooked prerouting c
    → chain_after
        (codes "table-nfqlb")
        (codes "nfqlb")
        (chain_messages prerouting_chain
          (rule_count c)
          (rule_of prerouting_chain e4)
          (rule_of prerouting_chain e6))
        c
      ≡ some (prerouting, rule_of prerouting_chain e4 ∷ rule_of prerouting_chain e6 ∷ [])
unfolding chain_messages text_discrete
chain_messages-prerouting none e4 e6 h = refl
chain_messages-prerouting (some (hook, [])) e4 e6 h = rw (h) refl
chain_messages-prerouting (some (hook, r ∷ rules)) e4 e6 h =
    ap (λ ms. chain_after (codes "table-nfqlb") (codes "nfqlb") ms (some (hook, r ∷ rules)))
      (chain_messages-suc prerouting_chain (length rules) (rule_of prerouting_chain e4)
        (rule_of prerouting_chain e6))
    ∙ rw (h) refl

pub chain_messages-output :
    (c : ChainState) (e4 e6 : List Expr)
    → Hooked output c
    → chain_after
        (codes "table-nfqlb")
        (codes "nfqlb-local")
        (chain_messages output_chain
          (rule_count c)
          (rule_of output_chain e4)
          (rule_of output_chain e6))
        c
      ≡ some (output, rule_of output_chain e4 ∷ rule_of output_chain e6 ∷ [])
unfolding chain_messages text_discrete
chain_messages-output none e4 e6 h = refl
chain_messages-output (some (hook, [])) e4 e6 h = rw (h) refl
chain_messages-output (some (hook, r ∷ rules)) e4 e6 h =
    ap (λ ms. chain_after (codes "table-nfqlb") (codes "nfqlb-local") ms (some (hook, r ∷ rules)))
      (chain_messages-suc output_chain (length rules) (rule_of output_chain e4)
        (rule_of output_chain e6))
    ∙ rw (h) refl

-- The messages of one chain leave the other one as it is.
pub chain_messages-kept :
    (count : ℕ) (c : ChainState) (e4 e6 : List Expr)
    → chain_after
        (codes "table-nfqlb")
        (codes "nfqlb-local")
        (chain_messages prerouting_chain count
          (rule_of prerouting_chain e4)
          (rule_of prerouting_chain e6))
        c
      ≡ c
unfolding chain_messages text_discrete
chain_messages-kept zero c e4 e6 = refl
chain_messages-kept (suc count) c e4 e6 =
    ap (λ ms. chain_after (codes "table-nfqlb") (codes "nfqlb-local") ms c)
      (chain_messages-suc prerouting_chain count (rule_of prerouting_chain e4)
        (rule_of prerouting_chain e6))

pub chain_messages-kept_local :
    (count : ℕ) (c : ChainState) (e4 e6 : List Expr)
    → chain_after
        (codes "table-nfqlb")
        (codes "nfqlb")
        (chain_messages output_chain count (rule_of output_chain e4) (rule_of output_chain e6))
        c
      ≡ c
unfolding chain_messages text_discrete
chain_messages-kept_local zero c e4 e6 = refl
chain_messages-kept_local (suc count) c e4 e6 =
    ap (λ ms. chain_after (codes "table-nfqlb") (codes "nfqlb") ms c)
      (chain_messages-suc output_chain count (rule_of output_chain e4) (rule_of output_chain e6))
