-- ===== src/Nfqlb/Nftables.antt =====
-- The part of github.com/google/nftables that netfilter.go and set.go build: tables, sets, chains
-- and rules, the messages that a connection queues, and their batch, which `Flush` sends.
use l_3_4_gateway_api_poc.Base.{ℕ, Bool, Option, List, Text}

-- A table of the family `inet`
pub record NftTable : Type 0 where
  pub name : Text

pub data KeyType : Type 0 where
  type_ip_addr type_ip6_addr : KeyType

-- A set of intervals; a nil table is `none`, here and below.
pub record NftSet : Type 0 where
  pub table : Option NftTable
  pub name : Text
  pub key_type : KeyType

pub data Hook : Type 0 where
  prerouting output : Hook

-- A chain of the type and priority `filter`
pub record NftChain : Type 0 where
  pub name : Text
  pub table : Option NftTable
  pub hook : Hook

pub data MetaKey : Type 0 where
  meta_key_nfproto meta_key_l4proto : MetaKey

-- The constructors of package `expr` with the fields that are set; a payload is loaded from the
-- network header, and the flag of a queue says whether packets fan out.
pub data Expr : Type 0 where
  meta : MetaKey → ℕ → Expr
  cmp_eq : ℕ → List ℕ → Expr
  payload : ℕ → ℕ → ℕ → Expr
  set_lookup : ℕ → Text → Expr
  counter : ℕ → ℕ → Expr
  queue : ℕ → ℕ → Bool → Expr

pub record NftRule : Type 0 where
  pub table : Option NftTable
  pub chain : NftChain
  pub exprs : List Expr

pub data Message : Type 0 where
  add_table : NftTable → Message
  add_set : NftSet → Message
  add_chain : NftChain → Message
  flush_chain : NftChain → Message
  add_rule : NftRule → Message
  flush_table : Option NftTable → Message
  del_table : Option NftTable → Message

-- `GetRules` gives the number of rules, 0 for an error; `AddSet` checks the set.
pub record Nftables : Type 1 where
  pub World : Type 0
  pub count_rules : NftChain → World → ℕ
  pub takes_set : NftSet → Bool
  pub flush : List Message → World → Bool × World
