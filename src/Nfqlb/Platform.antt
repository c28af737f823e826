-- ===== src/Nfqlb/Platform.antt =====
-- What pkg/nfqlb calls and does not implement: the `nfqlb` binary, netlink, nftables, the JSON
-- decoder for the flow list, and the text forms of addresses. Each call acts on a state of the
-- host that the model knows nothing of.
use l_3_4_gateway_api_poc.Base.{ℕ, Bool, Option, List, Text, ℤ}
use l_3_4_gateway_api_poc.Net.{Ip, Addresses}

-- `netlink.FAMILY_V4`, `netlink.FAMILY_V6`
pub data Family : Type 0 where
  v4 v6 : Family

-- The fields of `netlink.Rule` and `netlink.Route` that routing.go sets.
pub record Rule : Type 0 where
  pub table : ℤ
  pub mark : ℤ
  pub family : Family

pub record Route : Type 0 where
  pub gw : Ip
  pub table : ℤ

-- `nftables.SetElement`
pub record SetElement : Type 0 where
  pub key : List ℕ
  pub interval_end : Bool

-- What a connection to nftables queues until `Flush`.
pub data NftMessage : Type 0 where
  set_delete_elements : Family → List SetElement → NftMessage
  set_add_elements : Family → List SetElement → NftMessage

-- `nfqlbFlow`, as `nfqlb flow-list` prints it; `none` is a nil slice.
pub record Flow : Type 0 where
  pub name : Text
  pub server_name : Text
  pub source_cidrs : Option (List Text)
  pub destination_cidrs : Option (List Text)
  pub source_port_ranges : Option (List Text)
  pub destination_port_ranges : Option (List Text)
  pub protocols : Option (List Text)
  pub priority : ℤ
  pub byte_matches : Option (List Text)

pub record Platform : Type 1 where
  pub World : Type 0
  -- The path of a binary and its arguments: the output, or `none` for a failure.
  pub run_command : Text → List Text → World → Option Text × World
  pub unmarshal_flows : Text → Option (List Flow)
  pub addresses : Addresses
  pub open addresses use *
  -- `true` stands for a nil error.
  pub rule_add : Rule → World → Bool × World
  pub rule_del : Rule → World → Bool × World
  pub route_add : Route → World → Bool × World
  pub route_del : Route → World → Bool × World
  -- `RouteListFiltered` by gateway and table
  pub route_list : Family → Route → World → Option (List Route)
  pub neigh_list : World → Option (List Ip)
  pub neigh_del : Ip → World → Bool × World
  -- The elements of the set of one family.
  pub get_set_elements : Family → World → Option (List SetElement)
  -- Whether the connection takes a message; the messages of a connection are sent at once.
  pub queue_message : NftMessage → Bool
  pub flush : List NftMessage → World → Bool × World
