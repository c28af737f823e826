-- ===== src/Cni/LoopbackVip.antt =====
-- cmd/cni/loopback-vip/main.go: the plug-in that puts an address of the gateway on `lo`.
use l_3_4_gateway_api_poc.Base.{Option, none, some, [], ◌∷◌, Text, codes, if◌then◌else◌}
use l_3_4_gateway_api_poc.Net.{IpNet, Addresses}
use l_3_4_gateway_api_poc.Netlink.{Netlink}
use l_3_4_gateway_api_poc.Cni.{CmdArgs, Host}
use l_3_4_gateway_api_poc.Cni.Command.{CommandError, add_with, del_with}

abbrev pub interface_name : Text
interface_name = codes "lo"

pub record EnvArgs : Type 0 where
  pub vip : Text

-- `none` is a nil pointer.
pub record CniArgs : Type 0 where
  pub a : Option EnvArgs

pub record NetConf : Type 0 where
  pub cni_version : Text
  pub vip : Text
  pub args : Option CniArgs

pub data LoopbackError : Type 0 where
  link_not_found addr_not_added addr_not_deleted : LoopbackError

-- The address of the arguments, unless it is empty, in place of the one of the configuration.
abbrev pub vip_or : Text → Text → Text
vip_or [] vip = vip
vip_or (c ∷ t) vip = c ∷ t

abbrev pub vip_of_args : NetConf → Text
vip_of_args conf = elim conf.args [
  | none ↦ conf.vip
  | some args ↦ elim args.a [ none ↦ conf.vip | some a ↦ vip_or a.vip conf.vip ]
]

module _ (a : Addresses) where
  open a use {parse_cidr}

  unfoldable pub load_conf : (Text → Option NetConf) → Text → Option NetConf
  load_conf unmarshal stdin_data = elim (unmarshal stdin_data) [
    | none ↦ none
    | some conf ↦ elim (parse_cidr (vip_of_args conf)) [
      | none ↦ none
      | some _ ↦ some (record conf { vip = vip_of_args conf })
    ]
  ]

  abbrev pub vip_net : NetConf → Option IpNet
  vip_net conf = elim (parse_cidr conf.vip) [ none ↦ none | some (_, net) ↦ some net ]

  module _ (n : Netlink) where
    open n use {World, link_by_name, addr_add, addr_del}

    -- What `cmdAdd` does in the namespace
    unfoldable pub add_vip : NetConf → World → Option LoopbackError × World
    add_vip conf w = elim (link_by_name interface_name w) [
      | none ↦ (some link_not_found, w)
      | some link ↦
          let (added, w1) = addr_add link (vip_net conf) w in
          (if added then none else some addr_not_added, w1)
    ]

    -- What `cmdDel` does in the namespace
    unfoldable pub del_vip : NetConf → World → Option LoopbackError × World
    del_vip conf w = elim (link_by_name interface_name w) [
      | none ↦ (some link_not_found, w)
      | some link ↦
          let (deleted, w1) = addr_del link (vip_net conf) w in
          (if deleted then none else some addr_not_deleted, w1)
    ]

module _ (h : Host) (unmarshal : Text → Option NetConf) where
  unfoldable pub cmd_add : CmdArgs → h.World → Option (CommandError LoopbackError) × h.World
  unfolding add_with load_conf add_vip
  cmd_add =
      add_with h (load_conf h.addresses unmarshal) (λ conf. conf.cni_version)
        (add_vip h.addresses h.netlink)

  unfoldable pub cmd_del : CmdArgs → h.World → Option (CommandError LoopbackError) × h.World
  unfolding del_with load_conf del_vip
  cmd_del =
      del_with h (load_conf h.addresses unmarshal) (λ conf. conf.cni_version)
        (del_vip h.addresses h.netlink)
