-- ===== src/Bird/Configuration.antt =====
-- pkg/bird/configuration.go and the tests of addresses in network.go: the text of the
-- configuration file. `none` is a nil pointer that is dereferenced.
use l_3_4_gateway_api_poc.Base.{
  ℕ, Bool, true, false, not, Option, none, some, List, [], ◌∷◌, ◌++◌, Text, text_discrete, codes, ℤ,
  pos, negsuc, itoa, digits, ite, if◌then◌else◌, ltb,
}
use l_3_4_gateway_api_poc.Net.{Addresses, is_v4}
use l_3_4_gateway_api_poc.Bird.Gateway.{BfdSpec, Gateway, bgp_protocol}
use l_3_4_gateway_api_poc.Bird.Template.{
  base_config, vips_template, vip_route_template, bgp_template, bfd_template, bgp_bfd_template,
  default_bgp_hold_time, default_local_asn, default_local_port, default_remote_asn,
  default_remote_port, default_kernel_table_id,
}

-- The configuration of the fields of `Bird` that do not change.
pub record Settings : Type 0 where
  pub socket_path : Text
  pub config_file : Text
  pub log_enabled : Bool
  pub log_file_size : ℤ
  pub log_file : Text
  pub log_file_backup : Text

abbrev positive : ℤ → Bool
positive (pos n) = ltb 0 n
positive (negsuc n) = false

unfoldable pub log_config : Settings → Text
unfolding itoa
log_config b =
    (if positive b.log_file_size
      then codes "log \""
        ++ b.log_file
        ++ codes "\" "
        ++ itoa b.log_file_size
        ++ codes " \""
        ++ b.log_file_backup
        ++ codes "\" { debug, trace, info, remote, warning, error, auth, fatal, bug };\n"
      else [])
    ++ (if b.log_enabled
        then codes "log stderr all;"
        else codes "log stderr { error, fatal, bug, warning };")

abbrev pub is_empty : Text → Bool
is_empty [] = true
is_empty (c ∷ t) = false

unfoldable pub bfd_config : BfdSpec → Text
unfolding digits bgp_bfd_template
bfd_config bfd =
    let conf =
      (if is_empty bfd.min_rx
        then []
        else codes "\t\tmin rx interval " ++ bfd.min_rx ++ codes ";\n")
      ++ (if is_empty bfd.min_tx
          then []
          else codes "\t\tmin tx interval " ++ bfd.min_tx ++ codes ";\n")
      ++ elim bfd.multiplier [
        | none ↦ []
        | some m ↦ codes "\t\tmultiplier " ++ digits m ++ codes ";\n"
      ] in
    let on = bgp_bfd_template (if is_empty conf then [] else codes "\n" ++ conf ++ codes "\t") in
    elim bfd.switch [ none ↦ codes "\tbfd off;" | some sw ↦ if sw then on else codes "\tbfd off;" ]

-- The test is on the port, and the AS number is what is dereferenced.
abbrev pub asn_under_port : Option ℕ → Option ℕ → ℕ → Option ℕ
asn_under_port none asn default = some default
asn_under_port (some port) asn default = asn

abbrev pub port_or : Option ℕ → ℕ → ℕ
port_or none default = default
port_or (some port) default = port

module _ (a : Addresses) where
  open a use {parse_ip, parse_cidr}

  unfoldable pub is_ipv4_cidr : Text → Bool
  is_ipv4_cidr cidr = elim (parse_cidr cidr) [ none ↦ false | some (ip, _) ↦ is_v4 ip ]

  unfoldable pub is_ipv6_cidr : Text → Bool
  is_ipv6_cidr cidr = elim (parse_cidr cidr) [ none ↦ false | some (ip, _) ↦ not (is_v4 ip) ]

  unfoldable pub is_ipv4 : Text → Bool
  is_ipv4 ip = elim (parse_ip ip) [ none ↦ false | some ip_addr ↦ is_v4 ip_addr ]

  unfoldable pub is_ipv6 : Text → Bool
  is_ipv6 ip = elim (parse_ip ip) [ none ↦ false | some ip_addr ↦ not (is_v4 ip_addr) ]

  -- The loop of `vipsConfig`, on the routes of both families so far.
  unfoldable pub vip_routes : List Text → Text → Text → Text × Text
  unfolding is_ipv4_cidr is_ipv6_cidr vip_route_template
  vip_routes [] ipv4 ipv6 = (ipv4, ipv6)
  vip_routes (vip ∷ vips) ipv4 ipv6 =
      if is_ipv6_cidr vip
      then vip_routes vips ipv4 (ipv6 ++ vip_route_template vip)
      else if is_ipv4_cidr vip
      then vip_routes vips (ipv4 ++ vip_route_template vip) ipv6
      else vip_routes vips ipv4 ipv6

  unfoldable pub vips_config : List Text → Text
  unfolding vip_routes vips_template
  vips_config vips =
      let (ipv4, ipv6) = vip_routes vips [] [] in
      (if is_empty ipv4 then [] else vips_template (codes "VIP4") (codes "ipv4") ipv4)
      ++ (if is_empty ipv6 then [] else vips_template (codes "VIP6") (codes "ipv6") ipv6)

  unfoldable pub bgp_config : Gateway → Option Text
  unfolding is_ipv4 is_ipv6 bgp_template bfd_config
  bgp_config gateway =
      let family =
        if is_ipv4 gateway.address
        then codes "ipv4"
        else if is_ipv6 gateway.address
        then codes "ipv6"
        else [] in
      elim gateway.bgp [
        | none ↦ none
        | some spec ↦ elim (asn_under_port spec.local_port spec.local_asn default_local_asn) [
          | none ↦ none
          | some local_asn ↦
              elim (asn_under_port spec.remote_port spec.remote_asn default_remote_asn) [
                | none ↦ none
                | some remote_asn ↦ some (
                    bgp_template gateway.name gateway.interface
                      (port_or spec.local_port default_local_port) local_asn gateway.address
                      (port_or spec.remote_port default_remote_port) remote_asn
                      (bfd_config spec.bfd) default_bgp_hold_time family)
              ]
        ]
      ]

  unfoldable pub gateway_config : Gateway → Option Text
  unfolding bgp_config
  gateway_config gateway =
      ite (text_discrete gateway.protocol bgp_protocol) (bgp_config gateway) (some [])

  -- The loop of `gatewaysConfig`
  unfoldable pub gateway_configs : List Gateway → Option Text
  unfolding gateway_config
  gateway_configs [] = some []
  gateway_configs (gateway ∷ gateways) =
      let rest = gateway_configs gateways in
      elim (gateway_config gateway) [
        | none ↦ none
        | some conf ↦ elim rest [ none ↦ none | some confs ↦ some (conf ++ codes "\n\n" ++ confs) ]
      ]

  unfoldable pub gateways_config : List Gateway → Option Text
  unfolding gateway_configs bfd_template
  gateways_config gateways = elim (gateway_configs gateways) [
    | none ↦ none
    | some confs ↦ some (confs ++ bfd_template)
  ]

  unfoldable pub get_config : Settings → List Text → List Gateway → Option Text
  unfolding log_config base_config vips_config gateways_config
  get_config b vips gateways =
      let conf =
        log_config b
        ++ codes "\n\n"
        ++ base_config default_kernel_table_id default_kernel_table_id in
      let of_vips = vips_config vips in
      let conf = if is_empty of_vips then conf else conf ++ codes "\n\n" ++ of_vips in
      elim (gateways_config gateways) [
        | none ↦ none
        | some of_gateways ↦
            some (if is_empty of_gateways then conf else conf ++ codes "\n\n" ++ of_gateways)
      ]
