-- ===== src/Bird/Template.antt =====
-- pkg/bird/const.go: the default numbers and the templates, cut at their verbs.
use Prim.Native.String.{String}
use l_3_4_gateway_api_poc.Base.{ℕ, List, [], ◌∷◌, ◌++◌, Text, codes, ℤ, pos, digits}

-- The lines of a text, without a line end behind the last.
unfoldable pub lines : List String → Text
lines [] = []
lines (l ∷ []) = codes l
lines (l ∷ m ∷ ls) = codes l ++ 10 ∷ lines (m ∷ ls)

abbrev pub default_bgp_hold_time : ℕ
default_bgp_hold_time = 3

abbrev pub default_local_asn : ℕ
default_local_asn = 8103

abbrev pub default_local_port : ℕ
default_local_port = 10179

abbrev pub default_remote_asn : ℕ
default_remote_asn = 4248829953

abbrev pub default_remote_port : ℕ
default_remote_port = 10179

abbrev pub default_kernel_table_id : ℕ
default_kernel_table_id = 4096

abbrev pub default_log_file_size : ℤ
default_log_file_size = pos 20000

-- `fmt.Sprintf(baseConfig, ...)`
unfoldable pub base_config : ℕ → ℕ → Text
unfolding lines digits
base_config table4 table6 =
    lines (
      "protocol device {" ∷ "}" ∷ "" ∷ "filter gateway_routes {"
      ∷ "\tif ( net ~ [ 0.0.0.0/0 ] ) then accept;" ∷ "\tif ( net ~ [ 0::/0 ] ) then accept;"
      ∷ "\tif source = RTS_BGP then accept;" ∷ "\telse reject;" ∷ "}" ∷ ""
      ∷ "filter announced_routes {" ∷ "\tif ( net ~ [ 0.0.0.0/0 ] ) then reject;"
      ∷ "\tif ( net ~ [ 0::/0 ] ) then reject;"
      ∷ "\tif source = RTS_STATIC && dest != RTD_BLACKHOLE then accept;" ∷ "\telse reject;" ∷ "}"
      ∷ "" ∷ "template bgp BGP_TEMPLATE {" ∷ "\tdebug {events, states, interfaces};" ∷ " \tdirect;"
      ∷ " \thold time 3;" ∷ "\tbfd on;" ∷ "\tgraceful restart off;" ∷ "\tsetkey off;" ∷ "\tipv4 {"
      ∷ "\t\timport none;" ∷ "\t\texport none;"
      ∷ "\t\tnext hop self; # advertise this router as next hop" ∷ "\t};" ∷ "\tipv6 {"
      ∷ "\t\timport none;" ∷ "\t\texport none;"
      ∷ "\t\tnext hop self; # advertise this router as next hop" ∷ "\t};" ∷ "}" ∷ ""
      ∷ "protocol kernel {" ∷ "\tipv4 {" ∷ "\t\timport none;" ∷ "\t\texport filter gateway_routes;"
      ∷ "\t};" ∷ "\tkernel table " ∷ [])
    ++ digits table4
    ++ lines (
        ";" ∷ "\tmerge paths on;" ∷ "}" ∷ "" ∷ "protocol kernel {" ∷ "\tipv6 {" ∷ "\t\timport none;"
        ∷ "\t\texport filter gateway_routes;" ∷ "\t};" ∷ "\tkernel table " ∷ [])
    ++ digits table6
    ++ lines (
        ";" ∷ "\tmerge paths on;" ∷ "}" ∷ "" ∷ "ipv4 table drop4;" ∷ "" ∷ "ipv6 table drop6;" ∷ ""
        ∷ "protocol kernel {" ∷ "\tipv4 {" ∷ "\t\ttable drop4;" ∷ "\t\timport none;"
        ∷ "\t\texport all;" ∷ "\t};" ∷ "\tkernel table 4097;" ∷ "}" ∷ "" ∷ "protocol kernel {"
        ∷ "\tipv6 {" ∷ "\t\ttable drop6;" ∷ "\t\timport none;" ∷ "\t\texport all;" ∷ "\t};"
        ∷ "\tkernel table 4097;" ∷ "}" ∷ "" ∷ "protocol static DROP4 {"
        ∷ "\tipv4 { table drop4; preference 0; };" ∷ "\troute 0.0.0.0/0 blackhole {"
        ∷ "\t\tkrt_metric=4294967295;" ∷ "\t\tigp_metric=4294967295;" ∷ "\t};" ∷ "}" ∷ ""
        ∷ "protocol static DROP6 {" ∷ "\tipv6 { table drop6; preference 0; };"
        ∷ "\troute 0::/0 blackhole {" ∷ "\t\tkrt_metric=4294967295;" ∷ "\t\tigp_metric=4294967295;"
        ∷ "\t};" ∷ "}" ∷ [])

unfoldable pub vips_template : Text → Text → Text → Text
vips_template name family routes =
    codes "protocol static "
    ++ name
    ++ codes " {\n\t"
    ++ family
    ++ codes " { preference 110; };\n"
    ++ routes
    ++ codes "\n}"

unfoldable pub vip_route_template : Text → Text
vip_route_template cidr = codes "\troute " ++ cidr ++ codes " via \"lo\";\n"

unfoldable pub bgp_template : Text → Text → ℕ → ℕ → Text → ℕ → ℕ → Text → ℕ → Text → Text
unfolding digits
bgp_template name interface local_port local_asn address remote_port remote_asn bfd hold family =
    codes "protocol bgp '"
    ++ name
    ++ codes "' from BGP_TEMPLATE {\n\tinterface \""
    ++ interface
    ++ codes "\";\n\tlocal port "
    ++ digits local_port
    ++ codes " as "
    ++ digits local_asn
    ++ codes ";\n\tneighbor "
    ++ address
    ++ codes " port "
    ++ digits remote_port
    ++ codes " as "
    ++ digits remote_asn
    ++ codes ";\n\t"
    ++ bfd
    ++ codes "\n\thold time "
    ++ digits hold
    ++ codes ";\n\t"
    ++ family
    ++ codes " {\n\t\timport filter gateway_routes;\n"
    ++ codes "\t\texport filter announced_routes;\n\t};\n}"

unfoldable pub bfd_template : Text
bfd_template = codes "protocol bfd {\n\tinterface \"*\" {\n\t};\n}"

unfoldable pub bgp_bfd_template : Text → Text
bgp_bfd_template properties = codes "bfd {" ++ properties ++ codes "};"
