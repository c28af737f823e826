-- ===== src/Bird/Vips.antt =====
-- `vipsConfig` puts the addresses of a family in one protocol.
use l_3_4_gateway_api_poc.Base.{
  arith, ◌≡◌, ◌∙◌, ◌↔◌, ◌⊎◌, refl, Bool, true, false, not, some, Option-cases, Bool-cases, inl, inr,
  List, [], ◌∷◌, ◌++◌, append_assoc, append-nil, Text, codes, if◌then◌else◌,
}
use l_3_4_gateway_api_poc.Net.{Ip, IpNet, Addresses, is_v4}
use l_3_4_gateway_api_poc.Bird.Template.{vips_template, vip_route_template}
use l_3_4_gateway_api_poc.Bird.Configuration.{
  is_empty, is_ipv4_cidr, is_ipv6_cidr, vip_routes, vips_config,
}

-- The routes of the addresses that pass a test, in their order.
unfoldable pub routes_of : (Text → Bool) → List Text → Text
routes_of test [] = []
routes_of test (vip ∷ vips) =
    let rest = routes_of test vips in if test vip then vip_route_template vip ++ rest else rest

-- The protocol of a family, if it has a route.
abbrev pub protocol_of : Text → Text → Text → Text
protocol_of name family routes = if is_empty routes then [] else vips_template name family routes

-- The lines of bird's configuration that announce addresses, and the protocol around those of a
-- family, which is left out where there is no address.
abbrev pub route_lines : List Text → Text
route_lines [] = []
route_lines (vip ∷ vips) = codes "\troute " ++ vip ++ codes " via \"lo\";\n" ++ route_lines vips

abbrev pub static_protocol : Text → Text → List Text → Text
static_protocol name family [] = []
static_protocol name family (vip ∷ vips) =
    codes "protocol static "
    ++ name
    ++ codes " {\n\t"
    ++ family
    ++ codes " { preference 110; };\n"
    ++ route_lines (vip ∷ vips)
    ++ codes "\n}"

abbrev selected : (Text → Bool) → List Text → List Text
selected test [] = []
selected test (vip ∷ vips) = let rest = selected test vips in if test vip then vip ∷ rest else rest

routes_of-selected :
    (test : Text → Bool) (vips : List Text) → routes_of test vips ≡ route_lines (selected test vips)
unfolding routes_of vip_route_template
routes_of-selected test [] = refl
routes_of-selected test (vip ∷ vips) =
    let rest = routes_of-selected test vips in
    elim (Bool-cases (test vip)) [ inl h ↦ rw (h, rest) refl | inr h ↦ rw (h) rest ]

protocol_of-route_lines :
    (name family : Text) (vips : List Text)
    → protocol_of name family (route_lines vips) ≡ static_protocol name family vips
unfolding vips_template
protocol_of-route_lines name family [] = refl
protocol_of-route_lines name family (vip ∷ vips) = refl

module _ (a : Addresses) where
  open a use {parse_cidr}

  one_family : (vip : Text) → is_ipv6_cidr a vip ≡ true → is_ipv4_cidr a vip ≡ false
  unfolding is_ipv6_cidr is_ipv4_cidr
  one_family vip h = ground arith

  vip_routes-routes_of :
      (vips : List Text) (ipv4 ipv6 : Text)
      → vip_routes a vips ipv4 ipv6
        ≡ (ipv4 ++ routes_of (is_ipv4_cidr a) vips, ipv6 ++ routes_of (is_ipv6_cidr a) vips)
  unfolding vip_routes routes_of
  vip_routes-routes_of [] ipv4 ipv6 = rw (append-nil ipv4, append-nil ipv6) refl
  vip_routes-routes_of (vip ∷ vips) ipv4 ipv6 = elim (Bool-cases (is_ipv6_cidr a vip)) [
    | inl h ↦
        rw
          (
            h,
            one_family vip h,
            vip_routes-routes_of vips ipv4 (ipv6 ++ vip_route_template vip),
            append_assoc ipv6,
          )
          refl
    | inr h ↦ elim (Bool-cases (is_ipv4_cidr a vip)) [
      | inl g ↦
          rw
            (
              h,
              g,
              vip_routes-routes_of vips (ipv4 ++ vip_route_template vip) ipv6,
              append_assoc ipv4,
            )
            refl
      | inr g ↦ rw (h, g) (vip_routes-routes_of vips ipv4 ipv6)
    ]
  ]

  vips_config-protocol_of :
      (vips : List Text)
      → vips_config a vips
        ≡ protocol_of (codes "VIP4") (codes "ipv4") (routes_of (is_ipv4_cidr a) vips)
          ++ protocol_of (codes "VIP6") (codes "ipv6") (routes_of (is_ipv6_cidr a) vips)
  unfolding vips_config
  vips_config-protocol_of vips = rw (vip_routes-routes_of vips [] []) refl

  -- A text is a prefix of a family: it parses, and its address has a four-byte form, or has none.
  abbrev pub IsOfFamily : Bool → Text → Type 0
  IsOfFamily four vip =
      (ip : Ip) × (net : IpNet) × (parse_cidr vip ≡ some (ip, net)) × (is_v4 ip ≡ four)

  -- The second list has the prefixes of a family of the first one, in their order.
  abbrev pub AreOfFamily : Bool → List Text → List Text → Type 0
  AreOfFamily four [] own = own ≡ []
  AreOfFamily four (vip ∷ vips) own =
      ((¬ IsOfFamily four vip) × AreOfFamily four vips own)
      ⊎ ((rest : List Text) × IsOfFamily four vip × (own ≡ vip ∷ rest) × AreOfFamily four vips rest)

  is_ipv4_cidr-IsOfFamily : (vip : Text) → (is_ipv4_cidr a vip ≡ true) ↔ IsOfFamily true vip
  unfolding is_ipv4_cidr
  is_ipv4_cidr-IsOfFamily vip = elim (Option-cases (parse_cidr vip)) [
    | inl n ↦ ((λ h. absurd (ground arith)), λ (ip, net, e, v). absurd (cc))
    | inr ((ip, net), s) ↦ (
      (λ h. (ip, net, s, rw (is_ipv4_cidr, s) at h)),
      λ (ip1, net1, e, v). rw (is_ipv4_cidr, e) v,
    )
  ]

  is_ipv6_cidr-IsOfFamily : (vip : Text) → (is_ipv6_cidr a vip ≡ true) ↔ IsOfFamily false vip
  unfolding is_ipv6_cidr
  is_ipv6_cidr-IsOfFamily vip = elim (Option-cases (parse_cidr vip)) [
    | inl n ↦ ((λ h. absurd (ground arith)), λ (ip, net, e, v). absurd (cc))
    | inr ((ip, net), s) ↦ (
      (λ h.
          (ip, net, s, let t : not (is_v4 ip) ≡ true = rw (is_ipv6_cidr, s) at h in ground arith)),
      λ (ip1, net1, e, v). rw (is_ipv6_cidr, e, v) refl,
    )
  ]

  selected-AreOfFamily :
      (four : Bool) (test : Text → Bool) (vips : List Text)
      → ((vip : Text) → (test vip ≡ true) ↔ IsOfFamily four vip)
      → AreOfFamily four vips (selected test vips)
  selected-AreOfFamily four test [] same = refl
  selected-AreOfFamily four test (vip ∷ vips) same =
      let rest = selected-AreOfFamily four test vips same in
      elim (Bool-cases (test vip)) [
        | inl h ↦ rw (h) (inr (selected test vips, (same vip).0 h, refl, rest))
        | inr h ↦ rw (h) (inl ((λ o. let yes_it_is = (same vip).1 o in absurd (cc)), rest))
      ]

  -- vipsConfig writes, in bird's syntax, the static protocol VIP4 with a route through lo for each
  -- of the addresses that parse as an IPv4 prefix, in their order, and then VIP6 in the same way
  -- for IPv6, and leaves out the protocol of a family without an address.
  pub vips_config-AreOfFamily :
      (vips : List Text)
      → (four : List Text) × (six : List Text) × AreOfFamily true vips four
        × AreOfFamily false vips six
        × (vips_config a vips
            ≡ static_protocol (codes "VIP4") (codes "ipv4") four
              ++ static_protocol (codes "VIP6") (codes "ipv6") six)
  vips_config-AreOfFamily vips =
      let four = selected (is_ipv4_cidr a) vips in
      let six = selected (is_ipv6_cidr a) vips in
      (
        four,
        six,
        selected-AreOfFamily true (is_ipv4_cidr a) vips is_ipv4_cidr-IsOfFamily,
        selected-AreOfFamily false (is_ipv6_cidr a) vips is_ipv6_cidr-IsOfFamily,
        vips_config-protocol_of vips
            ∙ rw
                (routes_of-selected (is_ipv4_cidr a) vips, routes_of-selected (is_ipv6_cidr a) vips)
                (rw
                  (
                    protocol_of-route_lines (codes "VIP4") (codes "ipv4") four,
                    protocol_of-route_lines (codes "VIP6") (codes "ipv6") six,
                  )
                  refl),
      )
