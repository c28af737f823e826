-- ===== src/Bird/Exact.antt =====
-- What `setPolicyRoutes` leaves in the table of bird, on a kernel that does what it documents.
use l_3_4_gateway_api_poc.Base.{
  ◌≡◌, refl, sym, subst, ◌↔◌, ◌⊎◌, inl, inr, List, [], map, Text, pos, keys, In, Distinct, All,
  In-map, map-In, map-Distinct,
}
use l_3_4_gateway_api_poc.Net.{Addresses, IpNet}
use l_3_4_gateway_api_poc.Netlink.{Netlink, Kernel}
use l_3_4_gateway_api_poc.Bird.Template.{default_kernel_table_id}
use l_3_4_gateway_api_poc.Bird.Rules.{
  vip_map, vip_rule, src_string, delete_rules, add_rules, set_policy_routes,
}
use l_3_4_gateway_api_poc.Bird.Plan.{
  dropped, left, left-In, left-Distinct, left-All, stays-In, stays_not-left, stays_alone,
  left_or_stays,
}
use l_3_4_gateway_api_poc.Bird.Nets.{vip_nets, Keyed, add_vips-In, add_vips-Distinct}
use l_3_4_gateway_api_poc.Bird.Loops.{
  delete_rules-dropped, add_rules-new_rules, new_rules-src, src-new_rules, new_rules_alone,
}

module _ (a : Addresses) (n : Netlink) (k : Kernel n (pos default_kernel_table_id))
    (vips : List Text) (w : n.World) where
  open a use {net_string}
  open n use {World, Rule}
  open k use {rules, listed, rules-Distinct}

  abbrev src : Rule → Text
  src = src_string a n

  abbrev new_rules : List (Text × IpNet) → List Rule
  new_rules = map (λ e. n.new_rule (vip_rule e.1))

  abbrev waiting : List (Text × IpNet)
  waiting = left src (rules w) (vip_map a vips)

  abbrev after_deletes : World
  after_deletes = (delete_rules a n (rules w) (vip_map a vips) w).1

  abbrev after : World
  after = (add_rules a n waiting after_deletes).1

  deletes :
      ((delete_rules a n (rules w) (vip_map a vips) w).0 ≡ ([], waiting))
      × ((x : Rule)
          → In x (rules after_deletes)
            ↔ (In x (rules w) × (¬ In x (dropped src (rules w) (vip_map a vips)))))
  deletes = delete_rules-dropped a n k (rules w) (vip_map a vips) w (rules-Distinct w) (λ x i. i)

  map-Keyed : Distinct (keys (vip_map a vips)) × All (Keyed a) (vip_map a vips)
  unfolding vip_map
  map-Keyed = add_vips-Distinct a vips [] tt tt

  waiting-Keyed : Distinct (keys waiting) × All (Keyed a) waiting
  waiting-Keyed = (
    left-Distinct src (rules w) (vip_map a vips) map-Keyed.0,
    left-All src (Keyed a) (rules w) (vip_map a vips) map-Keyed.1,
  )

  apart : (x : Rule) → In x (rules after_deletes) → ¬ In (src x) (keys waiting)
  apart x i =
      let (before, stays) = (deletes.1 x).0 i in
      stays_not-left src x (rules w) (vip_map a vips) before stays

  adds :
      ((add_rules a n waiting after_deletes).0 ≡ [])
      × ((x : Rule) → In x (rules after) ↔ (In x (new_rules waiting) ⊎ In x (rules after_deletes)))
  adds = add_rules-new_rules a n k waiting after_deletes waiting-Keyed.0 waiting-Keyed.1 apart

  runs : set_policy_routes a n vips w ≡ ([], after)
  unfolding set_policy_routes
  runs = rw (listed w, set_policy_routes, deletes.0, adds.0) refl

  after_alone : (x y : Rule) → In x (rules after) → In y (rules after) → src x ≡ src y → x ≡ y
  after_alone x y i j e = elim ((adds.1 x).0 i) [
    | inl new_x ↦ elim ((adds.1 y).0 j) [
      | inl new_y ↦ new_rules_alone a n k x y waiting waiting-Keyed.0 waiting-Keyed.1 new_x new_y e
      | inr old_y ↦ absurd (
          apart y old_y (
            subst (λ t. In t (keys waiting)) e
              (new_rules-src a n k x waiting waiting-Keyed.1 new_x)))
    ]
    | inr old_x ↦ elim ((adds.1 y).0 j) [
      | inl new_y ↦ absurd (
          apart x old_x (
            subst (λ t. In t (keys waiting)) (sym e)
              (new_rules-src a n k y waiting waiting-Keyed.1 new_y)))
      | inr old_y ↦
          let (at_x, stays_x) = (deletes.1 x).0 old_x in
          let (at_y, stays_y) = (deletes.1 y).0 old_y in
          stays_alone src x y (rules w) (vip_map a vips) at_x at_y stays_x stays_y e
    ]
  ]

  after-In : (x : Rule) → In x (rules after) → In (src x) (keys (vip_map a vips))
  after-In x i = elim ((adds.1 x).0 i) [
    | inl new ↦
        left-In src (src x) (rules w) (vip_map a vips)
          (new_rules-src a n k x waiting waiting-Keyed.1 new)
    | inr old ↦
        let (there, stays) = (deletes.1 x).0 old in
        stays-In src x (rules w) (vip_map a vips) there stays
  ]

  In-after :
      (t : Text) → In t (keys (vip_map a vips)) → (x : Rule) × In x (rules after) × (src x ≡ t)
  In-after t i = elim (left_or_stays src t (rules w) (vip_map a vips) (rules-Distinct w) i) [
    | inl l ↦
        let (x, new, e) = src-new_rules a n k t waiting waiting-Keyed.1 l in
        (x, (adds.1 x).1 (inl new), e)
    | inr (x, there, stays, e) ↦ (x, (adds.1 x).1 (inr ((deletes.1 x).1 (there, stays))), e)
  ]

  map-vip_nets : (t : Text) → In t (keys (vip_map a vips)) ↔ In t (vip_nets a vips)
  unfolding vip_map
  map-vip_nets t =
      let (to, from) = add_vips-In a t vips [] in
      ((λ i. elim (to i) [ inl j ↦ j | inr e ↦ absurd e ]), λ i. from (inl i))

  -- On a kernel that does what it documents, setPolicyRoutes has no error, and afterwards the
  -- sources of the rules in the table of bird are pairwise different and are exactly the networks
  -- of the addresses that parse, whatever rules were there.
  pub set_policy_routes-vip_nets :
      ((set_policy_routes a n vips w).0 ≡ [])
      × Distinct (map src (rules (set_policy_routes a n vips w).1))
      × ((t : Text)
          → In t (map src (rules (set_policy_routes a n vips w).1)) ↔ In t (vip_nets a vips))
  set_policy_routes-vip_nets = rw (runs) (
    refl,
    map-Distinct src (rules after) (rules-Distinct after) after_alone,
    λ t. (
      (λ i.
          let (x, there, e) = map-In src t (rules after) i in
          (map-vip_nets t).0
            (subst (λ z. In z (keys (vip_map a vips))) (sym e) (after-In x there))),
      (λ i.
          let (x, there, e) = In-after t ((map-vip_nets t).1 i) in
          subst (λ z. In z (map src (rules after))) e (In-map src x (rules after) there)),
    ),
  )
