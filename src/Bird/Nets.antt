-- ===== src/Bird/Nets.antt =====
-- The map of the addresses that `setPolicyRoutes` works on has their networks as keys.
use l_3_4_gateway_api_poc.Base.{
  ◌≡◌, refl, ◌↔◌, ◌⊎◌, inl, inr, Option-cases, none, some, List, [], ◌∷◌, Text, text_discrete,
  insert, keys, In-keys-insert, keys-insert-In, keys-insert-Distinct, insert-All, In, Distinct, All,
}
use l_3_4_gateway_api_poc.Net.{Addresses, IpNet}
use l_3_4_gateway_api_poc.Bird.Rules.{add_vips}

module _ (a : Addresses) where
  open a use {parse_cidr, net_string}

  -- The networks of the addresses that parse, as texts.
  unfoldable pub vip_nets : List Text → List Text
  vip_nets [] = []
  vip_nets (vip ∷ vips) =
      let rest = vip_nets vips in
      elim (parse_cidr vip) [ none ↦ rest | some (_, net) ↦ net_string net ∷ rest ]

  -- An entry of the map stands under the text of its network.
  abbrev pub Keyed : Text × IpNet → Type 0
  Keyed e = e.0 ≡ net_string e.1

  pub add_vips-In :
      (k : Text) (vips : List Text) (m : List (Text × IpNet))
      → In k (keys (add_vips a vips m)) ↔ (In k (vip_nets vips) ⊎ In k (keys m))
  unfolding add_vips vip_nets
  add_vips-In k [] m = ((λ i. inr i), elim [ inl e ↦ absurd e | inr i ↦ i ])
  add_vips-In k (vip ∷ vips) m = elim (Option-cases (parse_cidr vip)) [
    | inl e ↦ rw (e, add_vips, vip_nets) (add_vips-In k vips m)
    | inr ((ip, net), e) ↦
        let (to, from) = add_vips-In k vips (insert text_discrete (net_string net) net m) in
        rw (e, add_vips, vip_nets)
          (
            (λ i. elim (to i) [
              | inl j ↦ inl (inr j)
              | inr j ↦ elim (In-keys-insert text_discrete k (net_string net) net m j) [
                | inl e ↦ inl (inl e)
                | inr l ↦ inr l
              ]
            ]),
            elim [
              | inl (inl e) ↦ from (inr (keys-insert-In text_discrete k _ net m (inl e)))
              | inl (inr j) ↦ from (inl j)
              | inr j ↦ from (inr (keys-insert-In text_discrete k _ net m (inr j)))
            ],
          )
  ]

  pub add_vips-Distinct :
      (vips : List Text) (m : List (Text × IpNet))
      → Distinct (keys m)
      → All Keyed m
      → Distinct (keys (add_vips a vips m)) × All Keyed (add_vips a vips m)
  unfolding add_vips
  add_vips-Distinct [] m d h = (d, h)
  add_vips-Distinct (vip ∷ vips) m d h = elim (Option-cases (parse_cidr vip)) [
    | inl e ↦ rw (e, add_vips) (add_vips-Distinct vips m d h)
    | inr ((ip, net), e) ↦
        rw (e, add_vips)
          (add_vips-Distinct vips (insert text_discrete (net_string net) net m)
            (keys-insert-Distinct text_discrete (net_string net) net m d)
            (insert-All text_discrete Keyed (net_string net) net m refl h))
  ]
