-- ===== src/Nfqlb/Netfilter.antt =====
-- The part of pkg/nfqlb/netfilter.go that follows the flows: `setDestinationCIDRs`.
use l_3_4_gateway_api_poc.Base.{Option, none, some, List, [], ◌∷◌, Text}
use l_3_4_gateway_api_poc.Nfqlb.Errors.{Errors, get_set_elements_failed}
use l_3_4_gateway_api_poc.Nfqlb.Platform.{Platform, v4, v6}
use l_3_4_gateway_api_poc.Nfqlb.Sets.{
  Range, get_current_elements, update_set, get_ipv4_and_ipv6, ip_nets_to_set_elements,
}

module _ (p : Platform) where
  open p use {World}

  -- The second `updateSet` is reached only where the first one has no error.
  unfoldable pub update_sets :
      List Range → List Range → List Range → List Range → World → Errors × World
  update_sets current_ipv4 ipv4 current_ipv6 ipv6 w =
      let (errors, w1) = update_set p v4 current_ipv4 ipv4 w in
      elim errors [ [] ↦ update_set p v6 current_ipv6 ipv6 w1 | e ∷ es ↦ (e ∷ es, w1) ]

  -- The current elements of both sets are read before either is changed.
  unfoldable pub refresh_sets : List Range → List Range → World → Errors × World
  unfolding update_sets
  refresh_sets ipv4 ipv6 w = elim (get_current_elements p v4 w) [
    | none ↦ (get_set_elements_failed ∷ [], w)
    | some current_ipv4 ↦ elim (get_current_elements p v6 w) [
      | none ↦ (get_set_elements_failed ∷ [], w)
      | some current_ipv6 ↦ update_sets current_ipv4 ipv4 current_ipv6 ipv6 w
    ]
  ]

  -- `none` is a panic.
  unfoldable pub set_destination_cidrs : List Text → World → Option (Errors × World)
  unfolding refresh_sets
  set_destination_cidrs cidr_list w =
      let (ipv4s, ipv6s) = get_ipv4_and_ipv6 p cidr_list in
      elim (ip_nets_to_set_elements ipv4s) [
        | none ↦ none
        | some ipv4 ↦ elim (ip_nets_to_set_elements ipv6s) [
          | none ↦ none
          | some ipv6 ↦ some (refresh_sets ipv4 ipv6 w)
        ]
      ]
