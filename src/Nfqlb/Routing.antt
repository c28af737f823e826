-- ===== src/Nfqlb/Routing.antt =====
-- pkg/nfqlb/routing.go: the policy route of a target, a rule for its fwmark and a table.
use l_3_4_gateway_api_poc.Base.{Bool, false, none, some, List, [], ◌∷◌, Text, ℤ, if◌then◌else◌}
use l_3_4_gateway_api_poc.Net.{Ip, is_v4, same_ip}
use l_3_4_gateway_api_poc.Nfqlb.Errors.{
  Errors, invalid_ip, rule_add_failed, route_add_failed, rule_del_failed, route_del_failed,
  neigh_list_failed, neigh_del_failed,
}
use l_3_4_gateway_api_poc.Nfqlb.Platform.{Platform, Family, v4, v6, Rule, Route}

abbrev pub family_of : Ip → Family
family_of ip = if is_v4 ip then v4 else v6

unfoldable pub get_route : ℤ → Ip → Route
get_route table_id ip = record { gw = ip; table = table_id }

unfoldable pub get_rule : ℤ → Ip → Rule
get_rule fwmark ip = record { table = fwmark; mark = fwmark; family = family_of ip }

module _ (p : Platform) where
  open p use {
    World, parse_ip, rule_add, rule_del, route_add, route_del, route_list, neigh_list, neigh_del,
  }

  -- `len(routes) != 1 || !routes[0].Gw.Equal(ip)`
  unfoldable pub is_only_route : Ip → List Route → Bool
  is_only_route ip (route ∷ []) = same_ip route.gw ip
  is_only_route ip _ = false

  unfoldable pub valid_policy_route : ℤ → Ip → World → Bool
  unfolding is_only_route get_route
  valid_policy_route fwmark ip w = elim (route_list (family_of ip) (get_route fwmark ip) w) [
    | none ↦ false
    | some routes ↦ is_only_route ip routes
  ]

  unfoldable pub delete_policy_route : ℤ → Text → World → Errors × World
  unfolding get_rule get_route
  delete_policy_route fwmark ip w = elim (parse_ip ip) [
    | none ↦ (invalid_ip ∷ [], w)
    | some ip_addr ↦
        let (rule_ok, w1) = rule_del (get_rule fwmark ip_addr) w in
        let (route_ok, w2) = route_del (get_route fwmark ip_addr) w1 in
        if rule_ok
        then (if route_ok then ([], w2) else (route_del_failed ∷ [], w2))
        else (rule_del_failed ∷ [], w1)
  ]

  -- The loop of `cleanNeighbor` stops at the first failure.
  unfoldable pub clean_neighbors : Ip → List Ip → World → Errors × World
  clean_neighbors ip [] w = ([], w)
  clean_neighbors ip (neighbor ∷ neighbors) w =
      let (deleted, w1) = neigh_del neighbor w in
      let rest = clean_neighbors ip neighbors w1 in
      let skipped = clean_neighbors ip neighbors w in
      if same_ip neighbor ip
      then (if deleted then rest else (neigh_del_failed ∷ [], w1))
      else skipped

  unfoldable pub clean_neighbor : Ip → World → Errors × World
  unfolding clean_neighbors
  clean_neighbor ip w = elim (neigh_list w) [
    | none ↦ (neigh_list_failed ∷ [], w)
    | some neighbors ↦ clean_neighbors ip neighbors w
  ]

  -- What `createPolicyRoute` does where the route is not there yet.
  unfoldable pub renew_policy_route : ℤ → Text → Ip → World → Errors × World
  unfolding delete_policy_route clean_neighbor
  renew_policy_route fwmark ip ip_addr w =
      let (_, w1) = delete_policy_route fwmark ip w in
      let (_, w2) = clean_neighbor ip_addr w1 in
      let (rule_ok, w3) = rule_add (get_rule fwmark ip_addr) w2 in
      let (route_ok, w4) = route_add (get_route fwmark ip_addr) w3 in
      if rule_ok
      then (if route_ok then ([], w4) else (route_add_failed ∷ [], w4))
      else (rule_add_failed ∷ [], w3)

  unfoldable pub create_policy_route : ℤ → Text → World → Errors × World
  unfolding renew_policy_route valid_policy_route
  create_policy_route fwmark ip w = elim (parse_ip ip) [
    | none ↦ (invalid_ip ∷ [], w)
    | some ip_addr ↦
        if valid_policy_route fwmark ip_addr w
        then ([], w)
        else renew_policy_route fwmark ip ip_addr w
  ]

  -- `for _, ip := range ips`, where the callers log the errors or drop them.
  unfoldable pub create_policy_routes : ℤ → List Text → World → World
  unfolding create_policy_route
  create_policy_routes fwmark [] w = w
  create_policy_routes fwmark (ip ∷ ips) w =
      create_policy_routes fwmark ips (create_policy_route fwmark ip w).1

  unfoldable pub delete_policy_routes : ℤ → List Text → World → World
  unfolding delete_policy_route
  delete_policy_routes fwmark [] w = w
  delete_policy_routes fwmark (ip ∷ ips) w =
      delete_policy_routes fwmark ips (delete_policy_route fwmark ip w).1
