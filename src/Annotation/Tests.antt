-- ===== src/Annotation/Tests.antt =====
-- Runs of the annotation code on small inputs.
use l_3_4_gateway_api_poc.Base.{
  int_discrete, has, lookup, text_discrete, ℕ, ◌≤◌, ◌<◌, ◌≡◌, refl, true, some, List, [], ◌∷◌,
  codes, pos,
}
use l_3_4_gateway_api_poc.Annotation.{
  NetworkSelectionElement, float, policy_route_nad_name, get_free_table_id, equal_map_slice,
  get_network_attachment_annotation,
}
use l_3_4_gateway_api_poc.Annotation.Tables.{InUse, get_free_table_id-free}
use l_3_4_gateway_api_poc.Annotation.Unmanaged.{AreOthers, annotation-AreOthers}

abbrev table_route : ℕ → NetworkSelectionElement
table_route n = record {
  name = policy_route_nad_name;
  interface_request = [];
  cni_args = some ((codes "tableId", float (pos n)) ∷ []);
}

abbrev two_routes : List NetworkSelectionElement
two_routes = table_route 5001 ∷ table_route 5000 ∷ []

next_table : get_free_table_id two_routes ≡ 5002
unfolding get_free_table_id text_discrete lookup has int_discrete
next_table = refl

same_keys : equal_map_slice (codes "a" ∷ codes "b" ∷ []) (codes "b" ∷ codes "a" ∷ []) ≡ true
unfolding equal_map_slice has text_discrete
same_keys = refl

get_free_table_id-free_example :
    (¬ InUse (pos (get_free_table_id two_routes)) two_routes)
    × (5000 ≤ get_free_table_id two_routes)
    × ((j : ℕ) → 5000 ≤ j → j < get_free_table_id two_routes → InUse (pos j) two_routes)
get_free_table_id-free_example = get_free_table_id-free two_routes

annotation-AreOthers_example :
    (others : List NetworkSelectionElement) × AreOthers
      (codes "proxy")
      (codes "lb")
      two_routes
      others
    × AreOthers
        (codes "proxy")
        (codes "lb")
        (get_network_attachment_annotation
          (λ args. codes "if")
          (codes "proxy")
          (codes "lb")
          two_routes
          (codes "20.0.0.1/32" ∷ [])
          []
          (codes "10.0.0.1" ∷ [])
          [])
        others
annotation-AreOthers_example =
    annotation-AreOthers (λ args. codes "if") (codes "proxy") (codes "lb") two_routes
      (codes "20.0.0.1/32" ∷ []) [] (codes "10.0.0.1" ∷ []) []
