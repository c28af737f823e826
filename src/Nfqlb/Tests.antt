-- ===== src/Nfqlb/Tests.antt =====
-- Runs of pkg/nfqlb on small inputs.
use l_3_4_gateway_api_poc.Nfqlb.Flows.{flow_list}
use l_3_4_gateway_api_poc.Base.{
  false, has, In, inl, inr, suc, delete, insert, ◌≡◌, ◌≢◌, refl, ap, Text, ℕ, true, some, none, [],
  ◌∷◌, ◌≤◌, ◌<◌, ◌+◌, ◌-◌, codes, pos, max_int, arith, All, lookup, text_discrete, int_discrete,
  ite,
}
use l_3_4_gateway_api_poc.Nfqlb.Config.{new_nfqlb_config, new_nfqlb_service_config, apply_options}
use l_3_4_gateway_api_poc.Nfqlb.LoadBalancer.{
  LoadBalancer, returned, blocked, fresh, adds, deletes, heals, perform, run, added, add_service,
  delete_service,
}
use l_3_4_gateway_api_poc.Nfqlb.LoadBalancer.Allocation.{run-fwmark_of}
use l_3_4_gateway_api_poc.Nfqlb.LoadBalancer.Deletion.{add_service_twice, delete_service-lookup}
use l_3_4_gateway_api_poc.Nfqlb.LoadBalancer.Locking.{perform-Unlocks, run-deletes_missing, Unlocks}
use l_3_4_gateway_api_poc.Nfqlb.Offset.{get_offset, found, exhausted, unfinished}
use l_3_4_gateway_api_poc.Nfqlb.Offset.Minimal.{
  get_offset-total, get_offset-minimal, get_offset-exhausted, Apart, Clash,
}
use l_3_4_gateway_api_poc.Nfqlb.Sample.{
  no_addresses, quiet_host, broken_host, service_a, service_b, one_service,
}
use l_3_4_gateway_api_poc.Nfqlb.Platform.{Platform, v4}
use l_3_4_gateway_api_poc.Nfqlb.Sets.{Range, plan_update}
use l_3_4_gateway_api_poc.Nfqlb.Sets.Bytes.{range_discrete, IsRange, Printing}
use l_3_4_gateway_api_poc.Nfqlb.Sets.Ranges.{in_set_after, plan_update-ranges}
use l_3_4_gateway_api_poc.Nfqlb.Service.{fwmark_of}
use l_3_4_gateway_api_poc.Nfqlb.Targets.{add_target, delete_target}
use l_3_4_gateway_api_poc.Nfqlb.Targets.Laws.{
  add_target-lookup, add_target_failed, delete_target-lookup,
}

offset_after_two : get_offset 5000 (service_b ∷ service_a ∷ []) 100 ≡ found 5200
unfolding get_offset new_nfqlb_service_config
offset_after_two = refl

no_room : get_offset (max_int - 5) [] 10 ≡ exhausted
unfolding get_offset
no_room = refl

get_offset-total_example : get_offset 5000 (service_b ∷ service_a ∷ []) 100 ≢ unfinished
get_offset-total_example = get_offset-total 5000 (service_b ∷ service_a ∷ []) 100

get_offset-minimal_example :
    (5000 ≤ 5200)
    × (5200 + 100 ≤ max_int)
    × All (Apart 5200 100) (service_b ∷ service_a ∷ [])
    × ((p : _) → 5000 ≤ p → p < 5200 → Clash p 100 (service_b ∷ service_a ∷ []))
get_offset-minimal_example =
    get_offset-minimal 5000 (service_b ∷ service_a ∷ []) 100 5200 (omega arith) offset_after_two

last_service :
    get_offset (max_int - 105) (record service_a { offset = max_int - 105 } ∷ []) 10 ≡ exhausted
unfolding get_offset new_nfqlb_service_config
last_service = refl

get_offset-exhausted_example :
    Clash (max_int - 50) 10 (record service_a { offset = max_int - 105 } ∷ [])
get_offset-exhausted_example =
    get_offset-exhausted (max_int - 105) (record service_a { offset = max_int - 105 } ∷ []) 10
      (max_int - 50) (omega arith) last_service (omega arith) (omega arith)

abbrev first_byte : Text → ℕ
first_byte [] = 0
first_byte (b ∷ bs) = b

apart_names : codes "a" ≢ codes "b"
apart_names e = let same : first_byte (codes "a") ≡ 98 = ap first_byte e in absurd (omega arith)

abbrev two_services : LoadBalancer
two_services = record one_service {
  services = (codes "a", service_a) ∷ (codes "b", record service_b { targets = [] }) ∷ [];
}

run_two :
    run quiet_host (adds (codes "a") [] ∷ adds (codes "b") [] ∷ []) (fresh new_nfqlb_config) tt
    ≡ returned (two_services, tt)
unfolding run fresh new_nfqlb_config new_nfqlb_service_config lookup get_offset apply_options insert
    text_discrete
run_two = refl

small_options : (apply_options [] new_nfqlb_service_config).max_targets ≤ max_int
unfolding new_nfqlb_service_config apply_options
small_options = omega arith

run-fwmark_of_example :
    fwmark_of service_a (pos 99) ≢ fwmark_of (record service_b { targets = [] }) (pos 0)
unfolding new_nfqlb_service_config lookup text_discrete
run-fwmark_of_example =
    run-fwmark_of quiet_host new_nfqlb_config (adds (codes "a") [] ∷ adds (codes "b") [] ∷ []) tt tt
      two_services (codes "a") (codes "b") service_a (record service_b { targets = [] }) 99 0
      (small_options, (small_options, tt)) run_two refl refl apart_names (omega arith) (omega arith)

perform-Unlocks_example :
    Unlocks quiet_host true (perform quiet_host (deletes (codes "b")) one_service tt)
unfolding lookup text_discrete
perform-Unlocks_example = perform-Unlocks quiet_host (deletes (codes "b")) one_service tt refl

run-deletes_missing_example :
    run quiet_host (deletes (codes "b") ∷ heals ∷ []) one_service tt ≡ blocked
unfolding lookup text_discrete
run-deletes_missing_example =
    run-deletes_missing quiet_host (codes "b") heals [] one_service tt refl refl

added_a :
    add_service quiet_host one_service (codes "a") [] tt
    ≡ returned (one_service, added service_a, tt)
unfolding add_service lookup text_discrete
added_a = refl

add_service_twice_example :
    add_service quiet_host one_service (codes "a") [] tt
    ≡ returned (one_service, added service_a, tt)
add_service_twice_example =
    add_service_twice quiet_host one_service one_service (codes "a") [] [] tt tt tt service_a refl
      added_a

deleted_a :
    delete_service quiet_host one_service (codes "a") tt
    ≡ returned (record one_service { services = [] }, [], tt)
unfolding delete_service lookup text_discrete flow_list delete
deleted_a = refl

delete_service-lookup_example :
    lookup text_discrete (codes "a") (record one_service { services = [] }).services
    ≡ ite
        (text_discrete (codes "a") (codes "a"))
        none
        (lookup text_discrete (codes "a") one_service.services)
delete_service-lookup_example =
    delete_service-lookup quiet_host one_service (record one_service { services = [] }) (codes "a")
      (codes "a") [] tt tt deleted_a

add_target-lookup_example :
    lookup int_discrete
      (pos 7)
      (add_target quiet_host (codes "nfqlb") service_b [] (pos 7) tt).0.targets
    ≡ some []
unfolding add_target lookup int_discrete
add_target-lookup_example =
    add_target-lookup quiet_host (codes "nfqlb") service_b [] (pos 7) tt (pos 7) refl

one_error : (add_target broken_host (codes "nfqlb") service_b [] (pos 7) tt).1 ≢ []
unfolding add_target lookup int_discrete
one_error e = absurd (ground arith)

add_target_failed_example :
    (add_target broken_host (codes "nfqlb") service_b [] (pos 7) tt).0 ≡ service_b
unfolding add_target
add_target_failed_example =
    add_target_failed broken_host (codes "nfqlb") service_b [] (pos 7) tt one_error

delete_target-lookup_example :
    lookup int_discrete
      (pos 3)
      (delete_target broken_host (codes "nfqlb") service_b [] (pos 3) tt).0.targets
    ≡ none
unfolding int_discrete
delete_target-lookup_example =
    delete_target-lookup broken_host (codes "nfqlb") service_b [] (pos 3) tt (pos 3)

-- Addresses as texts without a dash
abbrev shifted : Text → Text
shifted [] = []
shifted (b ∷ bs) = (b + 256) ∷ shifted bs

not_In-shifted : (ip : Text) → ¬ In 45 (shifted ip)
not_In-shifted [] m = m
not_In-shifted (b ∷ bs) (inl e) = absurd (omega arith)
not_In-shifted (b ∷ bs) (inr m) = not_In-shifted bs m

shifted-injective : (a b : Text) → shifted a ≡ shifted b → a ≡ b
shifted-injective [] [] e = refl
shifted-injective [] (y ∷ b) e = absurd (cc)
shifted-injective (x ∷ a) [] e = absurd (cc)
shifted-injective (x ∷ a) (y ∷ b) e =
    let heads : x + 256 ≡ y + 256 = cc in
    let same : x ≡ y = omega arith in let rest = shifted-injective a b (cc) in cc

abbrev plain_host : Platform
plain_host = record quiet_host { addresses = record no_addresses { ip_string = shifted } }

printing : Printing plain_host
printing = record {
  no_dash = λ ip h. not_In-shifted ip;
  injective = λ len a b ha hb. shifted-injective a b;
}

abbrev range_from : ℕ → Range
range_from n =
    record { key = n ∷ []; interval_end = false }
    ∷ record { key = suc n ∷ []; interval_end = true }
    ∷ []

range_from-IsRange : (n : ℕ) → suc n < 256 → IsRange 1 (range_from n)
range_from-IsRange n h = (n ∷ [], suc n ∷ [], refl, (refl, (omega arith, tt)), (refl, (h, tt)))

plan_update-ranges_example :
    in_set_after v4
      (range_from 7)
      (plan_update plain_host v4 (range_from 7 ∷ []) (range_from 9 ∷ [])).messages
      (has range_discrete (range_from 7) (range_from 7 ∷ []))
    ≡ has range_discrete (range_from 7) (range_from 9 ∷ [])
plan_update-ranges_example =
    plan_update-ranges plain_host printing 1 v4 (range_from 7 ∷ []) (range_from 9 ∷ [])
      (range_from 7) (λ m. refl) (range_from-IsRange 7 (omega arith), tt)
      (range_from-IsRange 9 (omega arith), tt) ((λ m. m), tt) (range_from-IsRange 7 (omega arith))
