-- ===== src/Endpoints/Tests.antt =====
-- Runs of the endpoint code on small inputs.
use l_3_4_gateway_api_poc.Base.{
  int_discrete, insert, has, ℕ, ◌<◌, ◌≡◌, ◌≢◌, refl, ap, true, none, some, List, [], ◌∷◌, Text,
  codes, pos, negsuc, arith, length, In, Distinct, lookup, text_discrete, inl, inr, atoi, itoa,
}
use l_3_4_gateway_api_poc.Endpoints.{Endpoint, TargetRef, get_identifier, set_identifier}
use l_3_4_gateway_api_poc.Endpoints.Complete.{assign_identifiers_enough}
use l_3_4_gateway_api_poc.Endpoints.Distinct.{
  identifiers, get_identifier-set_identifier, assign_identifiers-Distinct,
}
use l_3_4_gateway_api_poc.Endpoints.Free.{free_identifier-pos, free_identifier_enough}
use l_3_4_gateway_api_poc.Endpoints.Identifiers.{free_identifier, assign_identifiers, uids}
use l_3_4_gateway_api_poc.Endpoints.Merge.{by_uid, merge_into}
use l_3_4_gateway_api_poc.Endpoints.Merged.{find, merged, merge_into-by_uid}
use l_3_4_gateway_api_poc.Endpoints.Stable.{assign_identifiers_kept}

abbrev ref_of : Text → TargetRef
ref_of uid = record { kind = codes "Pod"; name = uid; namespace = codes "default"; uid = uid }

abbrev endpoint_a : Endpoint
endpoint_a = record {
  target_ref = ref_of (codes "a");
  ready = some true;
  addresses = codes "10.0.0.1" ∷ [];
  zone = some (codes "0");
}

abbrev endpoint_b : Endpoint
endpoint_b = record {
  target_ref = ref_of (codes "b");
  ready = some true;
  addresses = codes "10.0.0.2" ∷ [];
  zone = none;
}

abbrev old_a : List Endpoint
old_a = endpoint_a ∷ []

abbrev new_ab : List Endpoint
new_ab = endpoint_b ∷ record endpoint_a { zone = none } ∷ []

assigned :
    assign_identifiers old_a new_ab 100
    ≡ record endpoint_b { zone = some (codes "1") } ∷ endpoint_a ∷ []
unfolding assign_identifiers lookup atoi has text_discrete insert int_discrete itoa
assigned = refl

abbrev first_byte : Text → ℕ
first_byte [] = 0
first_byte (b ∷ bs) = b

uids_differ : codes "b" ≢ codes "a"
uids_differ e = let same : first_byte (codes "b") ≡ 97 = ap first_byte e in absurd (omega arith)

uids-Distinct : Distinct (uids new_ab)
uids-Distinct = ((elim [ inl e ↦ uids_differ e | inr m ↦ m ]), ((λ m. m), tt))

identifiers-Distinct : Distinct (identifiers old_a)
unfolding get_identifier atoi
identifiers-Distinct = ((λ m. m), tt)

has_identifier : get_identifier endpoint_a ≡ some (pos 0)
unfolding get_identifier atoi
has_identifier = refl

free_two : free_identifier (pos 0 ∷ pos 1 ∷ pos 3 ∷ []) 100 ≡ pos 2
unfolding free_identifier has int_discrete
free_two = refl

free_none : free_identifier (pos 1 ∷ pos 0 ∷ []) 2 ≡ negsuc 0
unfolding free_identifier has int_discrete
free_none = refl

free_identifier-pos_example :
    (2 < 100)
    × (¬ In (pos 2) (pos 0 ∷ pos 1 ∷ pos 3 ∷ []))
    × ((j : ℕ) → j < 2 → In (pos j) (pos 0 ∷ pos 1 ∷ pos 3 ∷ []))
free_identifier-pos_example = free_identifier-pos (pos 0 ∷ pos 1 ∷ pos 3 ∷ []) 100 2 free_two

free_identifier_enough_example : (r : ℕ) × (free_identifier (pos 0 ∷ pos 1 ∷ pos 3 ∷ []) 4 ≡ pos r)
free_identifier_enough_example = free_identifier_enough (pos 0 ∷ pos 1 ∷ pos 3 ∷ []) 4 (omega arith)

assign_identifiers-Distinct_example :
    Distinct (identifiers (assign_identifiers old_a new_ab 100))
    × (length (identifiers (assign_identifiers old_a new_ab 100))
        ≡ length (assign_identifiers old_a new_ab 100))
assign_identifiers-Distinct_example =
    assign_identifiers-Distinct old_a new_ab 100 (omega arith) identifiers-Distinct uids-Distinct

assign_identifiers_kept_example :
    In
      (set_identifier (record endpoint_a { zone = none }) (pos 0))
      (assign_identifiers old_a new_ab 100)
assign_identifiers_kept_example =
    assign_identifiers_kept old_a new_ab 100 endpoint_a (record endpoint_a { zone = none }) (pos 0)
      ((λ m. m), tt) (inl refl) (inr (inl refl)) refl has_identifier

assign_identifiers_enough_example : uids (assign_identifiers old_a new_ab 2) ≡ uids new_ab
assign_identifiers_enough_example =
    assign_identifiers_enough old_a new_ab 2 ((λ m. m), tt) (omega arith)

merge_into-by_uid_example :
    lookup text_discrete (codes "a") (merge_into new_ab (by_uid old_a []))
    ≡ merged (find (codes "a") old_a) (find (codes "a") new_ab)
merge_into-by_uid_example = merge_into-by_uid (codes "a") old_a new_ab ((λ m. m), tt) uids-Distinct

get_identifier-set_identifier_example :
    get_identifier (set_identifier endpoint_b (negsuc 41)) ≡ some (negsuc 41)
get_identifier-set_identifier_example =
    get_identifier-set_identifier endpoint_b (negsuc 41) (omega arith)
