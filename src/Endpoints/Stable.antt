-- ===== src/Endpoints/Stable.antt =====
-- An endpoint keeps the identifier that it has, and none is left without one while there is room.
use l_3_4_gateway_api_poc.Base.{
  ℕ, ◌≡◌, refl, ◌∙◌, true, some, List, [], ◌∷◌, Text, text_discrete, ℤ, pos, In, Distinct, has,
  In-has, Bool-cases, Option-cases, inl, inr, lookup, lookup-insert, if_pos, if_neg,
}
use l_3_4_gateway_api_poc.Endpoints.{Endpoint, get_identifier, set_identifier}
use l_3_4_gateway_api_poc.Endpoints.Free.{Int-cases}
use l_3_4_gateway_api_poc.Endpoints.Identifiers.{
  free_identifier, keep_identifiers, give_identifiers, assign_identifiers, uids,
}

pub In-uids : (o : Endpoint) (es : List Endpoint) → In o es → In o.uid (uids es)
In-uids o [] m = absurd m
In-uids o (e ∷ es) (inl p) = inl (cc)
In-uids o (e ∷ es) (inr m) = inr (In-uids o es m)

-- The loop over the old endpoints changes only what their own UIDs have.
keep_identifiers_other :
    (new : List Text) (old : List Endpoint) (by_uid : List (Text × ℤ)) (used : List ℤ) (u : Text)
    → ¬ In u (uids old)
    → lookup text_discrete u (keep_identifiers new old (by_uid, used)).0
      ≡ lookup text_discrete u by_uid
unfolding keep_identifiers
keep_identifiers_other new [] by_uid used u h = refl
keep_identifiers_other new (e ∷ es) by_uid used u h =
    let ne : ¬ (u ≡ e.uid) = λ p. h (inl p) in
    let later : ¬ In u (uids es) = λ m. h (inr m) in
    elim (Option-cases (get_identifier e)) [
      | inl n ↦ rw (n, keep_identifiers) (keep_identifiers_other new es by_uid used u later)
      | inr (id, s) ↦ elim (Bool-cases (has text_discrete e.uid new)) [
        | inl there ↦
            rw (s, keep_identifiers)
              (rw (there, keep_identifiers)
                (keep_identifiers_other new es _ (id ∷ used) u later
                  ∙ lookup-insert text_discrete e.uid u id by_uid
                  ∙ if_neg (text_discrete u e.uid) ne _ _))
        | inr gone ↦
            rw (s, keep_identifiers)
              (rw (gone, keep_identifiers) (keep_identifiers_other new es by_uid used u later))
      ]
    ]

pub keep_identifiers_kept :
    (new : List Text) (old : List Endpoint) (by_uid : List (Text × ℤ)) (used : List ℤ)
    (o : Endpoint) (i : ℤ)
    → Distinct (uids old)
    → In o old
    → In o.uid new
    → get_identifier o ≡ some i
    → lookup text_discrete o.uid (keep_identifiers new old (by_uid, used)).0 ≡ some i
unfolding keep_identifiers
keep_identifiers_kept new [] by_uid used o i d m there g = absurd m
keep_identifiers_kept new (e ∷ es) by_uid used o i (alone, d) (inl p) there g =
    let at_head : get_identifier e ≡ some i = rw p at g in
    let in_new : has text_discrete e.uid new ≡ true =
      In-has text_discrete e.uid new (rw p at there) in
    rw (p, keep_identifiers)
      (rw (at_head, keep_identifiers)
        (rw (in_new, keep_identifiers)
          (keep_identifiers_other new es _ (i ∷ used) e.uid alone
            ∙ lookup-insert text_discrete e.uid e.uid i by_uid
            ∙ if_pos (text_discrete e.uid e.uid) refl _ _)))
keep_identifiers_kept new (e ∷ es) by_uid used o i (alone, d) (inr m) there g =
    elim (Option-cases (get_identifier e)) [
      | inl n ↦ rw (n, keep_identifiers) (keep_identifiers_kept new es by_uid used o i d m there g)
      | inr (id, s) ↦ elim (Bool-cases (has text_discrete e.uid new)) [
        | inl p ↦
            rw (s, keep_identifiers)
              (rw (p, keep_identifiers)
                (keep_identifiers_kept new es _ (id ∷ used) o i d m there g))
        | inr p ↦
            rw (s, keep_identifiers)
              (rw (p, keep_identifiers) (keep_identifiers_kept new es by_uid used o i d m there g))
      ]
    ]

give_identifiers_kept :
    (by_uid : List (Text × ℤ)) (n : ℕ) (es : List Endpoint) (used : List ℤ) (e : Endpoint) (i : ℤ)
    → In e es
    → lookup text_discrete e.uid by_uid ≡ some i
    → In (set_identifier e i) (give_identifiers by_uid n es used)
unfolding give_identifiers
give_identifiers_kept by_uid n [] used e i m h = absurd m
give_identifiers_kept by_uid n (x ∷ es) used e i (inl p) h =
    rw (p, give_identifiers) (rw (rw p at h, give_identifiers) (inl refl))
give_identifiers_kept by_uid n (x ∷ es) used e i (inr m) h =
    elim (Option-cases (lookup text_discrete x.uid by_uid)) [
      | inr (id, s) ↦
          rw (s, give_identifiers) (inr (give_identifiers_kept by_uid n es used e i m h))
      | inl s ↦ elim (Int-cases (free_identifier used n)) [
        | inl (r, found) ↦
            rw (s, give_identifiers)
              (rw (found, give_identifiers)
                (inr (give_identifiers_kept by_uid n es (pos r ∷ used) e i m h)))
        | inr (k, full) ↦
            rw (s, give_identifiers)
              (rw (full, give_identifiers) (give_identifiers_kept by_uid n es used e i m h))
      ]
    ]

-- An endpoint whose UID has an identifier among the old endpoints, which have different UIDs, is in
-- the result with that identifier.
pub assign_identifiers_kept :
    (old new : List Endpoint) (max_endpoints : ℕ) (o e : Endpoint) (i : ℤ)
    → Distinct (uids old)
    → In o old
    → In e new
    → o.uid ≡ e.uid
    → get_identifier o ≡ some i
    → In (set_identifier e i) (assign_identifiers old new max_endpoints)
unfolding assign_identifiers
assign_identifiers_kept old new n o e i d mo me same g =
    let there : In o.uid (uids new) = rw same (In-uids e new me) in
    give_identifiers_kept _ n new _ e i me
      (rw (← same) (keep_identifiers_kept (uids new) old [] [] o i d mo there g))
