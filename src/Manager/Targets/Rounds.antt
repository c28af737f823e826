-- ===== src/Manager/Targets/Rounds.antt =====
-- What two rounds of `SetEndpoints` over the same endpoints do.
use l_3_4_gateway_api_poc.Base.{
  ◌≡◌, refl, sym, ap, subst, ◌∙◌, true, false, none, some, List, [], ◌∷◌, ◌++◌, append_assoc, Text,
  text_discrete, ℤ, int_discrete, lookup, delete, All, All_middle, insert-All, delete-All, keys,
  keys-insert-Distinct, keys-delete-Distinct, keys_middle-Distinct, lookup-append_middle,
  delete-append_middle, Distinct, arith, if_pos, if◌then◌else◌, Bool-cases, Option-cases, inl, inr,
  ◌⊎◌,
}
use l_3_4_gateway_api_poc.Endpoints.{Endpoint, get_identifier}
use l_3_4_gateway_api_poc.Endpoints.Merge.{by_uid}
use l_3_4_gateway_api_poc.Manager.{LoadBalancerInstance}
use l_3_4_gateway_api_poc.Manager.Slices.Counts.{same_string_slice_all}
use l_3_4_gateway_api_poc.Manager.Targets.{is_ready, is_unchanged, remove_endpoints, add_endpoints}

-- An endpoint that does not become a target.
abbrev IsIdle : Text × Endpoint → Type 0
IsIdle e = (get_identifier e.1 ≡ none) ⊎ (is_ready e.1 ≡ false)

abbrev IsByUid : Text × Endpoint → Type 0
IsByUid e = e.0 ≡ e.1.uid

-- A map of endpoints by their UIDs.
abbrev pub AreByUid : List (Text × Endpoint) → Type 0
AreByUid m = All IsByUid m × Distinct (keys m)

pub by_uid-AreByUid :
    (es : List Endpoint) (m : List (Text × Endpoint)) → AreByUid m → AreByUid (by_uid es m)
unfolding by_uid
by_uid-AreByUid [] m h = h
by_uid-AreByUid (e ∷ es) m (n, d) = by_uid-AreByUid es _ (
  insert-All text_discrete IsByUid e.uid e m refl n,
  keys-insert-Distinct text_discrete e.uid e m d,
)

is_unchanged_self :
    (e : Endpoint) (i : ℤ)
    → get_identifier e ≡ some i
    → is_ready e ≡ true
    → is_unchanged e i e ≡ true
unfolding is_unchanged
is_unchanged_self e i h r =
    let same = same_string_slice_all e.addresses e.addresses (λ x. refl) in
    let id = if_pos (int_discrete i i) refl true false in
    rw (h, is_unchanged) (ground (arith, same, id, r))

module _ (lb : LoadBalancerInstance) (service : lb.ServiceInstance) where
  open lb use {World}

  -- The endpoint is in the map, and has not changed.
  abbrev Stays : Endpoint → List (Text × Endpoint) → Type 0
  Stays e m =
      (id : ℤ) × (new : Endpoint) × (get_identifier e ≡ some id)
      × (lookup text_discrete e.uid m ≡ some new)
      × (is_unchanged e id new ≡ true)

  -- Or it is passed over, and the others are treated as without it.
  abbrev IsPassed : Endpoint → List Endpoint → List (Text × Endpoint) → World → Type 0
  IsPassed e es m w =
      (w1 : World) × ((remove_endpoints lb service (e ∷ es) m w).0
        ≡ (remove_endpoints lb service es m w1).0)
      × ((remove_endpoints lb service (e ∷ es) m w).1 ≡ (remove_endpoints lb service es m w1).1)

  remove_endpoints_cases :
      (e : Endpoint) (es : List Endpoint) (m : List (Text × Endpoint)) (w : World)
      → Stays e m ⊎ IsPassed e es m w
  unfolding remove_endpoints
  remove_endpoints_cases e es m w = elim (Option-cases (get_identifier e)) [
    | inl g ↦ inr (w, rw (g, remove_endpoints) refl, rw (g, remove_endpoints) refl)
    | inr (id, g) ↦
        let w1 = (lb.delete_target service e.addresses id w).1 in
        elim (Option-cases (lookup text_discrete e.uid m)) [
          | inl l ↦ inr (
            w1,
            rw (g, remove_endpoints) (rw (l, remove_endpoints) refl),
            rw (g, remove_endpoints) (rw (l, remove_endpoints) refl),
          )
          | inr (new, l) ↦ elim (Bool-cases (is_unchanged e id new)) [
            | inl u ↦ inl (id, new, g, l, u)
            | inr c ↦ inr (
              w1,
              rw (g, remove_endpoints) (rw (l, remove_endpoints) (rw (c, remove_endpoints) refl)),
              rw (g, remove_endpoints) (rw (l, remove_endpoints) (rw (c, remove_endpoints) refl)),
            )
          ]
        ]
  ]

  remove_endpoints-Stays :
      (e : Endpoint) (es : List Endpoint) (m : List (Text × Endpoint)) (w : World)
      → Stays e m
      → let rest = remove_endpoints lb service es (delete text_discrete e.uid m) w in
        remove_endpoints lb service (e ∷ es) m w ≡ (e ∷ rest.0, rest.1, rest.2, rest.3)
  unfolding remove_endpoints
  remove_endpoints-Stays e es m w (id, new, g, l, u) =
      rw (g, remove_endpoints) (rw (l, remove_endpoints) (rw (u, remove_endpoints) refl))

  -- What stays in one round stays in the next, in front of whatever follows.
  remove_endpoints-kept :
      (es tail : List Endpoint) (m : List (Text × Endpoint)) (w w2 : World)
      → let first = remove_endpoints lb service es m w in
        let after = remove_endpoints lb service tail first.1 w2 in
        remove_endpoints lb service (first.0 ++ tail) m w2
        ≡ (first.0 ++ after.0, after.1, after.2, after.3)
  unfolding remove_endpoints
  remove_endpoints-kept [] tail m w w2 = refl
  remove_endpoints-kept (e ∷ es) tail m w w2 = elim (remove_endpoints_cases e es m w) [
    | inl stays ↦
        let here = remove_endpoints-Stays e es m w stays in
        let less = delete text_discrete e.uid m in
        let kept = (remove_endpoints lb service es less w).0 in
        rw here (
          remove_endpoints-Stays e (kept ++ tail) m w2 stays
          ∙ ap (λ r. (e ∷ r.0, r.1, r.2, r.3)) (remove_endpoints-kept es tail less w w2))
    | inr (w1, p, q) ↦ rw p (rw q (remove_endpoints-kept es tail m w1 w2))
  ]

  remove_endpoints-AreByUid :
      (es : List Endpoint) (m : List (Text × Endpoint)) (w : World)
      → AreByUid m
      → AreByUid (remove_endpoints lb service es m w).1
  unfolding remove_endpoints
  remove_endpoints-AreByUid [] m w h = h
  remove_endpoints-AreByUid (e ∷ es) m w h = elim (remove_endpoints_cases e es m w) [
    | inl stays ↦ rw (remove_endpoints-Stays e es m w stays) (
        remove_endpoints-AreByUid es (delete text_discrete e.uid m) w (
          delete-All text_discrete IsByUid e.uid m h.0,
          keys-delete-Distinct text_discrete e.uid m h.1,
        ))
    | inr (w1, p, q) ↦ rw q (remove_endpoints-AreByUid es m w1 h)
  ]

  -- The entries that do not become targets.
  abbrev pub idle : List (Text × Endpoint) → List (Text × Endpoint)
  idle [] = []
  idle (e ∷ m) = elim (get_identifier e.1) [
    | none ↦ e ∷ idle m
    | some id ↦ if is_ready e.1 then idle m else e ∷ idle m
  ]

  pub add_endpoints-idle :
      (m : List (Text × Endpoint)) (w : World) → add_endpoints lb service (idle m) w ≡ ([], [], w)
  unfolding add_endpoints
  add_endpoints-idle [] w = refl
  add_endpoints-idle ((k, e) ∷ m) w = elim (Option-cases (get_identifier e)) [
    | inl g ↦ rw (g, idle) (rw (g, add_endpoints) (add_endpoints-idle m w))
    | inr (id, g) ↦ elim (Bool-cases (is_ready e)) [
      | inl r ↦ rw (g, idle) (rw (r, idle) (add_endpoints-idle m w))
      | inr r ↦
          rw (g, idle)
            (rw (r, idle) (rw (g, add_endpoints) (rw (r, add_endpoints) (add_endpoints-idle m w))))
    ]
  ]

  -- The endpoints that became targets stay in the next round, and only idle entries are left.
  remove_endpoints-added :
      (p m : List (Text × Endpoint)) (w w2 : World)
      → AreByUid (p ++ m)
      → let added = (add_endpoints lb service m w).0 in
        remove_endpoints lb service added (p ++ m) w2 ≡ (added, p ++ idle m, [], w2)
  unfolding add_endpoints remove_endpoints
  remove_endpoints-added p [] w w2 h = refl
  remove_endpoints-added p ((k, e) ∷ m) w w2 h =
      let moved : p ++ ((k, e) ∷ m) ≡ (p ++ ((k, e) ∷ [])) ++ m =
        sym (append_assoc p ((k, e) ∷ []) m) in
      let back : (p ++ ((k, e) ∷ [])) ++ idle m ≡ p ++ ((k, e) ∷ idle m) =
        append_assoc p ((k, e) ∷ []) (idle m) in
      let h1 : AreByUid ((p ++ ((k, e) ∷ [])) ++ m) = subst AreByUid moved h in
      elim (Option-cases (get_identifier e)) [
        | inl g ↦
            let ih = remove_endpoints-added (p ++ ((k, e) ∷ [])) m w w2 h1 in
            rw (g, idle)
              (rw (g, add_endpoints)
                (rw moved (ih ∙ ap (λ r. ((add_endpoints lb service m w).0, r, [], w2)) back)))
        | inr (id, g) ↦ elim (Bool-cases (is_ready e)) [
          | inl r ↦
              let w1 = (lb.add_target service e.addresses id w).1 in
              let added = (add_endpoints lb service m w1).0 in
              let own : e.uid ≡ k = sym (All_middle IsByUid (k, e) p m h.0) in
              let (before, behind) = keys_middle-Distinct text_discrete k e p m h.1 in
              let cut : delete text_discrete e.uid (p ++ (k, e) ∷ m) ≡ p ++ m =
                ap (λ u. delete text_discrete u (p ++ (k, e) ∷ m)) own
                ∙ (delete-append_middle text_discrete k e p m before behind) in
              let there : lookup text_discrete e.uid (p ++ (k, e) ∷ m) ≡ some e =
                ap (λ u. lookup text_discrete u (p ++ (k, e) ∷ m)) own
                ∙ (lookup-append_middle text_discrete k e p m before) in
              let less : AreByUid (p ++ m) = subst AreByUid cut (
                delete-All text_discrete IsByUid e.uid (p ++ (k, e) ∷ m) h.0,
                keys-delete-Distinct text_discrete e.uid (p ++ (k, e) ∷ m) h.1,
              ) in
              let stays : Stays e (p ++ (k, e) ∷ m) =
                (id, e, g, there, is_unchanged_self e id g r) in
              let here = remove_endpoints-Stays e added (p ++ (k, e) ∷ m) w2 stays in
              let ih = rw (← cut) at (remove_endpoints-added p m w1 w2 less) in
              rw (g, idle)
                (rw (r, idle)
                  (rw (g, add_endpoints)
                    (rw (r, add_endpoints) (here ∙ ap (λ t. (e ∷ t.0, t.1, t.2, t.3)) ih))))
          | inr r ↦
              let ih = remove_endpoints-added (p ++ ((k, e) ∷ [])) m w w2 h1 in
              rw (g, idle)
                (rw (r, idle)
                  (rw (g, add_endpoints)
                    (rw (r, add_endpoints)
                      (rw moved
                        (ih ∙ ap (λ t. ((add_endpoints lb service m w).0, t, [], w2)) back)))))
        ]
      ]

  -- A round over what a round has left changes nothing and calls nothing.
  pub remove_endpoints_again :
      (es : List Endpoint) (m : List (Text × Endpoint)) (w w2 : World)
      → AreByUid m
      → let first = remove_endpoints lb service es m w in
        let stored = first.0 ++ (add_endpoints lb service first.1 first.3).0 in
        remove_endpoints lb service stored m w2 ≡ (stored, idle first.1, [], w2)
  remove_endpoints_again es m w w2 h =
      let first = remove_endpoints lb service es m w in
      let added = (add_endpoints lb service first.1 first.3).0 in
      remove_endpoints-kept es added m w w2
      ∙ ap (λ r. (first.0 ++ r.0, r.1, r.2, r.3))
          (remove_endpoints-added [] first.1 first.3 w2 (remove_endpoints-AreByUid es m w h))
