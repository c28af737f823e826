-- ===== src/Cni/Table.antt =====
-- The rules and the routes of one table, on a kernel that does what it documents, and what a flush
-- leaves of them.
use l_3_4_gateway_api_poc.Base.{
  ◌≡◌, refl, ◌∙◌, subst, ◌↔◌, ◌⊎◌, inl, inr, Bool, true, none, some, List, [], ◌∷◌, ℤ, In, Distinct,
}
use l_3_4_gateway_api_poc.Netlink.{Netlink, Kernel, RouteFields}
use l_3_4_gateway_api_poc.Net.{Addresses}
use l_3_4_gateway_api_poc.Cni.PolicyRoute.{
  PolicyError, rule_not_deleted, route_not_deleted, delete_each, flush_routing_policies,
  flush_routing_tables,
}

-- Routes as `Kernel` has the rules, where the kernel accepts those that satisfy `Accepted`; rules
-- and routes are independent.
pub record Table (n : Netlink) (table : ℤ) : Type 1 where
  pub kernel : Kernel n table
  pub routes : n.World → List n.Route
  pub Accepted : RouteFields → Type 0
  pub routes_listed : (w : n.World) → n.route_list table w ≡ some (routes w)
  pub routes-Distinct : (w : n.World) → Distinct (routes w)
  pub route_deleted :
      (r : n.Route) (w : n.World)
      → In r (routes w)
      → ((n.route_del r w).0 ≡ true)
        × ((x : n.Route) → In x (routes (n.route_del r w).1) ↔ (In x (routes w) × (¬ (x ≡ r))))
  pub route_added :
      (f : RouteFields) (w : n.World)
      → f.table ≡ table
      → Accepted f
      → ¬ In (n.new_route f) (routes w)
      → ((n.route_add (n.new_route f) w).0 ≡ true)
        × ((x : n.Route)
            → In x (routes (n.route_add (n.new_route f) w).1)
              ↔ ((x ≡ n.new_route f) ⊎ In x (routes w)))
  pub rule_del-routes : (r : n.Rule) (w : n.World) → routes (n.rule_del r w).1 ≡ routes w
  pub rule_add-routes : (r : n.Rule) (w : n.World) → routes (n.rule_add r w).1 ≡ routes w
  pub route_del-rules :
      (r : n.Route) (w : n.World) → kernel.rules (n.route_del r w).1 ≡ kernel.rules w
  pub route_add-rules :
      (r : n.Route) (w : n.World) → kernel.rules (n.route_add r w).1 ≡ kernel.rules w

-- A list without elements
pub empty_list : {A : Type 0} (xs : List A) → ((x : A) → ¬ In x xs) → xs ≡ []
empty_list [] h = refl
empty_list (x ∷ xs) h = absurd (h x (inl refl))

-- Deleting each of the elements that are there.
module _ {I J W : Type 0} (items : W → List I) (others : W → List J) (del : I → W → Bool × W)
    (deleted : (r : I) (w : W)
      → In r (items w)
      → ((del r w).0 ≡ true)
        × ((x : I) → In x (items (del r w).1) ↔ (In x (items w) × (¬ (x ≡ r)))))
    (apart : (r : I) (w : W) → others (del r w).1 ≡ others w) (error : PolicyError) where
  delete_each-all :
      (rs : List I) (w : W)
      → Distinct rs
      → ((x : I) → In x rs → In x (items w))
      → ((delete_each del error rs w).0 ≡ none)
        × ((x : I) → In x (items (delete_each del error rs w).1) ↔ (In x (items w) × (¬ In x rs)))
        × (others (delete_each del error rs w).1 ≡ others w)
  unfolding delete_each
  delete_each-all [] w d h = (refl, (λ x. ((λ i. (i, λ e. e)), λ p. p.0)), refl)
  delete_each-all (r ∷ rs) w (alone, d) h =
      let (ok, changed) = deleted r w (h r (inl refl)) in
      let (none_failed, same, others_same) =
        delete_each-all rs (del r w).1 d
          (λ x i. (changed x).1 (h x (inr i), λ q. alone (subst (λ z. In z rs) q i))) in
      rw (delete_each, ok)
        (
          none_failed,
          (λ x. (
            (λ i.
                let (there, kept) = (same x).0 i in
                let (before, ne) = (changed x).0 there in
                (before, elim [ inl q ↦ ne q | inr q ↦ kept q ])),
            λ p. (same x).1 ((changed x).1 (p.0, λ q. p.1 (inl q)), λ q. p.1 (inr q)),
          )),
          others_same ∙ apart r w,
        )

  pub delete_each-nothing :
      (w : W)
      → Distinct (items w)
      → ((delete_each del error (items w) w).0 ≡ none)
        × (items (delete_each del error (items w) w).1 ≡ [])
        × (others (delete_each del error (items w) w).1 ≡ others w)
  delete_each-nothing w d =
      let (ok, gone, same) = delete_each-all (items w) w d (λ x i. i) in
      (ok, empty_list _ (λ x i. let (there, not_there) = (gone x).0 i in not_there there), same)

module _ (a : Addresses) (n : Netlink) (t : ℤ) (k : Table n t) where
  open n use {World}

  pub flush_routing_policies-nothing :
      (w : World)
      → ((flush_routing_policies a n t w).0 ≡ none)
        × (k.kernel.rules (flush_routing_policies a n t w).1 ≡ [])
        × (k.routes (flush_routing_policies a n t w).1 ≡ k.routes w)
  unfolding flush_routing_policies
  flush_routing_policies-nothing w =
      rw (flush_routing_policies, k.kernel.listed w)
        (delete_each-nothing k.kernel.rules k.routes n.rule_del k.kernel.deleted k.rule_del-routes
          rule_not_deleted w (k.kernel.rules-Distinct w))

  pub flush_routing_tables-nothing :
      (w : World)
      → ((flush_routing_tables a n t w).0 ≡ none)
        × (k.routes (flush_routing_tables a n t w).1 ≡ [])
        × (k.kernel.rules (flush_routing_tables a n t w).1 ≡ k.kernel.rules w)
  unfolding flush_routing_tables
  flush_routing_tables-nothing w =
      rw (flush_routing_tables, k.routes_listed w)
        (delete_each-nothing k.routes k.kernel.rules n.route_del k.route_deleted k.route_del-rules
          route_not_deleted w (k.routes-Distinct w))
