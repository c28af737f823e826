-- ===== src/Bird/Loops.antt =====
-- The two loops of `setPolicyRoutes` on a kernel that does what it documents.
use l_3_4_gateway_api_poc.Base.{
  ◌≡◌, refl, sym, ap, ◌∙◌, subst, ◌↔◌, ◌⊎◌, inl, inr, Bool-cases, List, [], ◌∷◌, map, Text,
  text_discrete, pos, exists, delete, keys, In, Distinct, All,
}
use l_3_4_gateway_api_poc.Net.{Addresses, IpNet}
use l_3_4_gateway_api_poc.Netlink.{Netlink, Kernel}
use l_3_4_gateway_api_poc.Bird.Template.{default_kernel_table_id}
use l_3_4_gateway_api_poc.Bird.Rules.{vip_rule, src_string, delete_rules, add_rules}
use l_3_4_gateway_api_poc.Bird.Nets.{Keyed}
use l_3_4_gateway_api_poc.Bird.Plan.{dropped, left}

module _ (a : Addresses) (n : Netlink) (k : Kernel n (pos default_kernel_table_id)) where
  open a use {net_string}
  open n use {World, Rule, new_rule, rule_src, rule_add, rule_del}
  open k use {rules, listed, rules-Distinct, deleted, added, source}

  abbrev pub src : Rule → Text
  src = src_string a n

  pub delete_rules-dropped :
      (rs : List Rule) (m : List (Text × IpNet)) (w : World)
      → Distinct rs
      → ((x : Rule) → In x rs → In x (rules w))
      → ((delete_rules a n rs m w).0 ≡ ([], left src rs m))
        × ((x : Rule)
            → In x (rules (delete_rules a n rs m w).1)
              ↔ (In x (rules w) × (¬ In x (dropped src rs m))))
  unfolding delete_rules left dropped
  delete_rules-dropped [] m w d h = (refl, λ x. ((λ i. (i, λ e. e)), λ p. p.0))
  delete_rules-dropped (r ∷ rs) m w (alone, d) h = elim (Bool-cases (exists (src r) m)) [
    | inl e ↦
        rw (e) (delete_rules-dropped rs (delete text_discrete (src r) m) w d (λ x i. h x (inr i)))
    | inr e ↦
        let (ok, changed) = deleted r w (h r (inl refl)) in
        let (pure, same) =
          delete_rules-dropped rs m (rule_del r w).1 d
            (λ x i. (changed x).1 (h x (inr i), λ q. alone (subst (λ z. In z rs) q i))) in
        rw (e, ok)
          (
            pure,
            λ x. (
              (λ i.
                  let (there, kept) = (same x).0 i in
                  let (before, ne) = (changed x).0 there in
                  (before, elim [ inl q ↦ ne q | inr q ↦ kept q ])),
              λ p. (same x).1 ((changed x).1 (p.0, λ q. p.1 (inl q)), λ q. p.1 (inr q)),
            ),
          )
  ]

  -- The rules of the addresses that are left
  abbrev pub new_rules : List (Text × IpNet) → List Rule
  new_rules = map (λ e. new_rule (vip_rule e.1))

  pub src-new_rule : (net : IpNet) → src (new_rule (vip_rule net)) ≡ net_string net
  unfolding src_string
  src-new_rule net = rw (source (vip_rule net), src_string) refl

  pub add_rules-new_rules :
      (m : List (Text × IpNet)) (w : World)
      → Distinct (keys m)
      → All (Keyed a) m
      → ((x : Rule) → In x (rules w) → ¬ In (src x) (keys m))
      → ((add_rules a n m w).0 ≡ [])
        × ((x : Rule) → In x (rules (add_rules a n m w).1) ↔ (In x (new_rules m) ⊎ In x (rules w)))
  unfolding add_rules
  add_rules-new_rules [] w d h fresh =
      (refl, λ x. ((λ i. inr i), elim [ inl e ↦ absurd e | inr i ↦ i ]))
  add_rules-new_rules ((key, net) ∷ m) w (alone, d) (keyed, h) fresh =
      let new = new_rule (vip_rule net) in
      let of_new : src new ≡ key = src-new_rule net ∙ sym keyed in
      let (ok, changed) = added (vip_rule net) w refl (λ i. fresh new i (inl of_new)) in
      let (none_failed, same) = add_rules-new_rules m (rule_add new w).1 d h (λ x i.
        elim ((changed x).0 i) [
          | inl e ↦ λ j. alone (subst (λ t. In t (keys m)) (ap src e ∙ of_new) j)
          | inr o ↦ λ j. fresh x o (inr j)
        ]) in
      rw (ok) (
        none_failed,
        λ x. (
          (λ i. elim ((same x).0 i) [
            | inl j ↦ inl (inr j)
            | inr j ↦ elim ((changed x).0 j) [ inl e ↦ inl (inl e) | inr o ↦ inr o ]
          ]),
          elim [
            | inl (inl e) ↦ (same x).1 (inr ((changed x).1 (inl e)))
            | inl (inr j) ↦ (same x).1 (inl j)
            | inr o ↦ (same x).1 (inr ((changed x).1 (inr o)))
          ],
        ),
      )

  -- Where an address is left, its new rule has its text.
  pub new_rules-src :
      (x : Rule) (m : List (Text × IpNet))
      → All (Keyed a) m
      → In x (new_rules m)
      → In (src x) (keys m)
  new_rules-src x [] h i = absurd i
  new_rules-src x ((key, net) ∷ m) (keyed, h) (inl e) =
      inl (ap src e ∙ src-new_rule net ∙ sym keyed)
  new_rules-src x ((key, net) ∷ m) (keyed, h) (inr i) = inr (new_rules-src x m h i)

  pub src-new_rules :
      (t : Text) (m : List (Text × IpNet))
      → All (Keyed a) m
      → In t (keys m)
      → (x : Rule) × In x (new_rules m) × (src x ≡ t)
  src-new_rules t [] h i = absurd i
  src-new_rules t ((key, net) ∷ m) (keyed, h) (inl e) =
      (new_rule (vip_rule net), inl refl, src-new_rule net ∙ sym keyed ∙ sym e)
  src-new_rules t ((key, net) ∷ m) (keyed, h) (inr i) =
      let (x, j, e) = src-new_rules t m h i in (x, inr j, e)

  pub new_rules_alone :
      (x y : Rule) (m : List (Text × IpNet))
      → Distinct (keys m)
      → All (Keyed a) m
      → In x (new_rules m)
      → In y (new_rules m)
      → src x ≡ src y
      → x ≡ y
  new_rules_alone x y [] d h i j e = absurd i
  new_rules_alone x y ((key, net) ∷ m) (alone, d) (keyed, h) i j e =
      let head : (z : Rule) → z ≡ new_rule (vip_rule net) → src z ≡ key =
        λ z f. ap src f ∙ src-new_rule net ∙ sym keyed in
      elim i [
        | inl f ↦ elim j [
          | inl g ↦ f ∙ sym g
          | inr l ↦
              absurd (alone (subst (λ t. In t (keys m)) (sym e ∙ head x f) (new_rules-src y m h l)))
        ]
        | inr l ↦ elim j [
          | inl g ↦
              absurd (alone (subst (λ t. In t (keys m)) (e ∙ head y g) (new_rules-src x m h l)))
          | inr o ↦ new_rules_alone x y m d h l o e
        ]
      ]
