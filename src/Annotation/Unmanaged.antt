-- ===== src/Annotation/Unmanaged.antt =====
-- The attachments of others stay as they are.
use l_3_4_gateway_api_poc.Base.{
  ◌≡◌, refl, ap, true, false, List, [], ◌∷◌, ◌++◌, append-nil, Text, codes, ℕ, pos, some, ltb, ◌&&◌,
  length, text_discrete, lookup, if_pos, if_neg, Bool-cases, inl, inr, ◌⊎◌, subst, Option, none,
}
use l_3_4_gateway_api_poc.Annotation.Tables.{argument-some}
use l_3_4_gateway_api_poc.Annotation.{
  CniArgs, text, whole, texts, policy_routes, Value, float, whole, anys, other, argument, is_proxy,
  vip_nad_name, policy_route_nad_name, NetworkSelectionElement, is_managed, select, vip_elements,
  policy_route_elements, equal_vips_gateways, get_free_table_id, get_network_attachment_annotation,
}

is_proxy_only : (proxy : Text) (o : Option Value) → is_proxy proxy o ≡ true → o ≡ some (text proxy)
is_proxy_only proxy none h = absurd (cc)
is_proxy_only proxy (some (text t)) h = elim (text_discrete t proxy) [
  | yes e ↦ rw e refl
  | no ne ↦ let differs = if_neg (text_discrete t proxy) ne true false in absurd (cc)
]
is_proxy_only proxy (some (float n)) h = absurd (cc)
is_proxy_only proxy (some (whole n)) h = absurd (cc)
is_proxy_only proxy (some (anys xs)) h = absurd (cc)
is_proxy_only proxy (some (texts xs)) h = absurd (cc)
is_proxy_only proxy (some (policy_routes xs)) h = absurd (cc)
is_proxy_only proxy (some other) h = absurd (cc)

module _ (label proxy : Text) where
  -- The arguments of the attachment name the service proxy under its label.
  abbrev pub Managed : NetworkSelectionElement → Type 0
  Managed e =
      (args : CniArgs) × (e.cni_args ≡ some args)
      × (lookup text_discrete label args ≡ some (text proxy))

  -- The second list has the attachments of the first one that are not the proxy's, in their order.
  abbrev pub AreOthers : List NetworkSelectionElement → List NetworkSelectionElement → Type 0
  AreOthers [] others = others ≡ []
  AreOthers (e ∷ es) others =
      (Managed e × AreOthers es others)
      ⊎ ((rest : List NetworkSelectionElement) × (¬ Managed e)
          × (others ≡ e ∷ rest)
          × AreOthers es rest)

  is_managed-Managed : (e : NetworkSelectionElement) → is_managed label proxy e ≡ true → Managed e
  is_managed-Managed e h =
      argument-some label e (text proxy) (is_proxy_only proxy (argument label e) h)

  Managed-is_managed : (e : NetworkSelectionElement) → Managed e → is_managed label proxy e ≡ true
  Managed-is_managed e (args, s, l) = rw (s, l) (if_pos (text_discrete proxy proxy) refl true false)

  select-AreOthers :
      (es : List NetworkSelectionElement) → AreOthers es (select label proxy false es)
  unfolding select
  select-AreOthers [] = refl
  select-AreOthers (e ∷ es) = elim (Bool-cases (is_managed label proxy e)) [
    | inl m ↦ rw (m, select) (inl (is_managed-Managed e m, select-AreOthers es))
    | inr n ↦
        rw (n, select)
          (inr (
            select label proxy false es,
            (λ m. let yes_it_is = Managed-is_managed e m in absurd (cc)),
            refl,
            select-AreOthers es,
          ))
  ]

module _ (hash : CniArgs → Text) (label proxy : Text) where
  abbrev unmanaged : List NetworkSelectionElement → List NetworkSelectionElement
  unmanaged = select label proxy false

  select-append :
      (xs ys : List NetworkSelectionElement) → unmanaged (xs ++ ys) ≡ unmanaged xs ++ unmanaged ys
  unfolding select
  select-append [] ys = refl
  select-append (x ∷ xs) ys =
      let ih = select-append xs ys in
      elim (Bool-cases (is_managed label proxy x)) [
        | inl m ↦ rw (m, select) ih
        | inr n ↦ rw (n, select) (ap (λ r. x ∷ r) ih)
      ]

  select_twice : (xs : List NetworkSelectionElement) → unmanaged (unmanaged xs) ≡ unmanaged xs
  unfolding select
  select_twice [] = refl
  select_twice (x ∷ xs) = elim (Bool-cases (is_managed label proxy x)) [
    | inl m ↦ rw (m, select) (select_twice xs)
    | inr n ↦ rw (n, select) (rw (n, select) (ap (λ r. x ∷ r) (select_twice xs)))
  ]

  own-is_managed :
      (name interface : Text) (args : CniArgs)
      → is_managed label proxy (record {
        name = name;
        interface_request = interface;
        cni_args = some ((label, text proxy) ∷ args);
      })
        ≡ true
  unfolding lookup
  own-is_managed name interface args =
      rw
        (if_pos (text_discrete label label) refl (some (text proxy))
          (lookup text_discrete label args))
        (if_pos (text_discrete proxy proxy) refl true false)

  select-vip_elements : (vips : List Text) → unmanaged (vip_elements hash label proxy vips) ≡ []
  unfolding select vip_elements
  select-vip_elements [] = refl
  select-vip_elements (vip ∷ vips) =
      let args : CniArgs = (codes "vip", text vip) ∷ [] in
      rw (own-is_managed vip_nad_name (hash ((label, text proxy) ∷ args)) args, select)
        (select-vip_elements vips)

  select-policy_route_elements :
      (id : ℕ) (gateways vips : List Text)
      → unmanaged (policy_route_elements hash label proxy id gateways vips) ≡ []
  unfolding select policy_route_elements
  select-policy_route_elements id gateways vips =
      let args : CniArgs =
        (codes "tableId", whole (pos id))
        ∷ (codes "gateways", texts gateways)
        ∷ (codes "policyRoutes", policy_routes vips)
        ∷ [] in
      let own = own-is_managed policy_route_nad_name (hash ((label, text proxy) ∷ args)) args in
      elim (Bool-cases (ltb 0 (length gateways) && ltb 0 (length vips))) [
        | inl both ↦ rw (both, policy_route_elements) (rw (own, select) refl)
        | inr none_of ↦ rw (none_of, policy_route_elements) refl
      ]

  annotation-select :
      (es : List NetworkSelectionElement) (vip4 vip6 gateways4 gateways6 : List Text)
      → select label proxy false
          (get_network_attachment_annotation hash label proxy es vip4 vip6 gateways4 gateways6)
        ≡ select label proxy false es
  unfolding get_network_attachment_annotation
  annotation-select es vip4 vip6 gateways4 gateways6 =
      let kept = unmanaged es in
      let id = get_free_table_id es in
      elim (Bool-cases
        (equal_vips_gateways (select label proxy true es) vip4 vip6 gateways4 gateways6)) [
          | inl same ↦ rw (same, get_network_attachment_annotation) refl
          | inr changed ↦
              rw (changed, get_network_attachment_annotation)
                (simp (
                  select-append, select_twice, select-vip_elements, select-policy_route_elements,
                  append-nil,
                ))
        ]

  -- The attachments that do not name the service proxy in their arguments are the same, in the same
  -- order, before and after getNetworkAttachmentAnnotation, whatever it is asked for.
  pub annotation-AreOthers :
      (es : List NetworkSelectionElement) (vip4 vip6 gateways4 gateways6 : List Text)
      → (others : List NetworkSelectionElement) × AreOthers label proxy es others
        × AreOthers label proxy
            (get_network_attachment_annotation hash label proxy es vip4 vip6 gateways4 gateways6)
            others
  annotation-AreOthers es vip4 vip6 gateways4 gateways6 =
      let after =
        get_network_attachment_annotation hash label proxy es vip4 vip6 gateways4 gateways6 in
      (
        unmanaged es,
        select-AreOthers label proxy es,
        subst (AreOthers label proxy after) (annotation-select es vip4 vip6 gateways4 gateways6)
            (select-AreOthers label proxy after),
      )
